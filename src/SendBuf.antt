-- ===== src/SendBuf.antt =====
-- qrecovery/src/send/sndbuf.rs: the buffer of data to send, and the colours of its parts.
pub mod State
pub mod Map
pub mod Splice
pub mod Paint
pub mod Cuts
pub mod Merge
pub mod Valid
pub mod Neighbours
pub mod Ack
pub mod Loss
pub mod Pick
pub mod Growth
pub mod Buffer
mod Runs
