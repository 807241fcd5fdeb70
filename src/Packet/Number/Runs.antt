-- ===== src/Packet/Number/Runs.antt =====
-- Packet numbers at concrete inputs.
use dquic.Base.{ℕ, ◌-◌, ◌^◌, ◌≤◌, ◌<◌, ◌≡◌, ◌⊎◌, refl, arith, List, [], ◌∷◌, ◌++◌, ret, panic}
use dquic.Base.Nom.{parsed}
use dquic.Base.Wire.{list_buf, list_uint}
use dquic.Packet.Number.{
  PacketNumber, u8, u16, encode, decode, size, nbits, truncated, put_packet_number, take_pn_len,
}
use dquic.Packet.Number.Window.{Decodes, decode-Decodes}
use dquic.Packet.Number.RoundTrip.{Fits, encode_cases, decode-encode}

-- The example of RFC 9000, A.3.
decode_rfc : decode (u16 0x9b32) 0xa82f30eb ≡ ret 0xa82f9b32
unfolding decode
decode_rfc = refl

-- The example of RFC 9000, A.2.
encode_rfc : encode 0xac5c02 0xabe8b3 ≡ ret (u16 0x5c02)
unfolding encode
encode_rfc = refl

-- Beyond 2^62 - win the decoded number is one that RFC 9000, A.3 excludes.
decode_past_limit : decode (u8 0) (2 ^ 62 - 1) ≡ ret (2 ^ 62)
unfolding decode
decode_past_limit = refl

encode_old : encode 3 4 ≡ panic
unfolding encode
encode_old = refl

decode-Decodes_example :
    (number : ℕ) × (decode (u16 0x9b32) 0xa82f30eb ≡ ret number)
    × Decodes (2 ^ 16) 0x9b32 0xa82f30eb number
unfolding nbits truncated
decode-Decodes_example = decode-Decodes (u16 0x9b32) 0xa82f30eb (omega arith) (omega arith)

encode_cases_example :
    ((4 ≤ 9) × (9 - 4 < 2 ^ 31) × ((p : PacketNumber) × (encode 9 4 ≡ ret p) × Fits 9 4 p))
    ⊎ (((9 < 4) ⊎ (2 ^ 31 ≤ 9 - 4)) × (encode 9 4 ≡ panic))
encode_cases_example = encode_cases 9 4

decode-encode_example :
    (p : PacketNumber) × (q : PacketNumber) × (out : List ℕ) × (encode 70000 69990 ≡ ret p)
    × (put_packet_number list_buf (1 ∷ []) p ≡ 1 ∷ [] ++ out)
    × (take_pn_len list_uint (size p) (out ++ 5 ∷ []) ≡ ret (parsed (5 ∷ []) q))
    × (decode q 70001 ≡ ret 70000)
decode-encode_example =
    decode-encode list_buf list_uint 70000 69990 70001 (1 ∷ []) (5 ∷ []) (omega arith) (omega arith)
      (omega arith) (omega arith) (omega arith)
