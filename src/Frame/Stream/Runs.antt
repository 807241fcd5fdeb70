-- ===== src/Frame/Stream/Runs.antt =====
-- Fitting a STREAM frame at concrete values.
use dquic.Base.{ℕ, ◌+◌, ◌≤◌, ◌<◌, ◌≡◌, ◌⊎◌, arith, some, none, ret}
use dquic.Frame.Stream.{
  StreamFrame, EncodingStrategy, new, encoding_strategy, estimate_max_capacity,
}
use dquic.Frame.Stream.Fit.{Fits, size_of, offset_bytes, encoding_strategy-Fits}

encoding_strategy-Fits_example :
    ((estimate_max_capacity 1200 8 70 ≡ ret none) × (1200 ≤ 1 + size_of 8 + offset_bytes 70))
    ⊎ ((most : ℕ) × (estimate_max_capacity 1200 8 70 ≡ ret (some most))
        × ((most < 500)
            ⊎ ((f : StreamFrame) × (s : EncodingStrategy) × (new 8 70 500 ≡ ret f)
                × (encoding_strategy f 1200 ≡ ret s)
                × Fits f 1200 s)))
encoding_strategy-Fits_example =
    encoding_strategy-Fits 1200 8 70 500 (omega arith) (omega arith) (omega arith)
