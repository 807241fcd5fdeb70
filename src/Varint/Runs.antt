-- ===== src/Varint/Runs.antt =====
-- The codec on concrete bytes, and its theorems at concrete inputs.
use dquic.Base.{
  ℕ, ◌-◌, ◌^◌, ◌≤◌, ◌<◌, ◌≡◌, ◌⊎◌, refl, arith, List, [], ◌∷◌, ◌++◌, ret, panic, length, drop,
  sub_u64,
}
use dquic.Base.Nom.{parsed, incomplete}
use dquic.Base.Wire.{list_buf, list_bits}
use dquic.Varint.{EncodeBytes, two, encoding_size, put_varint, encode_varint, be_varint}
use dquic.Varint.Codec.{nbytes, limit, encode_varint_lem, be_varint-put_varint}
use dquic.Varint.Input.{announced, be_varint_total}

-- The example of the documentation: 0x40 0x01 is 1 in two bytes.
be_varint_doc : be_varint list_bits (0x40 ∷ 0x01 ∷ []) ≡ ret (parsed [] 1)
unfolding be_varint
be_varint_doc = refl

put_varint_doc : put_varint list_buf [] 1 ≡ ret (0x01 ∷ [])
unfolding put_varint
put_varint_doc = refl

encode_varint_doc : encode_varint list_buf [] 1 two ≡ ret (0x40 ∷ 0x01 ∷ [])
unfolding encode_varint
encode_varint_doc = refl

-- The example of RFC 9000, A.1.
be_varint_rfc :
    be_varint list_bits (0xc2 ∷ 0x19 ∷ 0x7c ∷ 0x5e ∷ 0xff ∷ 0x14 ∷ 0xe8 ∷ 0x8c ∷ 7 ∷ [])
    ≡ ret (parsed (7 ∷ []) 151288809941952652)
unfolding be_varint
be_varint_rfc = refl

be_varint_cut : be_varint list_bits (0xc2 ∷ 0x19 ∷ []) ≡ ret (incomplete 6)
unfolding be_varint sub_u64
be_varint_cut = refl

encode_varint_lem_example :
    ((300 < limit two)
      × ((b' : List ℕ) × (out : List ℕ) × (encode_varint list_buf (9 ∷ []) 300 two ≡ ret b')
          × (b' ≡ 9 ∷ [] ++ out)
          × (length out ≡ 2)
          × (be_varint list_bits (out ++ 7 ∷ []) ≡ ret (parsed (7 ∷ []) 300))))
    ⊎ ((limit two ≤ 300) × (encode_varint list_buf (9 ∷ []) 300 two ≡ panic))
encode_varint_lem_example = encode_varint_lem list_buf list_bits (9 ∷ []) 300 two (7 ∷ [])

be_varint-put_varint_example :
    (b' : List ℕ) × (out : List ℕ) × (put_varint list_buf (9 ∷ []) 300 ≡ ret b')
    × (b' ≡ 9 ∷ [] ++ out)
    × (encoding_size 300 ≡ ret (length out))
    × ((k : EncodeBytes) → 300 < limit k → length out ≤ nbytes k)
    × (be_varint list_bits (out ++ 7 ∷ []) ≡ ret (parsed (7 ∷ []) 300))
be_varint-put_varint_example =
    be_varint-put_varint list_buf list_bits (9 ∷ []) 300 (7 ∷ []) (omega arith)

abbrev cut_input : List ℕ
cut_input = 0xc2 ∷ 0x19 ∷ []

be_varint_total_example :
    ((cut_input ≡ []) × (be_varint list_bits cut_input ≡ ret (incomplete 1)))
    ⊎ ((b : ℕ) × (tail : List ℕ) × (cut_input ≡ b ∷ tail)
        × (((length cut_input < announced b)
              × (be_varint list_bits cut_input ≡ ret (incomplete (announced b - length cut_input))))
            ⊎ ((announced b ≤ length cut_input)
                × ((v : ℕ) × (be_varint list_bits cut_input
                      ≡ ret (parsed (drop (announced b) cut_input) v))
                    × (v < 2 ^ 62)))))
be_varint_total_example = be_varint_total list_bits cut_input (omega arith)
