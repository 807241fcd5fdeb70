-- ===== src/Frame/Kind/Runs.antt =====
-- Frame types at concrete codes, and the theorems about them at concrete inputs.
use dquic.Base.{◌≡◌, ◌↔◌, ◌⊎◌, refl, inr, true, not, ◌&&◌, ok, err}
use dquic.Frame.Kind.{
  ping, crypto, stream, non_zero, omit, fin_yes, invalid_type, try_from, into_varint,
}
use dquic.Frame.Kind.Codes.{IsCoded, try_from-into_varint_iff}
use dquic.Frame.Kind.Rules.{
  v1, handshake, belongs_to, contain, specs, non_ack_eliciting, belongs_to_handshake_eliciting,
}

stream_0d : try_from 0x0d ≡ ok (stream non_zero omit fin_yes)
unfolding try_from
stream_0d = refl

unknown_code : try_from 0x1f ≡ err (invalid_type 0x1f)
unfolding try_from
unknown_code = refl

try_from-into_varint_iff_example :
    (try_from 0x0d ≡ ok (stream non_zero omit fin_yes))
    ↔ ((into_varint (stream non_zero omit fin_yes) ≡ 0x0d) × IsCoded (stream non_zero omit fin_yes))
try_from-into_varint_iff_example = try_from-into_varint_iff 0x0d (stream non_zero omit fin_yes)

belongs_to_handshake_eliciting_example :
    ((belongs_to crypto (v1 handshake) && not (contain (specs crypto) non_ack_eliciting)) ≡ true)
    ↔ ((crypto ≡ ping) ⊎ (crypto ≡ crypto))
belongs_to_handshake_eliciting_example =
    belongs_to_handshake_eliciting crypto (v1 handshake) (inr refl)
