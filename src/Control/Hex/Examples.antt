-- ===== src/Control/Hex/Examples.antt =====
-- Runs of the hexadecimal functions, and their theorems at concrete inputs.
use open_cam.Prelude.{◌≡◌, refl, true, false, [], ◌∷◌, map, All, IsByte, codes, arith}
use open_cam.Control.Hex.{encode_hex, decode_hex}
use open_cam.Control.Hex.RoundTrip.{to_lower, decode_hex-encode_hex, decode_hex-eq_ok}

encode_hex-run : encode_hex (0 ∷ 0x7f ∷ 0xa5 ∷ []) ≡ codes "007fa5"
unfolding encode_hex
encode_hex-run = refl

decode_hex-run : decode_hex (codes "007FzF") (1 ∷ 2 ∷ 3 ∷ []) ≡ (false, 0 ∷ 0x7f ∷ 3 ∷ [])
unfolding decode_hex
decode_hex-run = refl

decode_hex-encode_hex_example :
    decode_hex (encode_hex (0x7f ∷ 0xa5 ∷ [])) (0 ∷ 0 ∷ []) ≡ (true, 0x7f ∷ 0xa5 ∷ [])
decode_hex-encode_hex_example =
    decode_hex-encode_hex (0x7f ∷ 0xa5 ∷ []) (0 ∷ 0 ∷ []) (omega arith) refl

decode_hex-eq_ok_example :
    (encode_hex (0x7f ∷ 0xa5 ∷ []) ≡ map to_lower (codes "7FA5")) × All IsByte (0x7f ∷ 0xa5 ∷ [])
unfolding decode_hex
decode_hex-eq_ok_example = decode_hex-eq_ok (codes "7FA5") (0 ∷ 0 ∷ []) (0x7f ∷ 0xa5 ∷ []) refl
