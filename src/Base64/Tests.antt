-- ===== src/Base64/Tests.antt =====
-- Texts and their encodings, and the theorems at concrete inputs.
use Prim.Native.String.{String}
use Prim.Native.Char.{code}
use ztool_lib.Common.{ℕ, length, ◌≡◌, refl, List, [], ◌∷◌, some, arith}
use ztool_lib.Common.Outcome.{done}
use ztool_lib.Base64.{
  encode, decode, decode_char, base64de, base64en, place_char, first_sextet, second_sextet,
  third_sextet, fourth_sextet,
}
use ztool_lib.Base64.RoundTrip.{decode-encode}

abbrev codes : String → List ℕ
codes String.[] = []
codes (String.◌∷◌ c s) = code c ∷ codes s

encode-any_carnal : encode (codes "any carnal p") ≡ done (codes "YW55IGNhcm5hbCBw")
unfolding encode base64en first_sextet second_sextet third_sextet fourth_sextet
encode-any_carnal = refl

encode-pads : encode (codes "Ma") ≡ done (codes "TWE=")
unfolding encode base64en first_sextet second_sextet third_sextet fourth_sextet
encode-pads = refl

decode-pads : decode (codes "TQ==") ≡ some (codes "M")
unfolding decode decode_char base64de place_char
decode-pads = refl

abbrev four_bytes : List ℕ
four_bytes = 0 ∷ 255 ∷ 16 ∷ 7 ∷ []

decode-encode_example :
    (text : List ℕ) × (encode four_bytes ≡ done text)
    × (decode text ≡ some four_bytes)
    × (length text ≡ 8)
decode-encode_example = decode-encode four_bytes (omega arith) (omega arith)
