-- ===== src/Translators/Tests.antt =====
-- Runs of the translators.
use kahuna.Common.{◌≡◌, refl, [], ◌∷◌, some, ok, arith, pos, negsuc}
use kahuna.Decoders.{Text, codes, digits_of, zero_padded}
use kahuna.Translators.{
  string, big_uint, normal, undef, high_imp, check_vector_variable, kind_for_binary_representation,
  map_to_radix, extend_string,
}
use kahuna.Translators.Basic.{hexadecimal, leading_zeros_text, decode_lebxxx, compute_signed_value}
use kahuna.Translators.FixedPoint.{big_uint_to_ufixed, big_uint_to_sfixed}
use kahuna.Translators.FixedPoint.Exact.{
  Shows, SignedShows, big_uint_to_ufixed-Shows, big_uint_to_sfixed-SignedShows,
}
use kahuna.Translators.Leb.{encoded, groups_onto, decode_lebxxx-encoded}

hex_run :
    (hexadecimal 12 (string (codes "1z0101")) ≡ (codes "0z5", high_imp))
    × (hexadecimal 12 (big_uint 165) ≡ (codes "0a5", normal))
unfolding map_to_radix zero_padded digits_of
hex_run = (refl, refl)

zeros_run : leading_zeros_text 8 (string (codes "101")) ≡ (codes "5", normal)
unfolding kind_for_binary_representation digits_of extend_string
zeros_run = refl

signed_run : compute_signed_value 254 8 ≡ codes "-2"
unfolding compute_signed_value
signed_run = refl

-- A text that is not binary, and has none of the characters that the kinds are made of
unknown_run :
    (kind_for_binary_representation (codes "12") ≡ normal)
    × (check_vector_variable (codes "12") ≡ some (codes "UNKNOWN VALUES", undef))
unfolding kind_for_binary_representation check_vector_variable
unknown_run = (refl, refl)

decode_lebxxx-encoded_example :
    decode_lebxxx (encoded 9 (81 ∷ 37 ∷ [])) ≡ ok (groups_onto 0 (9 ∷ 81 ∷ 37 ∷ []))
decode_lebxxx-encoded_example =
    decode_lebxxx-encoded 9 (81 ∷ 37 ∷ []) (omega arith)
      (omega arith, (omega arith, (omega arith, tt)))

fixed_run :
    (big_uint_to_ufixed 48225 (pos 8) ≡ codes "188.37890625")
    × (big_uint_to_ufixed 500 (negsuc 0) ≡ codes "1000")
    × (big_uint_to_sfixed 122880 17 (pos 15) ≡ ok (codes "-0.25"))
    × (big_uint_to_sfixed 256 9 (pos 8) ≡ ok (codes "-1"))
unfolding big_uint_to_ufixed big_uint_to_sfixed
fixed_run = (refl, refl, refl, refl)

big_uint_to_ufixed-Shows_example : Shows (pos 8) 48225 (big_uint_to_ufixed 48225 (pos 8))
big_uint_to_ufixed-Shows_example = big_uint_to_ufixed-Shows 48225 (pos 8)

big_uint_to_sfixed-SignedShows_example :
    (t : Text) × (big_uint_to_sfixed 122880 17 (pos 15) ≡ ok t) × SignedShows 16 (pos 15) 122880 t
big_uint_to_sfixed-SignedShows_example =
    big_uint_to_sfixed-SignedShows 122880 16 (pos 15) (omega arith)
