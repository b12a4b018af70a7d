-- ===== src/Fields/Tests.antt =====
-- Runs on a value of two fields, one of them with a field that is not present.
use kahuna.Common.{◌≡◌, refl, [], ◌∷◌, List, Option, none, some, ok, false, map, if◌then◌else◌}
use kahuna.Decoders.{Text, codes}
use kahuna.References.{same_text}
use kahuna.Translators.{string, normal, big_uint, VariableValue}
use kahuna.Fields.{
  compound, bits, clock, no_subinfo, subinfo, VariableInfo, get_subinfo, has_subpath, SubFields,
  no_field, field, translation, raw_bits, struct, tuple, not_present, TranslatorList, basic, full,
  format_flat, SubFieldFlatTranslationResult,
}
use kahuna.Fields.Subinfo.{Answers, has_subpath-get_subinfo}
use kahuna.Fields.Rows.{outline, outlines, is_present, format_flat-outlines}

abbrev handshake : VariableInfo
handshake = compound (
    subinfo (codes "data") (compound (subinfo (codes "low") bits no_subinfo))
      (subinfo (codes "valid") clock no_subinfo))

subinfo_run :
    (get_subinfo handshake (codes "data" ∷ codes "low" ∷ []) ≡ ok bits)
    × (has_subpath handshake (codes "valid" ∷ codes "low" ∷ []) ≡ false)
unfolding get_subinfo has_subpath
subinfo_run = (refl, refl)

has_subpath-get_subinfo_example :
    Answers
      (has_subpath handshake (codes "data" ∷ codes "high" ∷ []))
      (get_subinfo handshake (codes "data" ∷ codes "high" ∷ []))
has_subpath-get_subinfo_example =
    has_subpath-get_subinfo handshake (codes "data" ∷ codes "high" ∷ [])

abbrev shout : VariableValue → Text
shout (string t) = 33 ∷ t
shout (big_uint n) = []

abbrev translators : TranslatorList
translators = record {
  inner = λ name.
      if same_text name (codes "Shout")
      then some (basic (λ n v. (shout v, normal)))
      else if same_text name (codes "Spade")
      then some full
      else none;
  default = codes "Shout";
}

abbrev fields : SubFields
fields =
    field (codes "data")
      (translation tuple (field (codes "low") (translation not_present no_field normal) no_field)
        normal)
      (field (codes "valid") (translation (raw_bits 1 (codes "1")) no_field normal) no_field)

abbrev row : List Text → Option Text → SubFieldFlatTranslationResult
row names none = record { names = names; value = none }
row names (some t) = record { names = names; value = some (record { value = t; kind = normal }) }

flat_run :
    format_flat [] translators none (translation struct fields normal)
    ≡ ok (
        row [] (some (codes "{data: (-), valid: !1}"))
        ∷ row (codes "data" ∷ []) (some (codes "(-)"))
        ∷ row (codes "data" ∷ codes "low" ∷ []) none
        ∷ row (codes "valid" ∷ []) (some (codes "!1"))
        ∷ [])
unfolding format_flat
flat_run = refl

format_flat-outlines_example :
    (rows : List SubFieldFlatTranslationResult) × (format_flat [] translators none
        (translation struct fields normal)
      ≡ ok rows)
    × (map outline rows ≡ ([], is_present struct) ∷ outlines fields [])
format_flat-outlines_example =
    format_flat-outlines translators [] none struct fields normal tt
      (tt, (tt, tt, tt), ((_, refl), tt, tt))
