-- ===== src/Fields.antt =====
-- The fields of compound values: surfer-translation-types/src/result.rs and lib.rs, and `format`,
-- `sub_format`, `format_flat`, `get_subinfo` and `has_subpath` of libsurfer/src/translation/mod.rs.
-- Of a translator that is not basic nothing is used here.
mod Tests
pub mod Subinfo
pub mod Rows
use kahuna.Common.{
  ℕ, zero, suc, Bool, true, false, List, [], ◌∷◌, ◌++◌, map, Option, none, some, if◌then◌else◌,
  Outcome, ok, panic, ◌>>=◌, unwrap,
}
use kahuna.Decoders.{Text, codes}
use kahuna.Analog.{Checked}
use kahuna.References.{same_text, same_texts}
use kahuna.Time.Format.{join}
use kahuna.Translators.{VariableValue, string, ValueKind}

mutual
  pub data VariableInfo : Type 0 where
    compound : Subinfos → VariableInfo
    bits bool clock string_info real event : VariableInfo

  pub data Subinfos : Type 0 where
    no_subinfo : Subinfos
    subinfo : Text → VariableInfo → Subinfos → Subinfos

unfoldable mutual
  -- A field that is not there panics.
  pub get_subinfo : VariableInfo → List Text → Checked VariableInfo
  get_subinfo info [] = ok info
  get_subinfo (compound subfields) (field ∷ rest) = get_in_subfields subfields field rest
  get_subinfo _ (field ∷ rest) = panic

  -- `find` and what is done with the field
  pub get_in_subfields : Subinfos → Text → List Text → Checked VariableInfo
  get_in_subfields no_subinfo field rest = panic
  get_in_subfields (subinfo f info others) field rest = elim (same_text f field) [
    | true ↦ get_subinfo info rest
    | false ↦ get_in_subfields others field rest
  ]

unfoldable mutual
  pub has_subpath : VariableInfo → List Text → Bool
  has_subpath info [] = true
  has_subpath (compound subfields) (field ∷ rest) = has_in_subfields subfields field rest
  has_subpath _ (field ∷ rest) = false

  pub has_in_subfields : Subinfos → Text → List Text → Bool
  has_in_subfields no_subinfo field rest = false
  has_in_subfields (subinfo f info others) field rest = elim (same_text f field) [
    | true ↦ has_subpath info rest
    | false ↦ has_in_subfields others field rest
  ]

-- The text of raw bits is a `String`, and so is the name of an option.
pub data ValueRepr : Type 0 where
  bit : ℕ → ValueRepr
  raw_bits : ℕ → Text → ValueRepr
  text : Text → ValueRepr
  tuple struct array not_present event_value : ValueRepr
  enum : ℕ → Text → ValueRepr

mutual
  pub data TranslationResult : Type 0 where
    translation : ValueRepr → SubFields → ValueKind → TranslationResult

  pub data SubFields : Type 0 where
    no_field : SubFields
    field : Text → TranslationResult → SubFields → SubFields

pub record TranslatedValue : Type 0 where
  pub value : Text
  pub kind : ValueKind

pub record SubFieldFlatTranslationResult : Type 0 where
  pub names : List Text
  pub value : Option TranslatedValue

mutual
  pub data HierFormatResult : Type 0 where
    formatted : List Text → Option TranslatedValue → HierFields → HierFormatResult

  pub data HierFields : Type 0 where
    no_result : HierFields
    result : HierFormatResult → HierFields → HierFields

unfoldable mutual
  pub collect_into :
      HierFormatResult → List SubFieldFlatTranslationResult → List SubFieldFlatTranslationResult
  collect_into (formatted names this fields) into =
      collect_each fields (into ++ record { names = names; value = this } ∷ [])

  pub collect_each :
      HierFields → List SubFieldFlatTranslationResult → List SubFieldFlatTranslationResult
  collect_each no_result into = into
  collect_each (result r rest) into = collect_each rest (collect_into r into)

-- The text that a result has in the text of the value around it
abbrev pub text_or_dash : Option TranslatedValue → Text
text_or_dash none = codes "-"
text_or_dash (some t) = t.value

abbrev pub texts : HierFields → List Text
texts no_result = []
texts (result (formatted names this fields) rest) = text_or_dash this ∷ texts rest

abbrev pub named_texts : HierFields → List Text
named_texts no_result = []
named_texts (result (formatted names this fields) rest) =
    (join (codes "_") names ++ codes ": " ++ text_or_dash this) ∷ named_texts rest

-- `subresults[idx]`, of which the text is used
abbrev pub nth_text : List Text → ℕ → Option Text
nth_text [] idx = none
nth_text (t ∷ ts) zero = some t
nth_text (t ∷ ts) (suc idx) = nth_text ts idx

pub data AnyTranslator : Type 0 where
  full : AnyTranslator
  basic : (ℕ → VariableValue → Text × ValueKind) → AnyTranslator

pub record TranslatorList : Type 0 where
  pub inner : Text → Option AnyTranslator
  pub default : Text

-- A translator that is missing or not basic panics.
abbrev pub basic_translated : Option AnyTranslator → ℕ → Text → Checked (Option TranslatedValue)
basic_translated none count chars = panic
basic_translated (some full) count chars = panic
basic_translated (some (basic translate)) count chars =
    let r = translate count (string chars) in ok (some (record { value = r.0; kind = r.1 }))

abbrev pub of_kind : ValueKind → Text → Checked (Option TranslatedValue)
of_kind k t = ok (some (record { value = t; kind = k }))

unfoldable pub format :
    ValueRepr → ValueKind → Text → TranslatorList → HierFields → Checked (Option TranslatedValue)
format (bit c) k name translators subresults = basic_translated (translators.inner name) 1 (c ∷ [])
format (raw_bits count chars) k name translators subresults =
    basic_translated (translators.inner name) count chars
format (text t) k name translators subresults = of_kind k t
format tuple k name translators subresults =
    of_kind k (codes "(" ++ join (codes ", ") (texts subresults) ++ codes ")")
format struct k name translators subresults =
    of_kind k (codes "{" ++ join (codes ", ") (named_texts subresults) ++ codes "}")
format array k name translators subresults =
    of_kind k (codes "[" ++ join (codes ", ") (texts subresults) ++ codes "]")
format not_present k name translators subresults = ok none
format (enum idx option) k name translators subresults = do
  t ← unwrap (nth_text (texts subresults) idx)
  of_kind k (option ++ codes "{" ++ t ++ codes "}")
format event_value k name translators subresults = of_kind k (codes "Event")

pub record FieldFormat : Type 0 where
  pub field : List Text
  pub format : Text

abbrev pub format_of : List FieldFormat → List Text → Text → Text
format_of [] path default = default
format_of (e ∷ formats) path default =
    let rest = format_of formats path default in if same_texts e.field path then e.format else rest

module _ (formats : List FieldFormat) (translators : TranslatorList) where
  -- `sub_format`, on the fields of a result
  unfoldable pub sub_format : SubFields → List Text → Checked HierFields
  unfolding format
  sub_format no_field path_so_far = ok no_result
  sub_format (field name (translation val subfields k) rest) path_so_far = do
    let sub_path = path_so_far ++ name ∷ []
    sub ← sub_format subfields sub_path
    this ← format val k (format_of formats sub_path translators.default) translators sub
    others ← sub_format rest path_so_far
    ok (result (formatted sub_path this sub) others)

  abbrev pub or_default : Option Text → Text
  or_default none = translators.default
  or_default (some name) = name

  unfoldable pub format_flat :
      Option Text → TranslationResult → Checked (List SubFieldFlatTranslationResult)
  unfolding sub_format format collect_into
  format_flat root_format (translation val subfields k) = do
    sub ← sub_format subfields []
    this ← format val k (or_default root_format) translators sub
    ok (collect_into (formatted [] this sub) [])
