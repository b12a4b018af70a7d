-- ===== src/Fields/Rows.antt =====
-- The rows of `format_flat` in libsurfer/src/translation/mod.rs
use mathlib.Core.Path.{subst, ap₂}
use kahuna.Common.{
  ℕ, zero, suc, ◌<◌, ◌≡◌, refl, ap, sym, ◌∙◌, List, [], ◌∷◌, ◌++◌, map, append_assoc, append-nil,
  map-append, Option, none, some, ok, arith, Bool, true, false, length,
}
use kahuna.Decoders.{Text}
use kahuna.Analog.{Checked}
use kahuna.Translators.{VariableValue, ValueKind}
use kahuna.Fields.{
  ValueRepr, bit, raw_bits, text, tuple, struct, array, not_present, event_value, enum, translation,
  SubFields, no_field, field, TranslatedValue, SubFieldFlatTranslationResult, HierFields, no_result,
  result, formatted, collect_each, collect_into, texts, nth_text, AnyTranslator, basic,
  TranslatorList, format, FieldFormat, format_of, sub_format, format_flat, or_default,
}

-- The rows of results, each in front of those of its fields
abbrev rows_of : HierFields → List SubFieldFlatTranslationResult
rows_of no_result = []
rows_of (result (formatted names this fields) rest) =
    record { names = names; value = this } ∷ (rows_of fields ++ rows_of rest)

collect_each-rows_of :
    (fields : HierFields) (into : List SubFieldFlatTranslationResult)
    → collect_each fields into ≡ into ++ rows_of fields
unfolding collect_into
collect_each-rows_of no_result into = sym (append-nil into)
collect_each-rows_of (result (formatted names this fields) rest) into =
    let row : SubFieldFlatTranslationResult = record { names = names; value = this } in
    collect_each-rows_of rest (collect_each fields (into ++ row ∷ []))
    ∙ ap (◌++ rows_of rest) (collect_each-rows_of fields (into ++ row ∷ []))
    ∙ append_assoc (into ++ row ∷ []) (rows_of fields) (rows_of rest)
    ∙ append_assoc into (row ∷ []) (rows_of fields ++ rows_of rest)

abbrev pub is_given : {A : Type 0} → Option A → Bool
is_given none = false
is_given (some a) = true

abbrev pub is_present : ValueRepr → Bool
is_present not_present = false
is_present _ = true

-- The path of a row, and whether it has a value
abbrev pub outline : SubFieldFlatTranslationResult → List Text × Bool
outline row = (row.names, is_given row.value)

-- The paths of the fields of a result, each in front of those within it
abbrev pub outlines : SubFields → List Text → List (List Text × Bool)
outlines no_field path = []
outlines (field name (translation val subfields k) rest) path =
    (path ++ name ∷ [], is_present val)
    ∷ (outlines subfields (path ++ name ∷ []) ++ outlines rest path)

abbrev pub count : SubFields → ℕ
count no_field = 0
count (field name r rest) = suc (count rest)

abbrev pub IsBasic : Option AnyTranslator → Type 0
IsBasic o = (translate : ℕ → VariableValue → Text × ValueKind) × (o ≡ some (basic translate))

module _ (translators : TranslatorList) where
  -- The named translator serves for the value, and an option is one of the fields.
  abbrev pub Serves : Text → ValueRepr → ℕ → Type 0
  Serves name (bit c) n = IsBasic (translators.inner name)
  Serves name (raw_bits w chars) n = IsBasic (translators.inner name)
  Serves name (enum idx option) n = idx < n
  Serves name _ n = Unit

  abbrev Gives : ValueRepr → Checked (Option TranslatedValue) → Type 0
  Gives val o = (t : Option TranslatedValue) × (o ≡ ok t) × (is_given t ≡ is_present val)

  nth_text-some :
      (ts : List Text) (idx : ℕ) → idx < length ts → (t : Text) × (nth_text ts idx ≡ some t)
  nth_text-some [] idx h = absurd (omega (arith, h))
  nth_text-some (t ∷ ts) zero h = (t, refl)
  nth_text-some (t ∷ ts) (suc idx) h = nth_text-some ts idx (omega (arith, h))

  format-Gives :
      (val : ValueRepr) (k : ValueKind) (name : Text) (sub : HierFields)
      → Serves name val (length (texts sub))
      → Gives val (format val k name translators sub)
  unfolding format
  format-Gives (bit c) k name sub h = rw h.1 (_, refl, refl)
  format-Gives (raw_bits w chars) k name sub h = rw h.1 (_, refl, refl)
  format-Gives (text t) k name sub h = (_, refl, refl)
  format-Gives tuple k name sub h = (_, refl, refl)
  format-Gives struct k name sub h = (_, refl, refl)
  format-Gives array k name sub h = (_, refl, refl)
  format-Gives not_present k name sub h = (_, refl, refl)
  format-Gives (enum idx option) k name sub h =
      rw (nth_text-some (texts sub) idx h).1 (_, refl, refl)
  format-Gives event_value k name sub h = (_, refl, refl)

  module _ (formats : List FieldFormat) where
    -- For every field the selected translator serves.
    abbrev pub Formattable : SubFields → List Text → Type 0
    Formattable no_field path = Unit
    Formattable (field name (translation val subfields k) rest) path =
        Serves (format_of formats (path ++ name ∷ []) translators.default) val (count subfields)
        × Formattable subfields (path ++ name ∷ [])
        × Formattable rest path

    record Listed (fields : SubFields) (path : List Text) : Type 0 where
      results : HierFields
      listed : sub_format formats translators fields path ≡ ok results
      outlined : map outline (rows_of results) ≡ outlines fields path
      counted : length (texts results) ≡ count fields

    sub_format-Listed :
        (fields : SubFields) (path : List Text) → Formattable fields path → Listed fields path
    unfolding sub_format
    sub_format-Listed no_field path h = record {
      results = no_result;
      listed = refl;
      outlined = refl;
      counted = refl;
    }
    sub_format-Listed (field name (translation val subfields k) rest) path h =
        let sub_path = path ++ name ∷ [] in
        let chosen = format_of formats sub_path translators.default in
        let sub = sub_format-Listed subfields sub_path h.1 in
        let others = sub_format-Listed rest path h.2 in
        let this =
          format-Gives val k chosen sub.results (subst (Serves chosen val) (sym sub.counted) h.0) in
        record {
          results = result (formatted sub_path this.0 sub.results) others.results;
          listed = rw (sub.listed, this.1, others.listed) refl;
          outlined = ap₂ ◌∷◌ (ap (λ b. (sub_path, b)) this.2) (
              map-append outline (rows_of sub.results) (rows_of others.results)
              ∙ ap₂ ◌++◌ sub.outlined others.outlined);
          counted = ap suc others.counted;
        }

    -- Where the selected translators serve for all fields, and the one for the whole value, there is
    -- no panic: the rows are those of the value and its fields, each in front of its own fields,
    -- with their paths; the ones that are not present have no value.
    pub format_flat-outlines :
        (root_format : Option Text) (val : ValueRepr) (subfields : SubFields) (k : ValueKind)
        → Serves (or_default formats translators root_format) val (count subfields)
        → Formattable subfields []
        → (rows : List SubFieldFlatTranslationResult) × (format_flat formats translators root_format
              (translation val subfields k)
            ≡ ok rows)
          × (map outline rows ≡ ([], is_present val) ∷ outlines subfields [])
    unfolding format_flat collect_into
    format_flat-outlines root_format val subfields k served h =
        let sub = sub_format-Listed subfields [] h in
        let chosen = or_default formats translators root_format in
        let this =
          format-Gives val k chosen sub.results
            (subst (Serves chosen val) (sym sub.counted) served) in
        let row : SubFieldFlatTranslationResult = record { names = []; value = this.0 } in
        (
          row ∷ rows_of sub.results,
          rw (sub.listed, this.1) (ap ok (collect_each-rows_of sub.results (row ∷ []))),
          ap₂ ◌∷◌ (ap (λ b. ([], b)) this.2) sub.outlined,
        )
