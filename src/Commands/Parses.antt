-- ===== src/Commands/Parses.antt =====
-- The split of a query where the expression for a word always matches: libsurfer/src/fzcmd.rs.
use kahuna.Common.{
  ◌≡◌, refl, [], ◌∷◌, some, ok, is_whitespace, all_of, trim_start, Bool-cases, inl, inr,
}
use kahuna.Decoders.{Text}
use kahuna.Commands.{
  Split, ParamGreed, word, optional_word, to_comma, rest_of_line, custom, Regexes, split_query,
  or_whole,
}

-- The expression for a word matches every text, since each of its parts may be empty.
abbrev pub AlwaysMatches : Regexes → Type 0
AlwaysMatches r = (query : Text) → (s : Split) × (r.word_captures query ≡ some s)

pub split_query-ok :
    {E : Type 0} (r : Regexes) (query : Text) (greed : ParamGreed)
    → AlwaysMatches r
    → (s : Split) × (split_query {E = E} r query greed ≡ ok s)
unfolding split_query
split_query-ok r query word h = ((h query).0, rw (h query).1 refl)
split_query-ok r query optional_word h = elim (Bool-cases (all_of is_whitespace query)) [
  | inl blank ↦ (record { skipped = []; section = 32 ∷ []; delim = []; rest = [] }, rw blank refl)
  | inr other ↦ ((h query).0, rw (other, (h query).1) refl)
]
split_query-ok r query to_comma h = (or_whole query (r.comma_captures query), refl)
split_query-ok r query rest_of_line h =
    (record { skipped = []; section = trim_start query; delim = []; rest = [] }, refl)
split_query-ok r query (custom matcher) h = (matcher query, refl)
