-- ===== src/Commands/Fuzzy.antt =====
-- libsurfer/src/fzcmd.rs: the fuzzy completion of a query.
use kahuna.Common.{
  ℕ, ◌+◌, Bool, true, false, ◌&&◌, ◌||◌, List, [], ◌∷◌, ◌++◌, map, Option, none, some, ltb,
  if◌then◌else◌, Outcome, ok, ◌>>=◌, require, length, replicate, update_at, ℤ, pos, less, is_empty,
  is_whitespace,
}
use kahuna.Decoders.{Text}
use kahuna.Commands.{
  rest_query, ParamGreed, Command, terminal, non_terminal, OptionalCommand, no_command,
  some_command, Parser, Regexes, split_query,
}

pub data FuzzyError : Type 0 where
  reached_terminal : FuzzyError
  malformed_command : List Text → Text → FuzzyError
  no_more_input : FuzzyError

-- A text, with a mark for each byte that the query matches.
abbrev pub Marked : Type 0
Marked = Text × List Bool

-- `Result<Vec<(String, Vec<bool>)>, FuzzyError>`
pub data Suggestions : Type 0 where
  suggested : List Marked → Suggestions
  failed : FuzzyError → Suggestions

pub record FuzzyOutput : Type 0 where
  pub expanded : Text
  pub suggestions : Suggestions

-- `str::len`: the bytes of UTF-8
abbrev pub bytes_of : ℕ → ℕ
bytes_of c = if ltb c 128 then 1 else if ltb c 2048 then 2 else if ltb c 65536 then 3 else 4

abbrev pub len : Text → ℕ
len [] = 0
len (c ∷ cs) = bytes_of c + len cs

abbrev pub Checked : Type 0 → Type 0
Checked A = Outcome ⊥ A

-- `indices.iter().for_each(|&i| matches[i] = true)`
unfoldable pub mark_all : List ℕ → List Bool → Checked (List Bool)
mark_all [] matches = ok matches
mark_all (i ∷ indices) matches =
    let marked = mark_all indices (update_at i (λ m. true) matches) in
    require (ltb i (length matches)) marked

-- `fuzzy_indices` of the matcher, and the two expressions.
pub record Matcher : Type 0 where
  pub regexes : Regexes
  pub fuzzy_indices : Text → Text → Option (ℤ × List ℕ)

pub record Scored : Type 0 where
  pub option : Text
  pub score : ℤ
  pub matches : List Bool

-- The order of the keys `(-score, option.len())`
abbrev pub before : Scored → Scored → Bool
before a b =
    less b.score a.score
    || (if less a.score b.score then false else ltb (len a.option) (len b.option))

-- A stable sort: an element goes behind all that are not after it.
unfoldable pub insert_by_key : Scored → List Scored → List Scored
insert_by_key x [] = x ∷ []
insert_by_key x (y ∷ ys) =
    let later = insert_by_key x ys in if before y x then y ∷ later else x ∷ y ∷ ys

unfoldable pub sort_by_key : List Scored → List Scored
unfolding insert_by_key
sort_by_key [] = []
sort_by_key (x ∷ xs) = insert_by_key x (sort_by_key xs)

abbrev pub unwrap_or_default : Option (ℤ × List ℕ) → ℤ × List ℕ
unwrap_or_default none = (pos 0, [])
unwrap_or_default (some found) = found

module _ (m : Matcher) where
  unfoldable pub fuzzy_score : Text → Text → Checked Scored
  unfolding mark_all
  fuzzy_score line query = do
    let found = unwrap_or_default (m.fuzzy_indices line query)
    matches ← mark_all found.1 (replicate (len line) false)
    ok (record { option = line; score = found.0; matches = matches })

  unfoldable pub with_scores : List Text → Text → Checked (List Scored)
  unfolding fuzzy_score
  with_scores [] query = ok []
  with_scores (option ∷ options) query = do
    scored ← fuzzy_score option query
    rest ← with_scores options query
    ok (scored ∷ rest)

  unfoldable pub fuzzy_match : List Text → Text → Checked (List Marked)
  unfolding with_scores sort_by_key
  fuzzy_match alternatives query = do
    scored ← with_scores alternatives query
    ok (map (λ (s : Scored). (s.option, s.matches)) (sort_by_key scored))

abbrev pub unmarked : List Text → List Marked
unmarked = map (λ (s : Text). (s, replicate (len s) false))

abbrev pub ends_in_whitespace : Text → Bool
ends_in_whitespace [] = false
ends_in_whitespace (c ∷ []) = is_whitespace c
ends_in_whitespace (c ∷ d ∷ cs) = ends_in_whitespace (d ∷ cs)

abbrev pub at_end : Text → List Text → FuzzyOutput
at_end previous_query suggestions = record {
  expanded = previous_query;
  suggestions =
      if ends_in_whitespace previous_query
      then suggested (unmarked suggestions)
      else failed no_more_input;
}

-- `expanded_commands.first().map_or(&current_section, …)`
abbrev pub best : Text → List Marked → Text
best section [] = section
best section (first ∷ others) = first.0

-- The suggestions of this parameter stand in for those of one with no input.
abbrev pub or_these : Text → List Marked → FuzzyOutput → FuzzyOutput
or_these current_query expanded_commands next_result = elim next_result.suggestions [
  | suggested found ↦ next_result
  | failed no_more_input ↦ record {
    expanded = current_query;
    suggestions = suggested expanded_commands;
  }
  | failed reached_terminal ↦ next_result
  | failed (malformed_command alternatives query) ↦ next_result
]

-- `handle_non_terminal_fuzz` up to the result of the parser, which `next` goes on with: it takes the
-- query up to the expansion, the rest, the expanded commands, and the expansion.
unfoldable pub fuzz_section :
    Matcher
    → Text
    → Text
    → ParamGreed
    → List Text
    → (Text → Text → List Marked → Text → Checked FuzzyOutput)
    → Checked FuzzyOutput
unfolding split_query fuzzy_match
fuzz_section m previous_query query greed suggestions next = do
  s ← split_query m.regexes query greed
  let expanded = do
    expanded_commands ← fuzzy_match m suggestions s.section
    let expansion = best s.section expanded_commands
    next (previous_query ++ expansion ++ s.delim) (s.delim ++ s.rest) expanded_commands expansion
  if is_empty s.skipped && is_empty s.section
      then ok (at_end previous_query suggestions)
      else expanded

-- The match on the result of the parser.
unfoldable pub fuzz_next :
    {T : Type 0}
    → Matcher
    → Text
    → Text
    → List Text
    → Text
    → Text
    → List Marked
    → OptionalCommand T
    → Checked FuzzyOutput
unfolding fuzz_section
fuzz_next m previous query suggestions current rest commands no_command =
    ok (record { expanded = previous; suggestions = failed (malformed_command suggestions query) })
fuzz_next m previous query suggestions current rest commands (some_command (terminal value)) =
    ok (record { expanded = current; suggestions = suggested commands })
fuzz_next m previous query suggestions current rest commands
      (some_command (non_terminal greed next parser)) =
    do
      next_result ← fuzz_section m current rest greed next (λ current' rest' commands' expansion.
          fuzz_next m current rest next current' rest' commands'
            (parser expansion (rest_query rest')))
      ok (or_these current commands next_result)

unfoldable pub handle_non_terminal_fuzz :
    {T : Type 0} → Matcher → Text → Text → ParamGreed → List Text → Parser T → Checked FuzzyOutput
unfolding fuzz_section fuzz_next
handle_non_terminal_fuzz m previous_query query greed suggestions parser =
    fuzz_section m previous_query query greed suggestions (λ current rest commands expansion.
      fuzz_next m previous_query query suggestions current rest commands
        (parser expansion (rest_query rest)))

abbrev pub or_all : List Text → FuzzyOutput → FuzzyOutput
or_all suggestions result = or_these result.expanded (unmarked suggestions) result

unfoldable pub expand_command : {T : Type 0} → Matcher → Text → Command T → Checked FuzzyOutput
unfolding handle_non_terminal_fuzz
expand_command m query (terminal value) =
    ok (record { expanded = []; suggestions = failed reached_terminal })
expand_command m query (non_terminal greed suggestions parser) = do
  fuzz_result ← handle_non_terminal_fuzz m [] query greed suggestions parser
  ok (or_all suggestions fuzz_result)
