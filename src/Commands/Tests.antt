-- ===== src/Commands/Tests.antt =====
-- Runs of the command parser and of the expander on a small command.
use kahuna.Common.{
  ℕ, ◌<◌, ◌≡◌, refl, Bool, false, List, [], ◌∷◌, Option, none, some, ltb, ◌==◌, if◌then◌else◌, ok,
  arith, ℤ, pos, Bool-cases, inl, inr,
}
use kahuna.Decoders.{Text, codes}
use kahuna.Commands.{
  RestQuery, Split, word, terminal, non_terminal, OptionalCommand, no_command, some_command,
  Regexes, parse_command,
}
use kahuna.Commands.Fuzzy.{bytes_of, Matcher, Scored, FuzzyOutput, expand_command, fuzzy_match}
use kahuna.Commands.Parses.{AlwaysMatches}
use kahuna.Commands.Matches.{MarksLine, AllScored, AllRanked, marked_of, fuzzy_match-sorted}
use kahuna.Commands.Expands.{IsPublic, expand_command-IsPublic}
use mathlib.Core.List.{Perm}

-- Words are what stands between blanks.
abbrev first_word : Text → Text
first_word [] = []
first_word (c ∷ cs) = let more = c ∷ first_word cs in if c == 32 then [] else more

abbrev behind_word : Text → Text
behind_word [] = []
behind_word (c ∷ cs) = let later = behind_word cs in if c == 32 then cs else later

abbrev by_blanks : Text → Split
by_blanks query = record {
  skipped = [];
  section = first_word query;
  delim = [];
  rest = behind_word query;
}

abbrev blanks : Regexes
blanks = record { word_captures = λ query. some (by_blanks query); comma_captures = λ query. none }

blanks-AlwaysMatches : AlwaysMatches blanks
blanks-AlwaysMatches query = (by_blanks query, refl)

-- The first character has to match.
abbrev first_matches : Text → Text → Option (ℤ × List ℕ)
first_matches [] query = none
first_matches (c ∷ cs) [] = none
first_matches (c ∷ cs) (d ∷ ds) = if c == d then some (pos 5, 0 ∷ []) else none

abbrev matcher : Matcher
matcher = record { regexes = blanks; fuzzy_indices = first_matches }

bytes_of_pos : (c : ℕ) → 0 < bytes_of c
bytes_of_pos c = elim (Bool-cases (ltb c 128)) [
  | inl one ↦ rw one (omega arith)
  | inr more ↦ elim (Bool-cases (ltb c 2048)) [
    | inl two ↦ rw (more, two) (omega arith)
    | inr longer ↦ elim (Bool-cases (ltb c 65536)) [
      | inl three ↦ rw (more, longer, three) (omega arith)
      | inr four ↦ rw (more, longer, four) (omega arith)
    ]
  ]
]

matcher-MarksLine : MarksLine matcher
matcher-MarksLine [] query found e = cc
matcher-MarksLine (c ∷ cs) [] found e = cc
matcher-MarksLine (c ∷ cs) (d ∷ ds) found e = elim (Bool-cases (c == d)) [
  | inl same ↦
      let e' : some (pos 5, 0 ∷ []) ≡ some found = rw same at e in
      let z : (pos 5, 0 ∷ []) ≡ found = cc in rw (← z) (omega (arith, bytes_of_pos c), tt)
  | inr other ↦ let e' : none ≡ some found = rw other at e in cc
]

-- `zoom 5` and `quit`
abbrev zoom : Text
zoom = codes "zoom"

abbrev quit : Text
quit = codes "quit"

abbrev is_zoom : Text → Bool
is_zoom [] = false
is_zoom (c ∷ cs) = c == 122

abbrev count_parser : Text → RestQuery → OptionalCommand ℕ
count_parser [] rest = no_command
count_parser (c ∷ cs) rest = if c == 53 then some_command (terminal 5) else no_command

abbrev command_parser : Text → RestQuery → OptionalCommand ℕ
command_parser name rest =
    if is_zoom name
    then some_command (non_terminal word [] count_parser)
    else some_command (terminal 0)

zoom_run :
    parse_command blanks (codes "zoom 5") (non_terminal word (zoom ∷ quit ∷ []) command_parser)
    ≡ ok 5
unfolding parse_command
zoom_run = refl

fuzzy_match-sorted_example :
    (scored sorted : List Scored) × (fuzzy_match matcher (zoom ∷ quit ∷ []) (codes "q")
      ≡ ok (marked_of sorted))
    × AllScored matcher (codes "q") (zoom ∷ quit ∷ []) scored
    × Perm sorted scored
    × AllRanked sorted
fuzzy_match-sorted_example =
    fuzzy_match-sorted matcher (codes "q") (zoom ∷ quit ∷ []) matcher-MarksLine

expand_command-IsPublic_example :
    (result : FuzzyOutput) × (expand_command matcher
        (codes "zo")
        (non_terminal word (zoom ∷ quit ∷ []) command_parser)
      ≡ ok result)
    × IsPublic result.suggestions
expand_command-IsPublic_example =
    expand_command-IsPublic matcher blanks-AlwaysMatches matcher-MarksLine (codes "zo") word
      (zoom ∷ quit ∷ []) command_parser
