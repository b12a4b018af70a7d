-- ===== src/Commands.antt =====
-- libsurfer/src/fzcmd.rs: commands with parameters, their parser, and the fuzzy completion of a
-- query. The captures of the two regular expressions and the score of the fuzzy matcher come from
-- libraries, and are arguments. A parser is a function, and a command a finite tree of them.
mod Tests
pub mod Fuzzy
pub mod Parses
pub mod Matches
pub mod Expands
use kahuna.Common.{
  ℕ, zero, suc, ◌+◌, Bool, true, false, ◌&&◌, ◌||◌, List, [], ◌∷◌, ◌++◌, Option, none, some, ltb,
  leb, ◌==◌, if◌then◌else◌, Outcome, ok, err, panic, ◌>>=◌, unwrap, is_whitespace, all_of, is_empty,
  trim_start,
}
use kahuna.Decoders.{Text}

pub data RestQuery : Type 0 where
  something : Text → RestQuery
  empty : RestQuery

-- `RestQuery::from`
abbrev pub rest_query : Text → RestQuery
rest_query [] = empty
rest_query (c ∷ cs) = something (c ∷ cs)

-- The four parts of a query: what is skipped, the parameter, the delimiter, and the rest.
pub record Split : Type 0 where
  pub skipped : Text
  pub section : Text
  pub delim : Text
  pub rest : Text

pub data ParamGreed : Type 0 where
  word optional_word to_comma rest_of_line : ParamGreed
  custom : (Text → Split) → ParamGreed

mutual
  pub data Command (T : Type 0) : Type 0 where
    terminal : T → Command T
    non_terminal : ParamGreed → List Text → (Text → RestQuery → OptionalCommand T) → Command T

  -- `Option<Command<T>>`
  pub data OptionalCommand (T : Type 0) : Type 0 where
    no_command : OptionalCommand T
    some_command : Command T → OptionalCommand T

-- What a parser of parameters is.
abbrev pub Parser : Type 0 → Type 0
Parser T = Text → RestQuery → OptionalCommand T

pub data ParseError : Type 0 where
  invalid_parameter : Text → ParseError
  missing_parameters : ParseError
  extra_parameters : Text → ParseError

-- The first captures of `(\W*)(\w*)(\W?)(.*)` and of `(\W*)([^,]*)(,?)(.*)`
pub record Regexes : Type 0 where
  pub word_captures : Text → Option Split
  pub comma_captures : Text → Option Split

-- The captures, or the whole query as the parameter
abbrev pub or_whole : Text → Option Split → Split
or_whole query none = record { skipped = []; section = query; delim = []; rest = [] }
or_whole query (some s) = s

module _ {E : Type 0} (r : Regexes) where
  abbrev pub separate_first_word : Text → Outcome E Split
  separate_first_word query = unwrap (r.word_captures query)

  abbrev pub separate_optional_word : Text → Outcome E Split
  separate_optional_word query =
      if all_of is_whitespace query
      then ok (record { skipped = []; section = 32 ∷ []; delim = []; rest = [] })
      else separate_first_word query

  abbrev pub separate_until_comma : Text → Outcome E Split
  separate_until_comma query = ok (or_whole query (r.comma_captures query))

  unfoldable pub split_query : Text → ParamGreed → Outcome E Split
  split_query query word = separate_first_word query
  split_query query optional_word = separate_optional_word query
  split_query query to_comma = separate_until_comma query
  split_query query rest_of_line =
      ok (record { skipped = []; section = trim_start query; delim = []; rest = [] })
  split_query query (custom matcher) = ok (matcher query)

unfoldable mutual
  unfolding split_query

  pub parse_command : {T : Type 0} → Regexes → Text → Command T → Outcome ParseError T
  parse_command r query (terminal value) =
      if is_empty query then ok value else err (extra_parameters query)
  parse_command r query (non_terminal greed suggestions parser) = do
    s ← split_query r query greed
    let next = parse_next r s (parser s.section (rest_query s.rest))
    if is_empty s.section then err missing_parameters else next

  pub parse_next : {T : Type 0} → Regexes → Split → OptionalCommand T → Outcome ParseError T
  parse_next r s no_command = err (invalid_parameter s.section)
  parse_next r s (some_command next_command) = parse_command r s.rest next_command
