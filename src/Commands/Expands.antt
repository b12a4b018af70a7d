-- ===== src/Commands/Expands.antt =====
-- The expansion of a query: what it may suggest, and how it extends the query.
use kahuna.Common.{
  ◌≡◌, refl, sym, ◌∙◌, ap, ◌&&◌, List, [], ◌++◌, append-nil, append_assoc, ok, is_empty, Bool-cases,
  inl, inr,
}
use kahuna.Decoders.{Text}
use kahuna.Commands.{
  rest_query, ParamGreed, terminal, non_terminal, OptionalCommand, no_command, some_command, Parser,
}
use kahuna.Commands.Fuzzy.{
  reached_terminal, malformed_command, no_more_input, Marked, Suggestions, suggested, failed,
  FuzzyOutput, Checked, Matcher, ends_in_whitespace, at_end, best, or_these, or_all, fuzz_section,
  fuzz_next, handle_non_terminal_fuzz, expand_command,
}
use kahuna.Commands.Parses.{AlwaysMatches, split_query-ok}
use kahuna.Commands.Matches.{MarksLine, marked_of, fuzzy_match-sorted}

-- What the expander may return inside, and what it may return to its caller.
abbrev pub IsInner : Suggestions → Type 0
IsInner (suggested found) = Unit
IsInner (failed reached_terminal) = ⊥
IsInner (failed (malformed_command suggestions query)) = Unit
IsInner (failed no_more_input) = Unit

abbrev pub IsPublic : Suggestions → Type 0
IsPublic (suggested found) = Unit
IsPublic (failed reached_terminal) = ⊥
IsPublic (failed (malformed_command suggestions query)) = Unit
IsPublic (failed no_more_input) = ⊥

-- The expansion goes on from the query up to here.
abbrev pub Extends : Text → FuzzyOutput → Type 0
Extends previous result = (tail : Text) × (result.expanded ≡ previous ++ tail)

abbrev Fine : Text → Checked FuzzyOutput → Type 0
Fine previous run =
    (result : FuzzyOutput) × (run ≡ ok result)
    × Extends previous result
    × IsInner result.suggestions

at_end-Fine :
    (previous : Text) (suggestions : List Text) → Fine previous (ok (at_end previous suggestions))
at_end-Fine previous suggestions = elim (Bool-cases (ends_in_whitespace previous)) [
  | inl blank ↦ (at_end previous suggestions, refl, ([], sym (append-nil previous)), rw blank tt)
  | inr other ↦ (at_end previous suggestions, refl, ([], sym (append-nil previous)), rw other tt)
]

extend :
    (previous current tail more text : Text)
    → current ≡ previous ++ tail
    → text ≡ current ++ more
    → (end : Text) × (text ≡ previous ++ end)
extend previous current tail more text e k =
    (tail ++ more, k ∙ ap (λ (t : Text). t ++ more) e ∙ append_assoc previous tail more)

or_these-Fine :
    (previous current tail : Text) (commands : List Marked) (text : Text) (found : Suggestions)
    → current ≡ previous ++ tail
    → Extends current (record { expanded = text; suggestions = found })
    → IsInner found
    → Fine previous
        (ok (or_these current commands (record { expanded = text; suggestions = found })))
or_these-Fine previous current tail commands text (suggested found) e x inner =
    (_, refl, extend previous current tail x.0 text e x.1, tt)
or_these-Fine previous current tail commands text (failed reached_terminal) e x inner = absurd inner
or_these-Fine previous current tail commands text (failed (malformed_command ss q)) e x inner =
    (_, refl, extend previous current tail x.0 text e x.1, tt)
or_these-Fine previous current tail commands text (failed no_more_input) e x inner =
    (_, refl, (tail, e), tt)

-- How a parameter goes on with the result of its parser.
abbrev onward :
    {T : Type 0}
    → Matcher
    → Text
    → Text
    → List Text
    → Parser T
    → Text
    → Text
    → List Marked
    → Text
    → Checked FuzzyOutput
onward m previous query suggestions parser current rest commands expansion =
    fuzz_next m previous query suggestions current rest commands
      (parser expansion (rest_query rest))

module _ (m : Matcher) (captures : AlwaysMatches m.regexes) (marks : MarksLine m) where
  fuzz_section-Fine :
      (previous query : Text) (greed : ParamGreed) (suggestions : List Text)
      (next : Text → Text → List Marked → Text → Checked FuzzyOutput)
      → ((tail rest : Text) (commands : List Marked) (expansion : Text)
          → Fine previous (next (previous ++ tail) rest commands expansion))
      → Fine previous (fuzz_section m previous query greed suggestions next)
  unfolding fuzz_section
  fuzz_section-Fine previous query greed suggestions next fine =
      let split = split_query-ok {E = ⊥} m.regexes query greed captures in
      let run = fuzzy_match-sorted m split.0.section suggestions marks in
      let expansion = best split.0.section (marked_of run.1) in
      elim (Bool-cases (is_empty split.0.skipped && is_empty split.0.section)) [
        | inl end ↦ rw (split.1, end) (at_end-Fine previous suggestions)
        | inr more ↦
            rw (split.1, more, run.2, append_assoc previous expansion split.0.delim)
              (fine (expansion ++ split.0.delim) (split.0.delim ++ split.0.rest) (marked_of run.1)
                expansion)
      ]

  fuzz_next-Fine :
      {T : Type 0} (previous query : Text) (suggestions : List Text) (current tail rest : Text)
      (commands : List Marked) (found : OptionalCommand T)
      → current ≡ previous ++ tail
      → Fine previous (fuzz_next m previous query suggestions current rest commands found)
  unfolding fuzz_next
  fuzz_next-Fine previous query suggestions current tail rest commands no_command e =
      (_, refl, ([], sym (append-nil previous)), tt)
  fuzz_next-Fine previous query suggestions current tail rest commands
        (some_command (terminal value)) e =
      (_, refl, (tail, e), tt)
  fuzz_next-Fine previous query suggestions current tail rest commands
        (some_command (non_terminal greed next parser)) e =
      let deeper =
        fuzz_section-Fine current rest greed next (onward m current rest next parser)
          (λ tail' rest' commands' expansion.
            fuzz_next-Fine current rest next (current ++ tail') tail' rest' commands'
              (parser expansion (rest_query rest')) refl) in
      rw deeper.1 (
        or_these-Fine previous current tail commands deeper.0.expanded deeper.0.suggestions e
          deeper.2 deeper.3)

  -- The expansion of a query for a parameter does not panic, begins with the query before it, and
  -- is never `ReachedTerminal`. The expression for a word matches every text, and the matcher marks
  -- bytes of the alternative that it is given.
  pub handle_non_terminal_fuzz-Extends :
      {T : Type 0} (previous query : Text) (greed : ParamGreed) (suggestions : List Text)
      (parser : Parser T)
      → (result : FuzzyOutput) × (handle_non_terminal_fuzz m previous query greed suggestions parser
          ≡ ok result)
        × Extends previous result
        × IsInner result.suggestions
  unfolding handle_non_terminal_fuzz
  handle_non_terminal_fuzz-Extends previous query greed suggestions parser =
      fuzz_section-Fine previous query greed suggestions
        (onward m previous query suggestions parser)
        (λ tail rest commands expansion.
          fuzz_next-Fine previous query suggestions (previous ++ tail) tail rest commands
            (parser expansion (rest_query rest)) refl)

  or_all-IsPublic :
      (suggestions : List Text) (text : Text) (found : Suggestions)
      → IsInner found
      → IsPublic (or_all suggestions (record { expanded = text; suggestions = found })).suggestions
  or_all-IsPublic suggestions text (suggested found) inner = tt
  or_all-IsPublic suggestions text (failed reached_terminal) inner = absurd inner
  or_all-IsPublic suggestions text (failed (malformed_command ss q)) inner = tt
  or_all-IsPublic suggestions text (failed no_more_input) inner = tt

  -- A command that takes a parameter is expanded to suggestions or to `MalformedCommand`: there is no
  -- panic, and neither `NoMoreInput` nor `ReachedTerminal` is returned. The expression for a word
  -- matches every text, and the matcher marks bytes of the alternative that it is given.
  pub expand_command-IsPublic :
      {T : Type 0} (query : Text) (greed : ParamGreed) (suggestions : List Text) (parser : Parser T)
      → (result : FuzzyOutput) × (expand_command m query (non_terminal greed suggestions parser)
          ≡ ok result)
        × IsPublic result.suggestions
  unfolding expand_command
  expand_command-IsPublic query greed suggestions parser =
      let run = handle_non_terminal_fuzz-Extends [] query greed suggestions parser in
      (
        or_all suggestions run.0,
        rw run.1 refl,
        or_all-IsPublic suggestions run.0.expanded run.0.suggestions run.3,
      )
