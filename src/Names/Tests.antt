-- ===== src/Names/Tests.antt =====
-- Runs on three variables with the same local name.
use kahuna.Common.{◌≡◌, ◌≢◌, refl, List, [], ◌∷◌, none, some, true, false, ap, sym, ◌∙◌}
use kahuna.Decoders.{Text, codes, digits_of}
use kahuna.References.{VariableRef, pos, same_variable, same_texts}
use kahuna.Names.{unique, display_name, compute_minimal_display_map, group_names, full_path_string}
use kahuna.Names.Sorted.{Pairs}
use kahuna.Names.Unique.{group_names_unique}

abbrev variable : List Text → Text → VariableRef Unit Unit
variable strs name = record {
  path = record { strs = strs; id = tt };
  name = name;
  id = tt;
  index = none;
}

abbrev x : Text
x = codes "x"

abbrev three : List (VariableRef Unit Unit)
three =
    variable (codes "top" ∷ codes "dut" ∷ []) x
    ∷ variable (codes "other" ∷ codes "dut" ∷ []) x
    ∷ variable (codes "top" ∷ codes "sub" ∷ []) x
    ∷ []

collisions_run :
    compute_minimal_display_map three
    ≡ (codes "other.dut.x", codes "other.dut.x")
      ∷ (codes "top.dut.x", codes "top.dut.x")
      ∷ (codes "top.sub.x", 8230 ∷ codes "sub.x")
      ∷ []
unfolding compute_minimal_display_map
collisions_run = refl

root_run :
    compute_minimal_display_map
      (variable [] x ∷ variable (codes "a" ∷ []) x ∷ variable [] (codes "y") ∷ [])
    ≡ (codes "x", codes "x") ∷ (codes "a.x", codes "a.x") ∷ (codes "y", codes "y") ∷ []
unfolding compute_minimal_display_map
root_run = refl

abbrev indexed : VariableRef Unit Unit → VariableRef Unit Unit
indexed v = record { path = v.path; name = v.name; id = tt; index = some (pos 3) }

-- A variable outside any scope has a point in front when it has an index.
root_index_run : full_path_string (indexed (variable [] x)) ≡ codes ".x[3]"
unfolding full_path_string digits_of
root_index_run = refl

abbrev in_a : VariableRef Unit Unit
in_a = variable (codes "a" ∷ []) x

-- A variable that differs in its index only is equal to the one in the map, but has another key.
indexed_run :
    (same_variable in_a (indexed in_a) ≡ true)
    × (display_name
          (compute_minimal_display_map (in_a ∷ variable (codes "b" ∷ []) x ∷ []))
          (indexed in_a)
          unique
        ≡ codes "x")
unfolding same_variable display_name compute_minimal_display_map
indexed_run = (refl, refl)

abbrev top_dut : List Text
top_dut = codes "top" ∷ codes "dut" ∷ []

abbrev other_dut : List Text
other_dut = codes "other" ∷ codes "dut" ∷ []

abbrev top_sub : List Text
top_sub = codes "top" ∷ codes "sub" ∷ []

differing : (a b : List Text) → same_texts a a ≡ true → same_texts b a ≡ false → a ≢ b
differing a b same differs e =
    let both : same_texts a a ≡ same_texts b a = ap (λ (p : List Text). same_texts p a) e in
    let clash : true ≡ false = sym same ∙ both ∙ differs in cc

group_names_unique_example : Pairs (λ (t u : Text × Text). t.1 ≢ u.1) (group_names three)
group_names_unique_example =
    group_names_unique x refl three
      (
        (refl, ((refl, refl), ((refl, refl), tt))),
        (
          (refl, ((refl, refl), ((refl, refl), tt))),
          ((refl, ((refl, refl), ((refl, refl), tt))), tt),
        ),
      )
      (
        (differing top_dut other_dut refl refl, (differing top_dut top_sub refl refl, tt)),
        ((differing other_dut top_sub refl refl, tt), (tt, tt)),
      )
