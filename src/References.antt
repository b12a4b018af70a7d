-- ===== src/References.antt =====
-- surfer-translation-types/src/scope_ref.rs and variable_ref.rs: references to scopes and
-- variables by their paths, with a numeric id that the back end adds.
pub mod Paths
mod Tests
use kahuna.Common.{ℕ, Bool, true, false, ◌&&◌, List, [], ◌∷◌, ◌++◌, Option, ◌==◌}

abbrev Text : Type 0
Text = List ℕ

-- An `i64`: the numbers from 0 on, and those from -1 down.
pub data ℤ : Type 0 where
  pos negsuc : ℕ → ℤ

pub record ScopeRef (S : Type 0) : Type 0 where
  pub strs : List Text
  pub id : S

pub record VariableRef (V S : Type 0) : Type 0 where
  pub path : ScopeRef S
  pub name : Text
  pub id : V
  pub index : Option ℤ

unfoldable pub map_id : {S T : Type 0} → (S → T) → ScopeRef S → ScopeRef T
map_id f s = record { strs = s.strs; id = f s.id }

unfoldable pub map_ids : {V W S T : Type 0} → (V → W) → (S → T) → VariableRef V S → VariableRef W T
unfolding map_id
map_ids f g v = record { path = map_id g v.path; name = v.name; id = f v.id; index = v.index }

unfoldable pub full_path : {V S : Type 0} → VariableRef V S → List Text
full_path v = v.path.strs ++ v.name ∷ []

abbrev pub same_text : Text → Text → Bool
same_text [] [] = true
same_text [] (d ∷ ds) = false
same_text (c ∷ cs) [] = false
same_text (c ∷ cs) (d ∷ ds) = (c == d) && same_text cs ds

abbrev pub same_texts : List Text → List Text → Bool
same_texts [] [] = true
same_texts [] (d ∷ ds) = false
same_texts (c ∷ cs) [] = false
same_texts (c ∷ cs) (d ∷ ds) = same_text c d && same_texts cs ds

-- `PartialEq` of the two types
unfoldable pub same_scope : {S : Type 0} → ScopeRef S → ScopeRef S → Bool
same_scope s t = same_texts s.strs t.strs

unfoldable pub same_variable : {V S : Type 0} → VariableRef V S → VariableRef V S → Bool
unfolding same_scope
same_variable v w = same_scope v.path w.path && same_text v.name w.name

abbrev pub dotted : List Text → Text
dotted [] = []
dotted (t ∷ []) = t
dotted (t ∷ u ∷ us) = t ++ (b'.' ∷ dotted (u ∷ us))

-- `Display` of a scope
unfoldable pub display : {S : Type 0} → ScopeRef S → Text
display s = dotted s.strs
