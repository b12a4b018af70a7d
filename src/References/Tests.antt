-- ===== src/References/Tests.antt =====
-- Two references at which the theorem on equality is applied.
use kahuna.Common.{ℕ, List, [], ◌∷◌, some}
use kahuna.References.{VariableRef, pos}

abbrev variable : ℕ → List ℕ → VariableRef ℕ ℕ
variable i n = record {
  path = record { strs = (97 ∷ []) ∷ []; id = 0 };
  name = n;
  id = i;
  index = some (pos i);
}
