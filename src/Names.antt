-- ===== src/Names.antt =====
-- libsurfer/src/variable_name_type.rs: the names under which variables are displayed, with
-- `full_path_string` of libsurfer/src/wave_container.rs. A character is its code. The groups of the hash
-- map are in the order in which they are made.
pub mod Order
pub mod Prefixes
pub mod Sorted
pub mod Needs
pub mod Labels
pub mod Unique
mod Tests
use Prim.Native.Nat.{max, min}
use mathlib.Core.List.{reverse}
use kahuna.Common.{
  ℕ, zero, suc, ◌+◌, Bool, true, false, ◌||◌, List, [], ◌∷◌, ◌++◌, map, Option, none, some, ltb,
  ◌==◌, if◌then◌else◌, length, take, is_empty,
}
use kahuna.Decoders.{Text, digits_of, codes}
use kahuna.References.{ℤ, pos, negsuc, VariableRef, same_text}
use kahuna.Time.Format.{join}
use kahuna.Names.Order.{lex}

pub data VariableNameType : Type 0 where
  local unique global : VariableNameType

abbrev pub nothing_in : {A : Type 0} → List A → Bool
nothing_in [] = true
nothing_in (x ∷ xs) = false

abbrev pub index_text : ℤ → Text
index_text (pos n) = digits_of 10 n
index_text (negsuc n) = 45 ∷ digits_of 10 (suc n)

abbrev pub ellipsis : Text
ellipsis = 8230 ∷ []

unfoldable pub common_prefix_len : List Text → List Text → ℕ
common_prefix_len [] ys = 0
common_prefix_len (x ∷ xs) [] = 0
common_prefix_len (x ∷ xs) (y ∷ ys) =
    let rest = common_prefix_len xs ys in if same_text x y then suc rest else 0

-- `a < b` of two reverse scopes
abbrev pub scope_before : List Text → List Text → Bool
scope_before = lex (lex ltb)

-- What a neighbour in the sorted entries needs
unfoldable pub needed_beside : List Text → Option (List Text) → ℕ
unfolding common_prefix_len
needed_beside path none = 0
needed_beside path (some other) = common_prefix_len path other + 1

-- The name of a variable with so many components of its reverse scope
unfoldable pub with_scope : List Text → ℕ → Text → Text
with_scope path taken name =
    let scope = join (codes ".") (reverse (take taken path)) in
    let prefix = if ltb taken (length path) then ellipsis else [] in
    if is_empty scope then name else prefix ++ scope ++ 46 ∷ name

unfoldable pub display : List Text → ℕ → Text → Text
unfolding with_scope
display path need name =
    if need == 0 || nothing_in path then name else with_scope path (min need (length path)) name

abbrev or_earlier : Option Text → Option Text → Option Text
or_earlier none earlier = earlier
or_earlier (some t) earlier = some t

-- `get`, where the last of a key counts
abbrev get : List (Text × Text) → Text → Option Text
get [] key = none
get (e ∷ es) key = or_earlier (get es key) (if same_text e.0 key then some e.1 else none)

-- A variable with the components of its scope in reverse
abbrev pub Entry : Type 0 → Type 0 → Type 0
Entry V S = List Text × VariableRef V S

module _ {V S : Type 0} where
  unfoldable pub full_path_string_no_index : VariableRef V S → Text
  full_path_string_no_index v =
      if nothing_in v.path.strs then v.name else join (codes ".") v.path.strs ++ 46 ∷ v.name

  abbrev with_index : VariableRef V S → Option ℤ → Text
  with_index v none = full_path_string_no_index v
  with_index v (some index) =
      join (codes ".") v.path.strs ++ 46 ∷ (v.name ++ 91 ∷ (index_text index ++ codes "]"))

  unfoldable pub full_path_string : VariableRef V S → Text
  unfolding full_path_string_no_index
  full_path_string v = with_index v v.index

  abbrev pub entry_of : VariableRef V S → Entry V S
  entry_of v = (reverse v.path.strs, v)

  unfoldable pub insert_entry : Entry V S → List (Entry V S) → List (Entry V S)
  insert_entry e [] = e ∷ []
  insert_entry e (f ∷ fs) =
      let further = insert_entry e fs in if scope_before f.0 e.0 then f ∷ further else e ∷ f ∷ fs

  -- `sort_by`, which is stable
  unfoldable pub sort_entries : List (Entry V S) → List (Entry V S)
  unfolding insert_entry
  sort_entries [] = []
  sort_entries (e ∷ es) = insert_entry e (sort_entries es)

  abbrev pub next_path : List (Entry V S) → Option (List Text)
  next_path [] = none
  next_path (e ∷ es) = some e.0

  -- The entries with what they need, behind the path before them
  unfoldable pub with_needs : Option (List Text) → List (Entry V S) → List (Entry V S × ℕ)
  unfolding needed_beside
  with_needs previous [] = []
  with_needs previous (e ∷ es) =
      (e, max (needed_beside e.0 previous) (needed_beside e.0 (next_path es)))
      ∷ with_needs (some e.0) es

  abbrev pub row_name : Entry V S × ℕ → Text
  row_name r = display r.0.0 r.1 r.0.1.name

  abbrev pub row_of : Entry V S × ℕ → Text × Text
  row_of r = (full_path_string r.0.1, row_name r)

  -- What a group of variables with the same local name puts into the map
  unfoldable pub group_names : List (VariableRef V S) → List (Text × Text)
  unfolding sort_entries with_needs display full_path_string
  group_names (v ∷ []) = (full_path_string v, v.name) ∷ []
  group_names vars = map row_of (with_needs none (sort_entries (map entry_of vars)))

  abbrev pub push :
      VariableRef V S → List (Text × List (VariableRef V S)) → List (Text × List (VariableRef V S))
  push v [] = (v.name, v ∷ []) ∷ []
  push v (group ∷ groups) =
      let further = push v groups in
      if same_text group.0 v.name then (group.0, group.1 ++ v ∷ []) ∷ groups else group ∷ further

  abbrev pub push_all :
      List (VariableRef V S)
      → List (Text × List (VariableRef V S))
      → List (Text × List (VariableRef V S))
  push_all [] groups = groups
  push_all (v ∷ vars) groups = push_all vars (push v groups)

  abbrev pub names_of_groups : List (Text × List (VariableRef V S)) → List (Text × Text)
  names_of_groups [] = []
  names_of_groups (group ∷ groups) = group_names group.1 ++ names_of_groups groups

  -- What is put into the map, in order; the last of a key counts.
  unfoldable pub compute_minimal_display_map : List (VariableRef V S) → List (Text × Text)
  unfolding group_names
  compute_minimal_display_map vars = names_of_groups (push_all vars [])

  abbrev or_name : VariableRef V S → Option Text → Text
  or_name v none = v.name
  or_name v (some t) = t

  -- The name for display, without what the back end knows of an index
  unfoldable pub display_name : List (Text × Text) → VariableRef V S → VariableNameType → Text
  unfolding full_path_string
  display_name minimal_map v local = v.name
  display_name minimal_map v global = full_path_string v
  display_name minimal_map v unique = or_name v (get minimal_map (full_path_string v))
