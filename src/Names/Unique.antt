-- ===== src/Names/Unique.antt =====
-- The names of a group of variables are unique: `compute_minimal_display_map` of
-- libsurfer/src/variable_name_type.rs.
use mathlib.Core.List.{reverse, append_cancel_right}
use kahuna.Common.{ℕ, ◌≡◌, ◌≢◌, sym, ap, ◌∙◌, List, [], ◌∷◌, ◌++◌, map, take, none}
use kahuna.Decoders.{Text}
use kahuna.References.{VariableRef}
use kahuna.Names.{display, Entry, entry_of, sort_entries, with_needs, row_name, row_of, group_names}
use kahuna.Names.Sorted.{Each, Pairs, Each-map, Differ, sort_entries-Each, sort_entries-Follows}
use kahuna.Names.Labels.{
  IsPlain, IsComponent, parts, without_ellipsis, display-parts, reverse-injective, Each-reverse,
}
use kahuna.Names.Needs.{Apart, with_needs-Apart, with_needs-Each}

module _ {V S : Type 0} (name : Text) (plain : IsPlain name) where
  abbrev Fits : Entry V S → Type 0
  Fits e = (e.1.name ≡ name) × Each IsComponent e.0

  -- Equal names show the same components.
  names-Apart :
      (r s : Entry V S × ℕ) → Fits r.0 → Fits s.0 → Apart r s → (row_of r).1 ≢ (row_of s).1
  names-Apart r s h k apart e =
      let er : row_name r ≡ display r.0.0 r.1 name = ap (display r.0.0 r.1) h.0 in
      let es : row_name s ≡ display s.0.0 s.1 name = ap (display s.0.0 s.1) k.0 in
      let shown : reverse (take r.1 r.0.0) ++ parts name ≡ reverse (take s.1 s.0.0) ++ parts name =
        sym (display-parts r.0.0 r.1 name h.1 plain)
        ∙ ap (λ (t : Text). parts (without_ellipsis t)) (sym er ∙ e ∙ es)
        ∙ display-parts s.0.0 s.1 name k.1 plain in
      apart (
        reverse-injective (take r.1 r.0.0) (take s.1 s.0.0) (
          append_cancel_right (reverse (take r.1 r.0.0)) (reverse (take s.1 s.0.0)) (parts name)
            shown))

  Each-Apart :
      (r : Entry V S × ℕ) (rows : List (Entry V S × ℕ))
      → Fits r.0
      → Each (λ (s : Entry V S × ℕ). Fits s.0) rows
      → Each (Apart r) rows
      → Each (λ (t : Text × Text). (row_of r).1 ≢ t.1) (map row_of rows)
  Each-Apart r [] h k apart = tt
  Each-Apart r (s ∷ rows) h k apart =
      (names-Apart r s h k.0 apart.0, Each-Apart r rows h k.1 apart.1)

  result-Apart :
      (rows : List (Entry V S × ℕ))
      → Each (λ (s : Entry V S × ℕ). Fits s.0) rows
      → Pairs Apart rows
      → Pairs (λ (t u : Text × Text). t.1 ≢ u.1) (map row_of rows)
  result-Apart [] h apart = tt
  result-Apart (r ∷ rows) h apart =
      (Each-Apart r rows h.0 h.1 apart.0, result-Apart rows h.1 apart.1)

  -- A variable of the group, of whose scope every component can be told from the others
  abbrev pub IsMember : VariableRef V S → Type 0
  IsMember v = (v.name ≡ name) × Each IsComponent v.path.strs

  abbrev pub Elsewhere : VariableRef V S → VariableRef V S → Type 0
  Elsewhere v w = v.path.strs ≢ w.path.strs

  entries-Differ :
      (vars : List (VariableRef V S)) → Pairs Elsewhere vars → Pairs Differ (map entry_of vars)
  entries-Differ [] h = tt
  entries-Differ (v ∷ vars) h = (
    Each-map (Differ (entry_of v)) (Elsewhere v) entry_of
        (λ w d e. d (reverse-injective v.path.strs w.path.strs e)) vars h.0,
    entries-Differ vars h.1,
  )

  entries-Apart :
      (vars : List (VariableRef V S))
      → Each IsMember vars
      → Pairs Elsewhere vars
      → Pairs
          (λ (t u : Text × Text). t.1 ≢ u.1)
          (map row_of (with_needs none (sort_entries (map entry_of vars))))
  entries-Apart vars members elsewhere =
      let fits =
        Each-map Fits IsMember entry_of
          (λ v m. (m.0, Each-reverse IsComponent v.path.strs [] m.1 tt)) vars members in
      let es = sort_entries (map entry_of vars) in
      result-Apart (with_needs none es)
        (with_needs-Each Fits none es (sort_entries-Each Fits (map entry_of vars) fits))
        (with_needs-Apart none es
          (sort_entries-Follows (map entry_of vars) (entries-Differ vars elsewhere)))

  -- In a group of variables with the same local name, in scopes that all differ, no two get the same
  -- name for display. The name has no point and no ellipsis, nor has a component of a scope, which
  -- is not empty either.
  pub group_names_unique :
      (vars : List (VariableRef V S))
      → Each IsMember vars
      → Pairs Elsewhere vars
      → Pairs (λ (t u : Text × Text). t.1 ≢ u.1) (group_names vars)
  unfolding group_names
  group_names_unique [] members elsewhere = tt
  group_names_unique (v ∷ []) members elsewhere = (tt, tt)
  group_names_unique (v ∷ w ∷ vars) members elsewhere =
      entries-Apart (v ∷ w ∷ vars) members elsewhere
