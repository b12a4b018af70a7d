-- ===== src/References/Paths.antt =====
-- `VariableRef::eq` and `full_path` in surfer-translation-types/src/variable_ref.rs.
use kahuna.Common.{ℕ, ◌≡◌, refl, sym, ◌&&◌, List, [], ◌∷◌, ◌++◌, arith}
use kahuna.References.{
  VariableRef, map_ids, map_id, full_path, same_text, same_texts, same_scope, same_variable,
}

abbrev Text : Type 0
Text = List ℕ

same_texts-nil :
    (t : Text) (us : List Text) (u : Text)
    → same_texts (t ∷ []) (u ∷ us) ≡ (same_text t u && same_texts [] us)
same_texts-nil t us u = refl

-- The last texts of two lists are compared last.
same_texts-append :
    (ss ts : List Text) (s t : Text)
    → same_texts (ss ++ s ∷ []) (ts ++ t ∷ []) ≡ (same_texts ss ts && same_text s t)
same_texts-append [] [] s t = ground arith
same_texts-append [] (u ∷ []) s t = ground arith
same_texts-append [] (u ∷ v ∷ us) s t = ground arith
same_texts-append (u ∷ []) [] s t = ground arith
same_texts-append (u ∷ v ∷ us) [] s t = ground arith
same_texts-append (u ∷ us) (v ∷ vs) s t = ground (arith, same_texts-append us vs s t)

-- Two variables are the same exactly where their full paths are, whatever their ids and indexes
-- are, and also after their ids have been mapped.
pub same_variable-full_path :
    {V W S T : Type 0} (f : V → W) (g : S → T) (v w : VariableRef V S)
    → (same_variable v w ≡ same_texts (full_path v) (full_path w))
      × (same_variable (map_ids f g v) (map_ids f g w) ≡ same_variable v w)
unfolding same_variable same_scope map_ids map_id full_path
same_variable-full_path f g v w =
    (sym (same_texts-append v.path.strs w.path.strs v.name w.name), refl)
