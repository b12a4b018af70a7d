-- ===== src/Fields/Subinfo.antt =====
-- `get_subinfo` and `has_subpath` of libsurfer/src/translation/mod.rs
use kahuna.Common.{◌≡◌, refl, Bool, true, false, List, [], ◌∷◌, ok, panic}
use kahuna.Decoders.{Text}
use kahuna.Analog.{Checked}
use kahuna.References.{same_text}
use kahuna.Fields.{
  VariableInfo, Subinfos, compound, bits, bool, clock, string_info, real, event, no_subinfo,
  subinfo, get_subinfo, get_in_subfields, has_subpath, has_in_subfields,
}

-- A flag answers whether there is a value.
abbrev pub Answers : Bool → Checked VariableInfo → Type 0
Answers true o = (info : VariableInfo) × (o ≡ ok info)
Answers false o = o ≡ panic

Answers-branches :
    (b c d : Bool) (o p : Checked VariableInfo)
    → Answers c o
    → Answers d p
    → Answers (elim b [ true ↦ c | false ↦ d ]) (elim b [ true ↦ o | false ↦ p ])
Answers-branches true c d o p h k = h
Answers-branches false c d o p h k = k

mutual
  unfolding has_subpath get_subinfo

  has_subpath-Answers :
      (info : VariableInfo) (path : List Text)
      → Answers (has_subpath info path) (get_subinfo info path)
  has_subpath-Answers info [] = (info, refl)
  has_subpath-Answers (compound subfields) (f ∷ rest) = has_in_subfields-Answers subfields f rest
  has_subpath-Answers bits (f ∷ rest) = refl
  has_subpath-Answers bool (f ∷ rest) = refl
  has_subpath-Answers clock (f ∷ rest) = refl
  has_subpath-Answers string_info (f ∷ rest) = refl
  has_subpath-Answers real (f ∷ rest) = refl
  has_subpath-Answers event (f ∷ rest) = refl

  has_in_subfields-Answers :
      (subfields : Subinfos) (f : Text) (rest : List Text)
      → Answers (has_in_subfields subfields f rest) (get_in_subfields subfields f rest)
  has_in_subfields-Answers no_subinfo f rest = refl
  has_in_subfields-Answers (subinfo g info others) f rest =
      Answers-branches (same_text g f) _ _ _ _ (has_subpath-Answers info rest)
        (has_in_subfields-Answers others f rest)

-- has_subpath answers whether get_subinfo finds something at the path; where it says no,
-- get_subinfo panics.
pub has_subpath-get_subinfo :
    (info : VariableInfo) (path : List Text)
    → Answers (has_subpath info path) (get_subinfo info path)
has_subpath-get_subinfo = has_subpath-Answers
