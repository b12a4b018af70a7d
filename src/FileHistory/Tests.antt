-- ===== src/FileHistory/Tests.antt =====
-- Runs of the file history, and the theorem at a concrete one.
use mathlib.Core.List.{Memᴰ}
use kahuna.References.{same_texts}
use kahuna.Common.{Bool, false, ◌<◌, ◌≡◌, refl, [], ◌∷◌, some, get_elem?, arith}
use kahuna.Decoders.{Text, codes}
use kahuna.FileHistory.{
  FileHistory, is_connection_entry, add, disambiguated_labels, nonempty, segments, split_onto,
  label_for_depth, group, unique_depth,
}
use kahuna.FileHistory.Recent.{IsValid, add-IsValid}

-- Paths are equal by their components.
abbrev by_components : Text → Text → Bool
by_components p q = same_texts (nonempty (split_onto [] p)) (nonempty (split_onto [] q))

abbrev two_files : FileHistory
two_files = record { files = codes "b.vcd" ∷ codes "a.vcd" ∷ []; max_entries = 3 }

add-again :
    (add by_components
      (codes "b//x.vcd")
      record { files = codes "a.vcd" ∷ codes "b/x.vcd" ∷ []; max_entries = 3 }).files
    ≡ codes "b//x.vcd" ∷ codes "a.vcd" ∷ []
unfolding add split_onto
add-again = refl

-- `disambiguates_duplicate_file_names` of the source's tests
disambiguated_labels-duplicates :
    disambiguated_labels
      (codes "C:/work/a/top.vcd" ∷ codes "C:/work/b/top.vcd" ∷ codes "C:/work/c/other.vcd" ∷ [])
    ≡ codes "a/top.vcd" ∷ codes "b/top.vcd" ∷ codes "other.vcd" ∷ []
unfolding disambiguated_labels segments split_onto label_for_depth group unique_depth
disambiguated_labels-duplicates = refl

two_files-IsValid : IsValid by_components two_files
unfolding split_onto
two_files-IsValid = record { bounded = omega arith; distinct = ((refl, tt), (tt, tt)) }

add-IsValid_example :
    IsValid by_components (add by_components (codes "c.vcd") two_files)
    × (get_elem? (add by_components (codes "c.vcd") two_files).files 0 ≡ some (codes "c.vcd"))
    × ((p : Text)
        → Memᴰ p two_files.files
        → by_components p (codes "c.vcd") ≡ false
        → 2 < 3
        → Memᴰ p (add by_components (codes "c.vcd") two_files).files)
unfolding is_connection_entry
add-IsValid_example = add-IsValid by_components (codes "c.vcd") two_files two_files-IsValid
