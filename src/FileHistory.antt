-- ===== src/FileHistory.antt =====
-- libsurfer/src/file_history.rs: the files opened last, and their labels in the menu. The equality of
-- two `Utf8PathBuf` is that of the library's components, and an argument.
pub mod Recent
mod Tests
use kahuna.Common.{
  ℕ, zero, suc, ◌+◌, ◌-◌, Bool, true, false, not, ◌&&◌, ◌||◌, List, [], ◌∷◌, ◌++◌, map, Option,
  none, some, ltb, leb, ◌==◌, if◌then◌else◌, length, take, drop,
}
use kahuna.References.{same_text}
use kahuna.Decoders.{Text, codes}
use kahuna.Decoders.Roles.{is_prefix}

pub record FileHistory : Type 0 where
  pub files : List Text
  pub max_entries : ℕ

unfoldable pub truncate_to_limit : FileHistory → FileHistory
truncate_to_limit h = record h { files = take h.max_entries h.files }

-- `stored` is what the file on disk holds, if it can be read.
unfoldable pub load : ℕ → Option (List Text) → FileHistory
load max_entries none = truncate_to_limit record { files = []; max_entries = max_entries }
load max_entries (some stored) =
    truncate_to_limit record { files = stored; max_entries = max_entries }

unfoldable pub is_connection_entry : Text → Bool
is_connection_entry path =
    is_prefix (codes "http://") path
    || is_prefix (codes "https://") path
    || is_prefix (codes "ws://") path
    || is_prefix (codes "wss://") path
    || is_prefix (codes "cxxrtl+tcp://") path

module _ (same_path : Text → Text → Bool) where
  -- `retain(|path| path != file)`
  unfoldable pub retain_others : Text → List Text → List Text
  retain_others file [] = []
  retain_others file (p ∷ ps) =
      let rest = retain_others file ps in if same_path p file then rest else p ∷ rest

  -- `add`, without the copy on disk.
  unfoldable pub add : Text → FileHistory → FileHistory
  unfolding retain_others truncate_to_limit is_connection_entry
  add file h =
      if h.max_entries == 0 || is_connection_entry file
      then h
      else truncate_to_limit (record h { files = file ∷ retain_others file h.files })

abbrev pub is_separator : ℕ → Bool
is_separator c = c == b'/' || c == 92

-- `split(['/', '\\'])` behind the segment in progress
unfoldable pub split_onto : Text → Text → List Text
split_onto segment [] = segment ∷ []
split_onto segment (c ∷ cs) =
    let ended = segment ∷ split_onto [] cs in
    let longer = split_onto (segment ++ c ∷ []) cs in if is_separator c then ended else longer

abbrev pub nonempty : List Text → List Text
nonempty [] = []
nonempty ([] ∷ ts) = nonempty ts
nonempty ((c ∷ cs) ∷ ts) = (c ∷ cs) ∷ nonempty ts

unfoldable pub segments : Text → List Text
segments path = nonempty (split_onto [] path)

abbrev pub last : List Text → Option Text
last [] = none
last (t ∷ []) = some t
last (t ∷ u ∷ us) = last (u ∷ us)

-- `join("/")`
abbrev pub joined : List Text → Text
joined [] = []
joined (t ∷ []) = t
joined (t ∷ u ∷ us) = t ++ (b'/' ∷ joined (u ∷ us))

unfoldable pub label_for_depth : List Text → ℕ → Text
label_for_depth parts depth = joined (drop (length parts - depth) parts)

abbrev pub is_named : Text → Option Text → Bool
is_named name none = false
is_named name (some t) = same_text t name

-- The segments of the paths that end in `name`.
unfoldable pub group : Text → List Text → List (List Text)
group name [] = []
group name (p ∷ ps) =
    let rest = group name ps in
    if is_named name (last (segments p)) then segments p ∷ rest else rest

abbrev pub longest : List (List Text) → ℕ
longest [] = 0
longest (g ∷ gs) = let m = longest gs in if ltb m (length g) then length g else m

abbrev pub has : Text → List Text → Bool
has t [] = false
has t (u ∷ us) = same_text u t || has t us

-- Whether each candidate is new where it is inserted.
abbrev pub all_new : List Text → List Text → Bool
all_new seen [] = true
all_new seen (t ∷ ts) = not (has t seen) && all_new (t ∷ seen) ts

-- The loop over the depths: `left` of them from `depth` on.
unfoldable pub unique_depth : List (List Text) → ℕ → ℕ → Option ℕ
unique_depth g zero depth = none
unique_depth g (suc left) depth =
    let deeper = unique_depth g left (depth + 1) in
    if all_new [] (map (λ parts. label_for_depth parts depth) g) then some depth else deeper

abbrev pub label_at : Text → Option ℕ → Text
label_at path none = path
label_at path (some depth) = label_for_depth (segments path) depth

-- The label of one path. The groups share no path, so their order does not matter.
abbrev pub label_named : List Text → Text → Option Text → Text
label_named paths path none = codes "<unknown>"
label_named paths path (some name) =
    let g = group name paths in
    if leb (length g) 1 then name else label_at path (unique_depth g (longest g - 1) 2)

unfoldable pub disambiguated_labels : List Text → List Text
disambiguated_labels paths = map (λ path. label_named paths path (last (segments path))) paths
