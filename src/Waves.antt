-- ===== src/Waves.antt =====
-- libsurfer/src/displayed_item.rs and libsurfer/src/wave_data.rs: the items that are displayed, and
-- the part of WaveData that holds them. The types of the waveform back end and of the drawing code
-- are the fields of Parts.
pub mod Refs
pub mod Consistent
pub mod Insert
pub mod Rows
pub mod Messages
pub mod Sound
pub mod Message
pub mod Marks
pub mod Insertion
pub mod Groups
pub mod Placeholders
pub mod Changes
pub mod Invariant
mod Tests
pub mod State
pub mod History
pub mod Stacks
pub mod Edit
use kahuna.Common.{
  ℕ, ℤ, Bool, true, false, ◌||◌, not, List, [], ◌∷◌, Option, none, some, ◌==◌, if◌then◌else◌,
}
use kahuna.Decoders.{Text, codes}
use kahuna.References.{VariableRef}
use kahuna.Decoders.Roles.{RoleBindings, DecoderSettings}
use kahuna.Tree.{DisplayedItemRef, VisibleItemIndex, Items}

pub record Parts : Type 1 where
  pub VarId : Type 0
  pub ScopeId : Type 0
  pub VariableInfo : Type 0
  pub VariableNameType : Type 0
  pub Scale : Type 0
  pub AnalogSettings : Type 0
  pub AnalogCache : Type 0
  pub StreamRef : Type 0
  pub Drawing : Type 0
  pub AnnotationGroup : Type 0
  pub AnnotationId : Type 0
  pub FocusedTransaction : Type 0
  pub Time : Type 0

pub record FieldFormat : Type 0 where
  pub field : List Text
  pub format : Text

pub record AnalogVarState (P : Parts) : Type 0 where
  pub settings : P.AnalogSettings
  pub cache : Option P.AnalogCache

pub record DisplayedVariable (P : Parts) : Type 0 where
  pub variable_ref : VariableRef P.VarId P.ScopeId
  pub info : P.VariableInfo
  pub color : Option Text
  pub background_color : Option Text
  pub display_name : Text
  pub display_name_type : P.VariableNameType
  pub manual_name : Option Text
  pub format : Option Text
  pub field_formats : List FieldFormat
  pub height_scaling_factor : Option P.Scale
  pub analog : Option (AnalogVarState P)

-- DisplayedDivider and DisplayedTimeLine
pub record Named : Type 0 where
  pub color : Option Text
  pub background_color : Option Text
  pub name : Option Text

pub record DisplayedMarker : Type 0 where
  pub color : Option Text
  pub background_color : Option Text
  pub name : Option Text
  pub idx : ℕ

pub record DisplayedPlaceholder (P : Parts) : Type 0 where
  pub variable_ref : VariableRef P.VarId P.ScopeId
  pub color : Option Text
  pub background_color : Option Text
  pub display_name : Text
  pub display_name_type : P.VariableNameType
  pub manual_name : Option Text
  pub format : Option Text
  pub field_formats : List FieldFormat
  pub height_scaling_factor : Option P.Scale
  pub analog : Option (AnalogVarState P)

pub record DisplayedStream (P : Parts) : Type 0 where
  pub transaction_stream_ref : P.StreamRef
  pub color : Option Text
  pub background_color : Option Text
  pub display_name : Text
  pub manual_name : Option Text
  pub rows : ℕ

pub record DisplayedGroup : Type 0 where
  pub name : Text
  pub color : Option Text
  pub background_color : Option Text
  pub content : List DisplayedItemRef
  pub is_open : Bool

pub record DisplayedDecoder (P : Parts) : Type 0 where
  pub instance_id : ℕ
  pub settings : DecoderSettings
  pub bindings : RoleBindings P.VarId P.ScopeId
  pub lane : ℕ
  pub color : Option Text
  pub background_color : Option Text
  pub display_name : Text
  pub manual_name : Option Text

pub data DisplayedItem (P : Parts) : Type 0 where
  variable : DisplayedVariable P → DisplayedItem P
  divider : Named → DisplayedItem P
  marker : DisplayedMarker → DisplayedItem P
  time_line : Named → DisplayedItem P
  placeholder : DisplayedPlaceholder P → DisplayedItem P
  stream : DisplayedStream P → DisplayedItem P
  group : DisplayedGroup → DisplayedItem P
  decoder : DisplayedDecoder P → DisplayedItem P

-- The items that an arrow or a rectangle hangs on, behind what is drawn.
pub data Annotation (P : Parts) : Type 0 where
  arrow rect : P.Drawing → Option DisplayedItemRef → Option DisplayedItemRef → Annotation P

abbrev pub Map : Type 0 → Type 0
Map A = List (ℕ × A)

-- A hash map with numbers for keys
module _ {A : Type 0} where
  unfoldable pub get : ℕ → Map A → Option A
  get k [] = none
  get k ((j, a) ∷ m) = if j == k then some a else get k m

  unfoldable pub remove : ℕ → Map A → Map A
  remove k [] = []
  remove k ((j, a) ∷ m) = let rest = remove k m in if j == k then rest else (j, a) ∷ rest

  unfoldable pub insert : ℕ → A → Map A → Map A
  unfolding remove
  insert k a m = (k, a) ∷ remove k m

  unfoldable pub map_values : {B : Type 0} → (A → B) → Map A → Map B
  map_values f [] = []
  map_values f ((j, a) ∷ m) = (j, f a) ∷ map_values f m

-- WaveData without the waveform, the viewports and what is drawn
pub record WaveData (P : Parts) : Type 0 where
  pub items_tree : Items
  pub displayed_items : Map (DisplayedItem P)
  pub display_item_ref_counter : ℕ
  pub next_decoder_instance : ℕ
  pub markers : Map P.Time
  pub selected_annotation : Option P.AnnotationId
  pub annotations : List (Annotation P)
  pub annotation_groups : List P.AnnotationGroup
  pub annotation_list_visible : Bool
  pub annotation_counter : ℤ
  pub focused_item : Option VisibleItemIndex
  pub focused_transaction : P.FocusedTransaction

abbrev pub unwrap_or {ℓ} : {A : Type ℓ} → Option A → A → A
unwrap_or none b = b
unwrap_or (some a) b = a

abbrev pub is_ref : DisplayedItemRef → Option DisplayedItemRef → Bool
is_ref r none = false
is_ref r (some s) = s == r

module _ {P : Parts} where
  unfoldable pub name : DisplayedItem P → Text
  name (variable v) = unwrap_or v.manual_name v.display_name
  name (divider d) = unwrap_or d.name []
  name (marker m) = unwrap_or m.name (codes "Marker")
  name (time_line t) = unwrap_or t.name (codes "Time")
  name (placeholder p) = unwrap_or p.manual_name p.display_name
  name (stream s) = unwrap_or s.manual_name s.display_name
  name (group g) = g.name
  name (decoder d) = unwrap_or d.manual_name d.display_name

  abbrev pub without_cache : Option (AnalogVarState P) → Option (AnalogVarState P)
  without_cache none = none
  without_cache (some s) = some (record s { cache = none })

  -- `clone`, which leaves the analog cache out
  unfoldable pub clone : DisplayedItem P → DisplayedItem P
  clone (variable v) = variable (record v { analog = without_cache v.analog })
  clone (divider d) = divider d
  clone (marker m) = marker m
  clone (time_line t) = time_line t
  clone (placeholder p) = placeholder (record p { analog = without_cache p.analog })
  clone (stream s) = stream s
  clone (group g) = group g
  clone (decoder d) = decoder d

  unfoldable pub is_attached : DisplayedItemRef → Annotation P → Bool
  is_attached r (arrow d from to) = is_ref r to
  is_attached r (rect d from to) = is_ref r from || is_ref r to

  abbrev pub is_group : Option (DisplayedItem P) → Bool
  is_group (some (group g)) = true
  is_group (some item) = false
  is_group none = false

  abbrev pub is_placeholder : Option (DisplayedItem P) → Bool
  is_placeholder (some (placeholder p)) = true
  is_placeholder (some item) = false
  is_placeholder none = false
