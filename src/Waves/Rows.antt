-- ===== src/Waves/Rows.antt =====
-- The changes of a displayed item in libsurfer/src/displayed_item.rs, and those of decoder rows in
-- libsurfer/src/wave_data.rs.
use kahuna.Common.{
  ℕ, ◌+◌, Bool, true, false, List, [], ◌∷◌, ◌++◌, Option, none, some, ltb, ◌==◌, if◌then◌else◌,
  get_elem?, ok, ◌>>=◌,
}
use kahuna.Decoders.{Text, codes}
use kahuna.References.{VariableRef, same_variable}
use kahuna.Decoders.Protocols.{Protocol, spi, i2c, uart}
use kahuna.Decoders.Roles.{
  RoleBindings, DecoderSettings, guess, for_protocol, protocol_of, lane_names,
}
use kahuna.Tree.{DisplayedItemRef, Node, Items, TargetPosition, Fallible}
use kahuna.Waves.{
  Parts, WaveData, DisplayedItem, variable, divider, marker, time_line, placeholder, stream, group,
  decoder, get, map_values, unwrap_or,
}
use kahuna.Waves.Edit.{insert_item}

-- `Display` of a protocol
abbrev pub protocol_name : Protocol → Text
protocol_name spi = codes "SPI"
protocol_name i2c = codes "I2C"
protocol_name uart = codes "UART"

-- The generated name of a row, or the old one where the protocol has no such row
abbrev pub lane_title : DecoderSettings → ℕ → Text → Text
lane_title settings lane old = elim (get_elem? (lane_names settings) lane) [
  | none ↦ old
  | some name ↦ protocol_name (protocol_of settings) ++ b' ' ∷ name
]

abbrev pub contains : List DisplayedItemRef → DisplayedItemRef → Bool
contains [] r = false
contains (i ∷ is) r = if i == r then true else contains is r

-- `dedup_by`: an element that equals the last one that stays goes.
unfoldable pub dedup_from :
    {V S : Type 0} → VariableRef V S → List (VariableRef V S) → List (VariableRef V S)
dedup_from last [] = []
dedup_from last (v ∷ vs) =
    let kept = v ∷ dedup_from v vs in
    let gone = dedup_from last vs in if same_variable v last then gone else kept

abbrev pub dedup : {V S : Type 0} → List (VariableRef V S) → List (VariableRef V S)
dedup [] = []
dedup (v ∷ vs) = v ∷ dedup_from v vs

module _ {P : Parts} where
  unfoldable pub set_color : Option Text → DisplayedItem P → DisplayedItem P
  set_color c (variable v) = variable (record v { color = c })
  set_color c (divider d) = divider (record d { color = c })
  set_color c (marker m) = marker (record m { color = c })
  set_color c (time_line t) = time_line (record t { color = c })
  set_color c (placeholder p) = placeholder (record p { color = c })
  set_color c (stream s) = stream (record s { color = c })
  set_color c (group g) = group (record g { color = c })
  set_color c (decoder d) = decoder (record d { color = c })

  unfoldable pub set_background_color : Option Text → DisplayedItem P → DisplayedItem P
  set_background_color c (variable v) = variable (record v { background_color = c })
  set_background_color c (divider d) = divider (record d { background_color = c })
  set_background_color c (marker m) = marker (record m { background_color = c })
  set_background_color c (time_line t) = time_line (record t { background_color = c })
  set_background_color c (placeholder p) = placeholder (record p { background_color = c })
  set_background_color c (stream s) = stream (record s { background_color = c })
  set_background_color c (group g) = group (record g { background_color = c })
  set_background_color c (decoder d) = decoder (record d { background_color = c })

  unfoldable pub set_name : Option Text → DisplayedItem P → DisplayedItem P
  set_name n (variable v) = variable (record v { manual_name = n })
  set_name n (divider d) = divider (record d { name = n })
  set_name n (marker m) = marker (record m { name = n })
  set_name n (time_line t) = time_line (record t { name = n })
  set_name n (placeholder p) = placeholder (record p { manual_name = n })
  set_name n (stream s) = stream (record s { manual_name = n })
  set_name n (group g) = group (record g { name = unwrap_or n [] })
  set_name n (decoder d) = decoder (record d { manual_name = n })

  abbrev pub configured :
      ℕ → DecoderSettings → RoleBindings P.VarId P.ScopeId → DisplayedItem P → DisplayedItem P
  configured instance_id settings bindings (decoder d) =
      if d.instance_id == instance_id
      then decoder (record d {
        settings = settings;
        bindings = bindings;
        display_name = lane_title settings d.lane d.display_name;
      })
      else decoder d
  configured instance_id settings bindings item = item

  unfoldable pub configure_decoder :
      ℕ → DecoderSettings → RoleBindings P.VarId P.ScopeId → WaveData P → WaveData P
  configure_decoder instance_id settings bindings w = record w {
    displayed_items = map_values (configured instance_id settings bindings) w.displayed_items;
  }

  -- The loop over the lanes from the last on: the names of the lanes from the `lane`-th on, the last
  -- of which is inserted first.
  unfoldable pub add_lanes :
      Protocol
      → DecoderSettings
      → RoleBindings P.VarId P.ScopeId
      → ℕ
      → Option TargetPosition
      → ℕ
      → List Text
      → WaveData P
      → Fallible (WaveData P)
  unfolding insert_item
  add_lanes protocol settings bindings instance_id target lane [] w = ok w
  add_lanes protocol settings bindings instance_id target lane (name ∷ names) w = do
    later ← add_lanes protocol settings bindings instance_id target (lane + 1) names w
    r ←
        insert_item
          (decoder (record {
            instance_id = instance_id;
            settings = settings;
            bindings = bindings;
            lane = lane;
            color = none;
            background_color = none;
            display_name = protocol_name protocol ++ b' ' ∷ name;
            manual_name = none;
          }))
          target (lane == 0) later
    ok r.1

  unfoldable pub add_decoder :
      Protocol
      → List (VariableRef P.VarId P.ScopeId)
      → Option TargetPosition
      → WaveData P
      → Fallible (ℕ × WaveData P)
  unfolding add_lanes guess
  add_decoder protocol signals target w = do
    let settings = for_protocol protocol
    w' ←
        add_lanes protocol settings (guess protocol signals) w.next_decoder_instance target 0
          (lane_names settings) (record w { next_decoder_instance = w.next_decoder_instance + 1 })
    ok (w.next_decoder_instance, w')

  abbrev pub variable_of : Option (DisplayedItem P) → List (VariableRef P.VarId P.ScopeId)
  variable_of (some (variable v)) = v.variable_ref ∷ []
  variable_of (some item) = []
  variable_of none = []

  abbrev pub variable_at : WaveData P → Node → List (VariableRef P.VarId P.ScopeId)
  variable_at w n = variable_of (get n.item_ref w.displayed_items)

  -- `take_while(|n| n.level > level)` and the variables among the nodes
  unfoldable pub descendants : WaveData P → ℕ → Items → List (VariableRef P.VarId P.ScopeId)
  descendants w level [] = []
  descendants w level (n ∷ ns) =
      let more = variable_at w n ++ descendants w level ns in if ltb level n.level then more else []

  abbrev pub signals_at :
      WaveData P → Node → Items → Option (DisplayedItem P) → List (VariableRef P.VarId P.ScopeId)
  signals_at w n ns (some (group g)) = descendants w n.level ns
  signals_at w n ns other = variable_of other

  unfoldable pub signals_from :
      WaveData P → List DisplayedItemRef → Items → List (VariableRef P.VarId P.ScopeId)
  unfolding descendants
  signals_from w items [] = []
  signals_from w items (n ∷ ns) =
      let rest = signals_from w items ns in
      if contains items n.item_ref
      then signals_at w n ns (get n.item_ref w.displayed_items) ++ rest
      else rest

  unfoldable pub signals_of :
      List DisplayedItemRef → WaveData P → List (VariableRef P.VarId P.ScopeId)
  unfolding signals_from dedup_from
  signals_of items w = dedup (signals_from w items w.items_tree)
