-- ===== src/Decoders/Roles.antt =====
-- libsurfer/src/decoders/mod.rs: the roles of a protocol and the signals bound to them, and the
-- dispatch on the protocol.
pub mod Guess
pub mod Fit
pub mod Rows
use kahuna.Common.{
  ℕ, zero, suc, ◌+◌, ◌-◌, Bool, true, false, not, ◌&&◌, ◌||◌, List, [], ◌∷◌, ◌++◌, map, Option,
  none, some, ltb, leb, ◌==◌, if◌then◌else◌, length, get_elem?, take, replicate,
}
use kahuna.References.{VariableRef}
use kahuna.Decoders.{Text, codes, BitLane, DecodedLane}
use kahuna.Decoders.Protocols.{Protocol, spi, i2c, uart, Role, roles}
use kahuna.Decoders.Spi
use kahuna.Decoders.I2c
use kahuna.Decoders.Uart

-- `to_ascii_lowercase`
abbrev pub lower_case : ℕ → ℕ
lower_case c = if leb b'A' c && leb c b'Z' then c + 32 else c

abbrev pub is_prefix : Text → Text → Bool
is_prefix [] t = true
is_prefix (c ∷ cs) [] = false
is_prefix (c ∷ cs) (d ∷ ds) = (c == d) && is_prefix cs ds

-- `str::contains`
unfoldable pub contains : Text → Text → Bool
contains [] alias = is_prefix alias []
contains (c ∷ cs) alias = is_prefix alias (c ∷ cs) || contains cs alias

abbrev pub Alias : Type 0
Alias = ℕ × Text

-- The aliases of the roles from the `i`-th on, each with the index of its role.
unfoldable pub aliases_from : ℕ → List Role → List Alias
aliases_from i [] = []
aliases_from i (r ∷ rs) = map (λ (a : Text). (i, a)) r.aliases ++ aliases_from (i + 1) rs

-- `sort_by_key(|(_, a)| Reverse(a.len()))`, which is stable.
abbrev pub insert_alias : Alias → List Alias → List Alias
insert_alias a [] = a ∷ []
insert_alias a (b ∷ bs) =
    if leb (length b.1) (length a.1) then a ∷ b ∷ bs else b ∷ insert_alias a bs

unfoldable pub longest_first : List Alias → List Alias
longest_first [] = []
longest_first (a ∷ rest) = insert_alias a (longest_first rest)

abbrev pub is_some {ℓ} : {A : Type ℓ} → Option A → Bool
is_some none = false
is_some (some a) = true

-- `signals[idx].is_some()`, where an index out of range does not occur.
abbrev pub is_bound {ℓ} : {A : Type ℓ} → List (Option A) → ℕ → Bool
is_bound [] idx = false
is_bound (s ∷ ss) zero = is_some s
is_bound (s ∷ ss) (suc idx) = is_bound ss idx

abbrev pub bind_at {ℓ} : {A : Type ℓ} → ℕ → A → List (Option A) → List (Option A)
bind_at idx a [] = []
bind_at zero a (s ∷ ss) = some a ∷ ss
bind_at (suc idx) a (s ∷ ss) = s ∷ bind_at idx a ss

-- A candidate and whether it is taken.
abbrev pub Candidate : Type 0 → Type 0 → Type 0
Candidate V S = VariableRef V S × Bool

-- The bindings and the candidates.
abbrev pub Guess : Type 0 → Type 0 → Type 0
Guess V S = List (Option (VariableRef V S)) × List (Candidate V S)

module _ {V S : Type 0} where
  abbrev pub fits : Text → VariableRef V S → Bool
  fits alias v = contains (map lower_case v.name) alias

  abbrev pub after_other :
      Candidate V S
      → Option (VariableRef V S × List (Candidate V S))
      → Option (VariableRef V S × List (Candidate V S))
  after_other c none = none
  after_other c (some (v, cs)) = some (v, c ∷ cs)

  -- The loop over the candidates: the first free one that fits is taken.
  unfoldable pub claim :
      Text → List (Candidate V S) → Option (VariableRef V S × List (Candidate V S))
  claim alias [] = none
  claim alias ((v, taken) ∷ cs) =
      let later = after_other (v, taken) (claim alias cs) in
      if not taken && fits alias v then some (v, (v, true) ∷ cs) else later

  abbrev pub bound_to : ℕ → Guess V S → Option (VariableRef V S × List (Candidate V S)) → Guess V S
  bound_to idx g none = g
  bound_to idx g (some (v, cs)) = (bind_at idx v g.0, cs)

  -- A round of the loop over the aliases.
  unfoldable pub bind_alias : Alias → Guess V S → Guess V S
  bind_alias (idx, alias) g = if is_bound g.0 idx then g else bound_to idx g (claim alias g.1)

  unfoldable pub bind_all : List Alias → Guess V S → Guess V S
  bind_all [] g = g
  bind_all (a ∷ rest) g = bind_all rest (bind_alias a g)

pub record RoleBindings (V S : Type 0) : Type 0 where
  pub signals : List (Option (VariableRef V S))

unfoldable pub guess : {V S : Type 0} → Protocol → List (VariableRef V S) → RoleBindings V S
guess {V} {S} protocol candidates =
    let rs = roles protocol in
    let free = map (λ (v : VariableRef V S). (v, false)) candidates in
    let nothing = replicate (length rs) none in
    record { signals = (bind_all (longest_first (aliases_from 0 rs)) (nothing, free)).0 }

unfoldable pub get : {V S : Type 0} → RoleBindings V S → ℕ → Option (VariableRef V S)
get {V} {S} b idx = elim (get_elem? b.signals idx) [ none ↦ none | some s ↦ s ]

abbrev pub missing_from : {V S : Type 0} → RoleBindings V S → ℕ → List Role → List Text
missing_from b i [] = []
missing_from b i (r ∷ rs) =
    let rest = missing_from b (i + 1) rs in
    if r.required && not (is_some (get b i)) then r.name ∷ rest else rest

unfoldable pub missing : {V S : Type 0} → RoleBindings V S → Protocol → List Text
missing b protocol = missing_from b 0 (roles protocol)

-- `Vec::resize` with `None`
unfoldable pub fit_to : {V S : Type 0} → RoleBindings V S → Protocol → RoleBindings V S
fit_to b protocol =
    let n = length (roles protocol) in
    record { signals = take n b.signals ++ replicate (n - length b.signals) none }

pub data DecoderSettings : Type 0 where
  spi_decoder : Spi.SpiSettings → DecoderSettings
  i2c_decoder : I2c.I2cSettings → DecoderSettings
  uart_decoder : Uart.UartSettings → DecoderSettings

unfoldable pub for_protocol : Protocol → DecoderSettings
for_protocol spi = spi_decoder Spi.default_spi
for_protocol i2c = i2c_decoder I2c.default_i2c
for_protocol uart = uart_decoder Uart.default_uart

unfoldable pub protocol_of : DecoderSettings → Protocol
protocol_of (spi_decoder s) = spi
protocol_of (i2c_decoder s) = i2c
protocol_of (uart_decoder s) = uart

unfoldable pub decode_lanes : DecoderSettings → List (Option BitLane) → List DecodedLane
decode_lanes (spi_decoder s) lanes = Spi.decode s lanes
decode_lanes (i2c_decoder s) lanes = I2c.decode s lanes
decode_lanes (uart_decoder s) lanes = Uart.decode s lanes

unfoldable pub lane_names : DecoderSettings → List Text
lane_names (spi_decoder s) = codes "MOSI" ∷ codes "MISO" ∷ []
lane_names (i2c_decoder s) = codes "Bus" ∷ []
lane_names (uart_decoder s) = codes "Data" ∷ []
