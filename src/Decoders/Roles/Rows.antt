-- ===== src/Decoders/Roles/Rows.antt =====
-- The rows of a decoder and their names, in libsurfer/src/decoders/mod.rs.
use kahuna.Common.{ℕ, ◌≡◌, refl, List, map, Option, inl, inr, Option-cases}
use kahuna.Decoders.{BitLane, DecodedLane, lane_of}
use kahuna.Decoders.Spi
use kahuna.Decoders.I2c
use kahuna.Decoders.Uart
use kahuna.Decoders.Roles.{
  DecoderSettings, spi_decoder, i2c_decoder, uart_decoder, decode_lanes, lane_names,
}

abbrev pub names : List DecodedLane → List (List ℕ)
names = map (λ (l : DecodedLane). l.name)

spi-names :
    (s : Spi.SpiSettings) (lanes : List (Option BitLane))
    → names (Spi.decode s lanes) ≡ lane_names (spi_decoder s)
unfolding Spi.decode lane_names
spi-names s lanes = elim (Option-cases (lane_of lanes Spi.sclk)) [
  | inl e ↦ rw (Spi.decode, e) refl
  | inr (c, e) ↦ rw (Spi.decode, e) refl
]

i2c-names :
    (s : I2c.I2cSettings) (lanes : List (Option BitLane))
    → names (I2c.decode s lanes) ≡ lane_names (i2c_decoder s)
unfolding I2c.decode lane_names
i2c-names s lanes = elim (Option-cases (lane_of lanes I2c.scl)) [
  | inl e ↦ rw (I2c.decode, e) refl
  | inr (c, e) ↦ elim (Option-cases (lane_of lanes I2c.sda)) [
    | inl f ↦ rw (I2c.decode, e, f) refl
    | inr (d, f) ↦ rw (I2c.decode, e, f) refl
  ]
]

uart-names :
    (s : Uart.UartSettings) (lanes : List (Option BitLane))
    → names (Uart.decode s lanes) ≡ lane_names (uart_decoder s)
unfolding Uart.decode lane_names
uart-names s lanes = elim (Option-cases (lane_of lanes Uart.line_role)) [
  | inl e ↦ rw (Uart.decode, e) refl
  | inr (c, e) ↦ rw (Uart.decode, e) refl
]

-- Whatever the lanes are, the rows that a decoder puts out have the names that are laid out before
-- there is any data, in their order, with a row for each name.
pub decode_lanes-lane_names :
    (s : DecoderSettings) (lanes : List (Option BitLane))
    → names (decode_lanes s lanes) ≡ lane_names s
unfolding decode_lanes
decode_lanes-lane_names (spi_decoder s) lanes = spi-names s lanes
decode_lanes-lane_names (i2c_decoder s) lanes = i2c-names s lanes
decode_lanes-lane_names (uart_decoder s) lanes = uart-names s lanes
