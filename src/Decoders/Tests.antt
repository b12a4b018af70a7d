-- ===== src/Decoders/Tests.antt =====
-- The theorems on the decoders at concrete traces.
use mathlib.Core.List.{Memᴰ}
use kahuna.Common.{
  List, ◌≤◌, ℕ, ◌≡◌, refl, true, false, [], ◌∷◌, ◌++◌, Option, none, some, get_elem?, arith,
}
use kahuna.Decoders.{
  DecodedWord, codes, Bit, one, BitLane, partition_point, value_at, data_word, digit_char,
  digits_onto, digits_of, zero_padded, format, hex, decimal, binary,
}
use kahuna.Decoders.Lanes.{value_at-latest}
use kahuna.Decoders.Formats.{read, read-format}
use kahuna.Decoders.Spi.{default_spi, selected_at, decode_one, stretch}
use kahuna.Decoders.Spi.Groups.{groups}
use kahuna.Decoders.Spi.Words.{decode_one-groups}
use kahuna.Decoders.I2c.{default_i2c, start_event, stop_event, quiet, token, run}
use kahuna.Decoders.I2c.Transactions.{Byte, transfer, run_transaction}
use kahuna.Decoders.Uart.{UartSettings, even, default_uart, frame_word, decode_edges}
use kahuna.Decoders.Uart.Frames.{frame_word-Sent}
use kahuna.Decoders.Uart.Line.{Apart, IsFrame, Starts, Covered, decode_edges-frames}
use kahuna.References.{VariableRef}
use kahuna.Decoders.Protocols.{spi}
use kahuna.Decoders.Roles.{RoleBindings, guess, for_protocol, decode_lanes, lane_names}
use kahuna.Decoders.Roles.Guess.{tally_bound, tally_bound-guess}
use kahuna.Decoders.Roles.Rows.{names, decode_lanes-lane_names}

-- The line is 0 up to 4, and then 1.
abbrev rises : BitLane
rises = record { changes = (0, Bit.zero) ∷ (5, one) ∷ [] }

value_at-latest_example : value_at rises 6 ≡ some one
value_at-latest_example = value_at-latest rises 6 (omega arith, (omega arith, tt))

read-format_example :
    (read 16 (format hex 165 8) ≡ 165)
    × (read 10 (format decimal 165 8) ≡ 165)
    × (read 2 (format binary 165 8) ≡ 165)
read-format_example = read-format 165 8

-- Two bits, 0 and 1, of which the first is the most significant one.
decode_one-groups_example :
    decode_one default_spi rises none (1 ∷ 6 ∷ []) 2
    ≡ record { start = 1; end = 6; text = codes "1"; kind = data_word } ∷ []
unfolding groups selected_at value_at partition_point stretch format zero_padded digits_of
    digits_onto digit_char
decode_one-groups_example =
    decode_one-groups default_spi rises none (1 ∷ 6 ∷ []) 2 (omega arith) (omega arith)

-- The address 0x50 with the direction "write", acknowledged.
abbrev address_byte : Byte
address_byte = record {
  time = 10;
  first = one;
  others =
      (12, Bit.zero)
      ∷ (14, one)
      ∷ (16, Bit.zero)
      ∷ (18, Bit.zero)
      ∷ (20, Bit.zero)
      ∷ (22, Bit.zero)
      ∷ (24, Bit.zero)
      ∷ [];
  ack_time = 26;
  ack = Bit.zero;
}

run_transaction_example :
    (run default_i2c 2
      ((5, start_event) ∷ transfer (address_byte ∷ []) ++ (40, stop_event) ∷ [])
      quiet).words
    ≡ token 2 5 (codes "S") data_word
      ∷ record { start = 10; end = 24; text = codes "50 W"; kind = data_word }
      ∷ token 2 26 (codes "A") data_word
      ∷ token 2 40 (codes "P") data_word
      ∷ []
unfolding format zero_padded digits_of digits_onto digit_char
run_transaction_example = run_transaction default_i2c 2 5 40 (address_byte ∷ []) quiet (refl, tt)

abbrev with_parity : UartSettings
with_parity = record default_uart { parity = even }

-- "A" with its parity bit on a line that idles high.
abbrev letter : ℕ → Option Bit
letter = get_elem? (
    Bit.zero ∷ one ∷ Bit.zero ∷ Bit.zero ∷ Bit.zero ∷ Bit.zero ∷ Bit.zero ∷ one ∷ Bit.zero
    ∷ Bit.zero ∷ one ∷ [])

frame_word-Sent_example :
    frame_word with_parity 4 100 letter
    ≡ record { start = 100; end = 144; text = codes "'A'"; kind = data_word }
unfolding format
frame_word-Sent_example =
    frame_word-Sent with_parity 4 100 letter
      (true ∷ false ∷ false ∷ false ∷ false ∷ false ∷ true ∷ false ∷ []) false
      record {
        size = refl;
        bits_on_line = (refl, (refl, (refl, (refl, (refl, (refl, (refl, (refl, tt))))))));
        parity_on_line = refl;
        parity_fits = refl;
        stops = (refl, tt);
      }

decode_edges-frames_example :
    ((w : DecodedWord)
      → Memᴰ w (decode_edges default_uart rises 2 0 (1 ∷ 3 ∷ 9 ∷ []))
      → IsFrame default_uart rises 2 (1 ∷ 3 ∷ 9 ∷ []) w)
    × Apart 0 (decode_edges default_uart rises 2 0 (1 ∷ 3 ∷ 9 ∷ []))
    × ((t : ℕ)
        → Memᴰ t (1 ∷ 3 ∷ 9 ∷ [])
        → Starts default_uart rises 2 t
        → 0 ≤ t
        → Covered t (decode_edges default_uart rises 2 0 (1 ∷ 3 ∷ 9 ∷ [])))
decode_edges-frames_example =
    decode_edges-frames default_uart rises 2 0 0 (1 ∷ 3 ∷ 9 ∷ [])
      (omega arith, (omega arith, (omega arith, tt)))

abbrev signal : List ℕ → VariableRef ℕ ℕ
signal n = record { path = record { strs = []; id = 0 }; name = n; id = 0; index = none }

abbrev pins : List (VariableRef ℕ ℕ)
pins = signal (codes "SCK") ∷ signal (codes "spi_mosi") ∷ []

tally_bound-guess_example : tally_bound (λ v. true) (guess spi pins).signals ≤ 2
tally_bound-guess_example = tally_bound-guess (λ v. true) spi pins

decode_lanes-lane_names_example :
    names (decode_lanes (for_protocol spi) (some rises ∷ [])) ≡ codes "MOSI" ∷ codes "MISO" ∷ []
unfolding for_protocol lane_names
decode_lanes-lane_names_example = decode_lanes-lane_names (for_protocol spi) (some rises ∷ [])

abbrev both : RoleBindings ℕ ℕ
both = record { signals = some (signal (codes "a")) ∷ some (signal (codes "b")) ∷ [] }
