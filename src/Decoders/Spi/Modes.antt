-- ===== src/Decoders/Spi/Modes.antt =====
-- The SPI mode number and the two flags that it stands for.
use Prim.Native.Nat.{bit_or}
use kahuna.Common.{
  ℕ, ◌*◌, ◌/◌, ◌%◌, ◌≡◌, refl, Bool, true, false, not, ◌==◌, arith, Bool-cases, inl, inr,
}
use kahuna.Decoders.Spi.{SpiSettings, mode, set_mode, bool_bit}

read_back :
    (h l : Bool)
    → (not (bit_or (bool_bit h * 2) (bool_bit l) / 2 % 2 == 0) ≡ h)
      × (not (bit_or (bool_bit h * 2) (bool_bit l) % 2 == 0) ≡ l)
read_back true true = (refl, refl)
read_back true false = (refl, refl)
read_back false true = (refl, refl)
read_back false false = (refl, refl)

low_bits :
    (m : ℕ) → bit_or (bool_bit (not (m / 2 % 2 == 0)) * 2) (bool_bit (not (m % 2 == 0))) ≡ m % 4
low_bits m = elim (Bool-cases (m / 2 % 2 == 0)) [
  | inl h ↦ elim (Bool-cases (m % 2 == 0)) [
    | inl l ↦ rw (h, l) (ground (arith, h, l))
    | inr l ↦ rw (h, l) (ground (arith, h, l))
  ]
  | inr h ↦ elim (Bool-cases (m % 2 == 0)) [
    | inl l ↦ rw (h, l) (ground (arith, h, l))
    | inr l ↦ rw (h, l) (ground (arith, h, l))
  ]
]

-- `set_mode` with the mode of the settings changes nothing, and the mode that is read back after
-- `set_mode` is the low two bits of the number that was set.
pub mode-set_mode :
    (s : SpiSettings) (m : ℕ) → (set_mode s (mode s) ≡ s) × (mode (set_mode s m) ≡ m % 4)
unfolding mode set_mode
mode-set_mode s m =
    let r = read_back s.cpol s.cpha in (λ i. record s { cpol = r.0 i; cpha = r.1 i }, low_bits m)
