-- ===== src/Decoders/Uart/Line.antt =====
-- The loop over the start edges in libsurfer/src/decoders/uart.rs.
use mathlib.Core.List.{Memᴰ}
use mathlib.Core.List.Memᴰ
use kahuna.Common.{
  ℕ, ◌≤◌, ◌<◌, ◌≡◌, ◌⊎◌, refl, sym, ◌∙◌, true, List, [], ◌∷◌, ltb, arith, Bool-cases, inl, inr,
}
use kahuna.Decoders.{BitLane, is_bit, DecodedWord}
use kahuna.Decoders.Uart.{UartSettings, start, samples, frame_word, decode_edges}

-- The edges of a line, in order
abbrev pub Rising : ℕ → List ℕ → Type 0
Rising from [] = Unit
Rising from (t ∷ ts) = (from ≤ t) × Rising t ts

Rising-later : (from t : ℕ) (ts : List ℕ) → Rising from ts → Memᴰ t ts → from ≤ t
Rising-later from t [] r m = absurd (Memᴰ.not-nil m)
Rising-later from t (u ∷ ts) r (Memᴰ.head e) = omega (arith, e, r.0)
Rising-later from t (u ∷ ts) r (Memᴰ.tail m) = omega (arith, r.0, Rising-later u t ts r.1 m)

-- Each word starts where the one before it ends, or later.
abbrev pub Apart : ℕ → List DecodedWord → Type 0
Apart free [] = Unit
Apart free (w ∷ ws) = (free ≤ w.start) × Apart w.end ws

-- A time is the start of a word, or lies between its start and its end.
abbrev pub Covered : ℕ → List DecodedWord → Type 0
Covered t ws = (w : DecodedWord) × Memᴰ w ws × (w.start ≤ t) × ((t ≡ w.start) ⊎ (t < w.end))

module _ (s : UartSettings) (line : BitLane) (period : ℕ) where
  -- The line has the level of a start bit at the centre of the bit that the edge begins.
  abbrev pub Starts : ℕ → Type 0
  Starts t = is_bit (samples line t period 0) (start s) ≡ true

  -- The word of a frame whose start bit begins at one of the edges
  abbrev pub IsFrame : List ℕ → DecodedWord → Type 0
  IsFrame ts w =
      (t : ℕ) × Memᴰ t ts × Starts t × (w ≡ frame_word s period t (samples line t period))

  record Framed (free : ℕ) (ts : List ℕ) (ws : List DecodedWord) : Type 0 where
    frames : (w : DecodedWord) → Memᴰ w ws → IsFrame ts w
    apart : Apart free ws
    complete : (t : ℕ) → Memᴰ t ts → Starts t → free ≤ t → Covered t ws

  later-IsFrame : {t : ℕ} {ts : List ℕ} {w : DecodedWord} → IsFrame ts w → IsFrame (t ∷ ts) w
  later-IsFrame (u, m, h, e) = (u, Memᴰ.tail m, h, e)

  later-Covered :
      {t : ℕ} {w : DecodedWord} {ws : List DecodedWord} → Covered t ws → Covered t (w ∷ ws)
  later-Covered (v, m, h, c) = (v, Memᴰ.tail m, h, c)

  -- An edge that starts no frame
  skipped-Framed :
      (free t : ℕ) (ts : List ℕ) (ws : List DecodedWord)
      → (Starts t → free ≤ t → ⊥)
      → Framed free ts ws
      → Framed free (t ∷ ts) ws
  skipped-Framed free t ts ws starts_none r = record {
    frames = λ w m. later-IsFrame (r.frames w m);
    apart = r.apart;
    complete = complete_at;
  }
    where
      complete_at : (u : ℕ) → Memᴰ u (t ∷ ts) → Starts u → free ≤ u → Covered u ws
      complete_at u (Memᴰ.head e) h k = absurd (starts_none (rw (← e) h) (omega (arith, e, k)))
      complete_at u (Memᴰ.tail m) h k = r.complete u m h k

  -- An edge that starts a frame
  put-Framed :
      (free t : ℕ) (ts : List ℕ) (ws : List DecodedWord) (w : DecodedWord)
      → w ≡ frame_word s period t (samples line t period)
      → w.start ≡ t
      → Starts t
      → free ≤ t
      → Rising t ts
      → Framed w.end ts ws
      → Framed free (t ∷ ts) (w ∷ ws)
  put-Framed free t ts ws w word begin on late rising r = record {
    frames = frame_at;
    apart = (omega (arith, late, begin), r.apart);
    complete = complete_at;
  }
    where
      frame_at : (v : DecodedWord) → Memᴰ v (w ∷ ws) → IsFrame (t ∷ ts) v
      frame_at v (Memᴰ.head e) = (t, Memᴰ.head refl, on, e ∙ word)
      frame_at v (Memᴰ.tail m) = later-IsFrame (r.frames v m)

      complete_at : (u : ℕ) → Memᴰ u (t ∷ ts) → Starts u → free ≤ u → Covered u (w ∷ ws)
      complete_at u (Memᴰ.head e) h k =
          (w, Memᴰ.head refl, omega (arith, e, begin), inl (e ∙ sym begin))
      complete_at u (Memᴰ.tail m) h k = elim (Bool-cases (ltb u w.end)) [
        | inl inside ↦
            let after = Rising-later t u ts rising m in
            (w, Memᴰ.head refl, omega (arith, after, begin), inr (ground (arith, inside)))
        | inr behind ↦ later-Covered (r.complete u m h (ground (arith, behind)))
      ]

  decode_edges-Framed :
      (free from : ℕ) (ts : List ℕ)
      → Rising from ts
      → Framed free ts (decode_edges s line period free ts)
  unfolding decode_edges frame_word
  decode_edges-Framed free from [] rising = record {
    frames = λ w m. absurd (Memᴰ.not-nil m);
    apart = tt;
    complete = λ t m h k. absurd (Memᴰ.not-nil m);
  }
  decode_edges-Framed free from (t ∷ ts) rising = elim (Bool-cases (ltb t free)) [
    | inl early ↦ rw early (
        skipped-Framed free t ts _ (λ h k. ground (arith, early, k))
          (decode_edges-Framed free t ts rising.1))
    | inr late ↦ elim (Bool-cases (is_bit (samples line t period 0) (start s))) [
      | inl on ↦
          let w = frame_word s period t (samples line t period) in
          rw (late, on)
            (put-Framed free t ts _ w refl refl on (ground (arith, late)) rising.1
              (decode_edges-Framed w.end t ts rising.1))
      | inr off ↦
          rw (late, off)
            (skipped-Framed free t ts _ (λ h k. absurd (cc (sym h ∙ off)))
              (decode_edges-Framed free t ts rising.1))
    ]
  ]

  -- Every word of a line is that of a frame at one of its edges whose bit has the level of a start
  -- bit at its centre, and no word starts before the end of the one in front of it. No such edge is
  -- missed: each that is not before `free` starts a word or lies within one. The edges are in order.
  pub decode_edges-frames :
      (free from : ℕ) (ts : List ℕ)
      → Rising from ts
      → ((w : DecodedWord) → Memᴰ w (decode_edges s line period free ts) → IsFrame ts w)
        × Apart free (decode_edges s line period free ts)
        × ((t : ℕ)
            → Memᴰ t ts
            → Starts t
            → free ≤ t
            → Covered t (decode_edges s line period free ts))
  decode_edges-frames free from ts rising =
      let r = decode_edges-Framed free from ts rising in (r.frames, r.apart, r.complete)
