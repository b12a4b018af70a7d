-- ===== src/Common/Texts.antt =====
-- Texts, as lists of the codes of their characters.
use Prim.Native.Nat.{ℕ}
use mathlib.Core.Bool.{Bool, true, false, ◌&&◌, ◌||◌}
use mathlib.Core.List.{List, [], ◌∷◌}
use kahuna.Common.Tests.{leb, ◌==◌, if◌then◌else◌}

-- `char::is_whitespace`
abbrev pub is_whitespace : ℕ → Bool
is_whitespace c =
    (leb 9 c && leb c 13)
    || c == 32
    || c == 133
    || c == 160
    || c == 5760
    || (leb 8192 c && leb c 8202)
    || c == 8232
    || c == 8233
    || c == 8239
    || c == 8287
    || c == 12288

-- `char::is_ascii_digit`
abbrev pub is_digit : ℕ → Bool
is_digit c = leb 48 c && leb c 57

abbrev pub is_empty : List ℕ → Bool
is_empty [] = true
is_empty (c ∷ cs) = false

-- Whether all characters pass a test.
abbrev pub all_of : (ℕ → Bool) → List ℕ → Bool
all_of test [] = true
all_of test (c ∷ cs) = test c && all_of test cs

abbrev pub trim_start : List ℕ → List ℕ
trim_start [] = []
trim_start (c ∷ cs) = let trimmed = trim_start cs in if is_whitespace c then trimmed else c ∷ cs

-- Without the last characters that pass a test.
abbrev pub trim_end_matches : (ℕ → Bool) → List ℕ → List ℕ
trim_end_matches test [] = []
trim_end_matches test (c ∷ cs) =
    let rest = trim_end_matches test cs in if is_empty rest && test c then [] else c ∷ rest

-- `str::trim`
abbrev pub trim : List ℕ → List ℕ
trim cs = trim_end_matches is_whitespace (trim_start cs)
