-- ===== src/Prelude/Words.antt =====
-- 32-bit words as native numbers. An `int` is its bit pattern, below 2 ^ 32: the patterns from
-- 2 ^ 31 on stand for the negative values.
use Prim.Native.Nat.{ℕ, ◌+◌, ◌*◌, ◌/◌, ◌%◌, ◌<◌}
use mathlib.Core.Path.{◌≡◌}
use mathlib.Core.Bool.{Bool}
use mathlib.Core.List.{List, [], ◌∷◌}
use native.Mathlib.Omega.{arith}
use socktestprogram.Prelude.Tests.{leb}

abbrev pub word : ℕ
word = 0x1_0000_0000

abbrev pub int_limit : ℕ
int_limit = 0x8000_0000

abbrev pub add32 : ℕ → ℕ → ℕ
add32 a b = (a + b) % word

abbrev pub mul32 : ℕ → ℕ → ℕ
mul32 a b = (a * b) % word

abbrev pub is_negative : ℕ → Bool
is_negative w = leb int_limit w

-- The byte of weight 256 ^ k.
abbrev pub byte0 : ℕ → ℕ
byte0 w = w % 256

abbrev pub byte1 : ℕ → ℕ
byte1 w = w / 256 % 256

abbrev pub byte2 : ℕ → ℕ
byte2 w = w / 65536 % 256

abbrev pub byte3 : ℕ → ℕ
byte3 w = w / 16777216 % 256

-- The word that four bytes make, the lowest first.
abbrev pub from_bytes : ℕ → ℕ → ℕ → ℕ → ℕ
from_bytes b0 b1 b2 b3 = b0 + 256 * b1 + 65536 * b2 + 16777216 * b3

-- How a little-endian host keeps a word in memory.
abbrev pub word_bytes : ℕ → List ℕ
word_bytes w = byte0 w ∷ byte1 w ∷ byte2 w ∷ byte3 w ∷ []

abbrev pub AreBytes : List ℕ → Type 0
AreBytes [] = Unit
AreBytes (b ∷ bs) = (b < 256) × AreBytes bs

pub from_bytes-of_word : (w : ℕ) → w < word → from_bytes (byte0 w) (byte1 w) (byte2 w) (byte3 w) ≡ w
from_bytes-of_word w h = omega arith

pub from_bytes-lt :
    (a b c d : ℕ) → a < 256 → b < 256 → c < 256 → d < 256 → from_bytes a b c d < word
from_bytes-lt a b c d ha hb hc hd = omega arith
