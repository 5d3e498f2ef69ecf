-- ===== src/Base/Words.antt =====
-- Arithmetic on 64-bit words: a word is a number below `2 ^ 64`, and sums and differences wrap
-- around.
use Prim.Native.Nat.{ℕ, ◌+◌, ◌-◌, ◌%◌, ◌^◌}

abbrev pub add64 : ℕ → ℕ → ℕ
add64 a b = (a + b) % 2 ^ 64

abbrev pub sub64 : ℕ → ℕ → ℕ
sub64 a b = (a + 2 ^ 64 - b) % 2 ^ 64

-- `-1` as a word.
abbrev pub minus_one64 : ℕ
minus_one64 = 2 ^ 64 - 1
