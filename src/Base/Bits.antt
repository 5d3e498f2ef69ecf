-- ===== src/Base/Bits.antt =====
-- `|` on numbers at variables: it acts on quotients and remainders by a power of two, and is a sum
-- where the operands are disjoint fields.
use Prim.Native.Nat.{
  ℕ, zero, suc, ◌+◌, ◌*◌, ◌/◌, ◌%◌, ◌^◌, ◌≤◌, ◌<◌, max, bit_or, digits, bit_or-bitwise,
}
use mathlib.Core.Path.{◌≡◌, refl, ap}
use native.Mathlib.Omega.{arith}
use native.Mathlib.Nat.{pow-suc, one-le-pow}

-- The digit recursion that `|` stands for.
abbrev or_digits : ℕ → ℕ → ℕ → ℕ
or_digits fuel a b = digits (λ b. b) max fuel a b

or_digits_more : (f g a b : ℕ) → a ≤ f → a ≤ g → or_digits f a b ≡ or_digits g a b
or_digits_more zero zero a b p q = refl
or_digits_more zero (suc g) zero b p q = refl
or_digits_more zero (suc g) (suc a) b p q = absurd (omega arith)
or_digits_more (suc f) zero zero b p q = refl
or_digits_more (suc f) zero (suc a) b p q = absurd (omega arith)
or_digits_more (suc f) (suc g) zero b p q = refl
or_digits_more (suc f) (suc g) (suc a) b p q =
    omega (arith, or_digits_more f g (suc a / 2) (b / 2) (omega arith) (omega arith))

bit_or-digit : (a b : ℕ) → bit_or a b ≡ bit_or (a / 2) (b / 2) * 2 + max (a % 2) (b % 2)
bit_or-digit zero b = omega (arith, bit_or-bitwise 0 b, bit_or-bitwise 0 (b / 2))
bit_or-digit (suc a) b = omega (
  arith,
  bit_or-bitwise (suc a) b,
  bit_or-bitwise (suc a / 2) (b / 2),
  or_digits_more a (suc a / 2) (suc a / 2) (b / 2) (omega arith) (omega arith),
)

pub zero-bit_or : (b : ℕ) → bit_or 0 b ≡ b
zero-bit_or b = bit_or-bitwise 0 b

bit_or-zero_below : (n a : ℕ) → a ≤ n → bit_or a 0 ≡ a
bit_or-zero_below n zero h = zero-bit_or 0
bit_or-zero_below zero (suc a) h = absurd (omega arith)
bit_or-zero_below (suc n) (suc a) h =
    omega (arith, bit_or-digit (suc a) 0, bit_or-zero_below n (suc a / 2) (omega arith))

pub bit_or-zero : (a : ℕ) → bit_or a 0 ≡ a
bit_or-zero a = bit_or-zero_below a a (omega arith)

double_pow : (q k : ℕ) → q * 2 ^ suc k ≡ q * 2 ^ k + q * 2 ^ k
double_pow q k = omega (arith, ap (λ (t : ℕ). q * t) (pow-suc 2 k))

-- A number is taken apart at bit `k`.
pub bit_or_split :
    (k a b c d : ℕ)
    → b < 2 ^ k
    → d < 2 ^ k
    → bit_or (a * 2 ^ k + b) (c * 2 ^ k + d) ≡ bit_or a c * 2 ^ k + bit_or b d
bit_or_split zero a b c d h g = ground (arith, zero-bit_or d)
bit_or_split (suc k) a b c d h g = ground (
  arith,
  bit_or-digit (a * 2 ^ suc k + b) (c * 2 ^ suc k + d),
  bit_or-digit b d,
  double_pow a k,
  double_pow c k,
  double_pow (bit_or a c) k,
  pow-suc 2 k,
  bit_or_split k a (b / 2) c (d / 2),
)

two_pow_pos : (k : ℕ) → 0 < 2 ^ k
two_pow_pos k = omega (arith, one-le-pow k 2)

-- `(q << k) | r` is a sum if `r` fits `k` bits.
pub bit_or_disjoint : (k q r : ℕ) → r < 2 ^ k → bit_or (q * 2 ^ k) r ≡ q * 2 ^ k + r
bit_or_disjoint k q r h =
    ground (arith, two_pow_pos k, bit_or_split k q 0 0 r, bit_or-zero q, zero-bit_or r)

-- `x | (ones << k)` where `ones` stands at bit `k` and above: what is below `k` stays.
pub bit_or_mask :
    (k x ones : ℕ) → bit_or x (ones * 2 ^ k) ≡ bit_or (x / 2 ^ k) ones * 2 ^ k + x % 2 ^ k
bit_or_mask k x ones =
    ground
      (arith, two_pow_pos k, bit_or_split k (x / 2 ^ k) (x % 2 ^ k) ones 0, bit_or-zero (x % 2 ^ k))

-- `|` with three ones sets the three lowest bits and leaves the others.
pub bit_or_seven : (x : ℕ) → bit_or x 7 ≡ x / 8 * 8 + 7
bit_or_seven x = ground (
  arith,
  bit_or-digit x 7,
  bit_or-digit (x / 2) 3,
  bit_or-digit (x / 2 / 2) 1,
  bit_or-zero (x / 2 / 2 / 2),
)

pub bit_or_one : (x : ℕ) → bit_or x 1 ≡ x / 2 * 2 + 1
bit_or_one x = ground (arith, bit_or-digit x 1, bit_or-zero (x / 2))
