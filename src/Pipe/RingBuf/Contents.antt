-- ===== src/Pipe/RingBuf/Contents.antt =====
-- The positions that a ring buffer holds, and when a ring buffer is valid.
use semper_os.Base.{
  ℕ, zero, suc, ◌+◌, ◌-◌, ◌%◌, ◌^◌, ◌≤◌, ◌<◌, List, [], ◌∷◌, ◌++◌, leb, if◌then◌else◌, ◌≡◌, refl,
  ap, ◌∙◌, ◌⊎◌, arith, Bool, ◌||◌, ◌&&◌, not, ◌==◌, false, true,
}
use semper_os.Pipe.RingBuf.{RingBuf, dtu_pkg_size}

-- The positions from `p` on, `n` of them.
abbrev pub span : ℕ → ℕ → List ℕ
span p zero = []
span p (suc n) = p ∷ span (suc p) n

-- What is to be read, in order.
abbrev pub contents : RingBuf → List ℕ
contents b =
    if leb b.rdpos b.wrpos
    then span b.rdpos (b.wrpos - b.rdpos)
    else span b.rdpos (b.last - b.rdpos) ++ span 0 b.wrpos

-- The writer is ahead of the reader, or it went round and has not caught up.
abbrev pub IsValid : RingBuf → Type 0
IsValid b =
    (b.size % dtu_pkg_size ≡ 0)
    × (b.size < 2 ^ 64)
    × (((b.rdpos ≤ b.wrpos) × (b.wrpos ≤ b.size) × (b.last ≡ 0))
        ⊎ ((0 < b.wrpos) × (b.wrpos < b.rdpos) × (b.rdpos ≤ b.last) × (b.last ≤ b.size)))

abbrev pub holds : ℕ → List ℕ → Bool
holds x [] = false
holds x (y ∷ ys) = x == y || holds x ys

pub span_split : (p m n : ℕ) → span p (m + n) ≡ span p m ++ span (p + m) n
span_split p zero n = ground arith
span_split p (suc m) n = step ∙ ap (λ xs. p ∷ xs) (span_split (suc p) m n) ∙ shift
  where
    step : span p (suc m + n) ≡ p ∷ span (suc p) (m + n)
    step = ap (span p) {y = suc (m + n)} (omega arith)

    shift : p ∷ (span (suc p) m ++ span (suc p + m) n) ≡ p ∷ (span (suc p) m ++ span (p + suc m) n)
    shift = ap (λ k. p ∷ (span (suc p) m ++ span k n)) {y = p + suc m} (omega arith)

pub span_join : (p q e : ℕ) → p ≤ q → q ≤ e → span p (e - p) ≡ span p (q - p) ++ span q (e - q)
span_join p q e h g = ground (arith, span_split p (q - p) (e - q))

pub holds-span : (x p n : ℕ) → (x < p) ⊎ (p + n ≤ x) → holds x (span p n) ≡ false
holds-span x p zero h = refl
holds-span x p (suc n) h = ground (arith, holds-span x (suc p) n)

pub holds-append : (x : ℕ) (xs ys : List ℕ) → holds x (xs ++ ys) ≡ holds x xs || holds x ys
holds-append x [] ys = refl
holds-append x (y ∷ xs) ys = ground (arith, holds-append x xs ys)

-- No position stands in both lists.
abbrev pub disjoint : List ℕ → List ℕ → Bool
disjoint [] ys = true
disjoint (x ∷ xs) ys = not (holds x ys) && disjoint xs ys

pub disjoint-span :
    (p n : ℕ) (ys : List ℕ)
    → ((x : ℕ) → p ≤ x → x < p + n → holds x ys ≡ false)
    → disjoint (span p n) ys ≡ true
disjoint-span p zero ys h = refl
disjoint-span p (suc n) ys h = ground (
  arith,
  h p (omega arith) (omega arith),
  disjoint-span (suc p) n ys (λ x l g. h x (omega arith) (omega arith)),
)
