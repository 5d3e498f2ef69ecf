-- ===== src/Fs/Allocator/Scan.antt =====
-- What the search for a word with free bits passes, and where it ends.
use semper_os.Base.{
  ℕ, zero, suc, ◌+◌, ◌*◌, ◌/◌, ◌%◌, ◌≤◌, ◌<◌, true, false, ◌&&◌, ◌≡◌, inl, inr, subst, arith,
  Bool-cases, compare_cases, lt→ltb, ltb→lt, ltb,
}
use semper_os.Fs.Allocator.{Bits, are_all, is_word_set, skip_words, skip_bits, search}

-- Each bit of a range is set.
abbrev pub AllSet : Bits → (from to : ℕ) → Type 0
AllSet bits from to = (j : ℕ) → from ≤ j → j < to → bits j ≡ true

-- The first bit from `i` on that is not set.
abbrev pub IsFirst : (i p : ℕ) → Bits → Type 0
IsFirst i p bits = (i ≤ p) × (bits p ≡ false) × AllSet bits i p

pub AllSet-next :
    (bits : Bits) (from to : ℕ) → bits from ≡ true → AllSet bits (from + 1) to → AllSet bits from to
AllSet-next bits from to e f j l m = elim (compare_cases from j) [
  | inl q ↦ subst (λ j. bits j ≡ true) q e
  | inr (inl q) ↦ absurd (omega (arith, q, l))
  | inr (inr q) ↦ f j (omega arith) m
]

pub AllSet-join : (bits : Bits) (a b c : ℕ) → AllSet bits a b → AllSet bits b c → AllSet bits a c
AllSet-join bits a b c f g j l m = elim (compare_cases b j) [
  | inl q ↦ g j (omega arith) m
  | inr (inl q) ↦ f j l q
  | inr (inr q) ↦ g j (omega arith) m
]

pub are_all-AllSet :
    (bits : Bits) (from count : ℕ)
    → are_all true bits from count ≡ true
    → AllSet bits from (from + count)
are_all-AllSet bits from zero e j l m = absurd (omega (arith, l, m))
are_all-AllSet bits from (suc count) e j l m =
    let f = are_all-AllSet bits (from + 1) count (ground (arith, e)) in
    AllSet-next bits from (from + suc count) (ground (arith, e)) (λ j l m. f j l (omega arith)) j l
      m

skip_words-AllSet :
    (fuel max i : ℕ) (bits : Bits)
    → i % 32 ≡ 0
    → max % 32 ≡ 0
    → i ≤ max
    → (i ≤ skip_words fuel max i bits)
      × (skip_words fuel max i bits ≤ max)
      × (skip_words fuel max i bits % 32 ≡ 0)
      × AllSet bits i (skip_words fuel max i bits)
unfolding skip_words is_word_set
skip_words-AllSet zero max i bits a b l = (omega arith, l, a, λ j m n. absurd (omega (arith, m, n)))
skip_words-AllSet (suc fuel) max i bits a b l =
    elim (Bool-cases (ltb i max && is_word_set bits i)) [
      | inl q ↦
          let less : i < max = ground (arith, q) in
          let (x, y, z, w) =
            skip_words-AllSet fuel max (i + 32) bits (omega arith) b (omega arith) in
          rw q (
            omega arith,
            y,
            z,
            AllSet-join bits i (i + 32) _
                (subst (λ k. AllSet bits k (k + 32)) {x = i / 32 * 32} {y = i} (omega arith)
                  (are_all-AllSet bits (i / 32 * 32) 32 (ground (arith, q))))
                w,
          )
      | inr q ↦ rw q (omega arith, l, a, λ j m n. absurd (omega (arith, m, n)))
    ]

skip_bits-AllSet :
    (fuel i : ℕ) (bits : Bits)
    → (i ≤ skip_bits fuel i bits)
      × (skip_bits fuel i bits ≤ i + fuel)
      × AllSet bits i (skip_bits fuel i bits)
unfolding skip_bits
skip_bits-AllSet zero i bits = (omega arith, omega arith, λ j m n. absurd (omega (arith, m, n)))
skip_bits-AllSet (suc fuel) i bits = elim (Bool-cases (bits i)) [
  | inl q ↦
      let (x, y, z) = skip_bits-AllSet fuel (i + 1) bits in
      rw q (omega arith, omega arith, AllSet-next bits i _ q z)
  | inr q ↦ rw q (omega arith, omega arith, λ j m n. absurd (omega (arith, m, n)))
]

-- The fuel of `skip_bits` is enough for a word that has a bit that is not set.
skip_bits-enough :
    (fuel i : ℕ) (bits : Bits)
    → are_all true bits i fuel ≡ false
    → bits (skip_bits fuel i bits) ≡ false
unfolding skip_bits
skip_bits-enough zero i bits e = absurd (ground (arith, e))
skip_bits-enough (suc fuel) i bits e = elim (Bool-cases (bits i)) [
  | inl q ↦ rw q (skip_bits-enough fuel (i + 1) bits (ground (arith, e, q)))
  | inr q ↦ rw q q
]

-- The search passes bits only that are set.
pub search-AllSet :
    (max i : ℕ) (bits : Bits)
    → max % 32 ≡ 0
    → i ≤ max
    → (i ≤ search max i bits) × (search max i bits ≤ max) × AllSet bits i (search max i bits)
unfolding search is_word_set
search-AllSet max i bits b l = elim (Bool-cases (ltb i max && is_word_set bits i)) [
  | inr q ↦ rw q (omega arith, l, λ j m n. absurd (omega (arith, m, n)))
  | inl q ↦
      let less : i < max = ground (arith, q) in
      let start : ℕ = (i + 32) / 32 * 32 in
      let (x, y, z, w) = skip_words-AllSet max max start bits (omega arith) b (omega arith) in
      let word : AllSet bits i start = λ j m n.
        are_all-AllSet bits (i / 32 * 32) 32 (ground (arith, q)) j (omega arith) (omega arith) in
      let i' = skip_words max max start bits in
      elim (Bool-cases (ltb i' max)) [
        | inr p ↦ rw (q, p) (omega arith, y, AllSet-join bits i start i' word w)
        | inl p ↦
            let (r, s, t) = skip_bits-AllSet 32 i' bits in
            let below : i' < max = ground (arith, p) in
            rw (q, p)
              (
                omega arith,
                omega arith,
                AllSet-join bits i start _ word (AllSet-join bits start i' _ w t),
              )
      ]
]

skip_words-stops :
    (fuel max i : ℕ) (bits : Bits)
    → max ≤ i + fuel
    → skip_words fuel max i bits < max
    → is_word_set bits (skip_words fuel max i bits) ≡ false
unfolding skip_words
skip_words-stops zero max i bits l m = absurd (omega (arith, l, m))
skip_words-stops (suc fuel) max i bits l m = elim (Bool-cases (ltb i max)) [
  | inr q ↦ absurd (ground (arith, q, m))
  | inl q ↦ elim (Bool-cases (is_word_set bits i)) [
    | inl p ↦
        rw (q, p) (skip_words-stops fuel max (i + 32) bits (omega arith) (ground (arith, m, q, p)))
    | inr p ↦ rw (q, p) p
  ]
]

-- The search ends at a bit that is not set, wherever it moves and does not reach the end. So the
-- loop that looks for that bit, which has no bound of its own, has enough fuel.
search-stops :
    (max i : ℕ) (bits : Bits)
    → max % 32 ≡ 0
    → i < max
    → is_word_set bits i ≡ true
    → search max i bits < max
    → bits (search max i bits) ≡ false
unfolding search is_word_set skip_words
search-stops max i bits b l e m =
    let start : ℕ = (i + 32) / 32 * 32 in
    let i' : ℕ = skip_words max max start bits in
    let (x, y, z, w) = skip_words-AllSet max max start bits (omega arith) b (omega arith) in
    elim (Bool-cases (ltb i' max)) [
      | inr q ↦ absurd (ground (arith, q, m, e, l))
      | inl q ↦
          let stopped : is_word_set bits i' ≡ false =
            skip_words-stops max max start bits (omega arith) (ltb→lt i' max q) in
          rw (lt→ltb i max l, e, q)
            (skip_bits-enough 32 i' bits (
              subst (λ k. are_all true bits k 32 ≡ false) {x = i' / 32 * 32} {y = i'} (omega arith)
                stopped))
    ]
