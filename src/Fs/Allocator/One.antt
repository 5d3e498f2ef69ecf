-- ===== src/Fs/Allocator/One.antt =====
-- The allocation of one bit.
use semper_os.Base.{
  ℕ, zero, suc, ◌+◌, ◌%◌, ◌≤◌, ◌<◌, true, ◌≡◌, refl, sym, ◌∙◌, inl, inr, ◌⊎◌, ap, subst, arith,
  Bool-cases, ltb, ◌==◌,
}
use semper_os.Fs.Allocator.{
  Bits, set_bit, Progress, taken, search, align, take_words, take_bits, take_more, alloc_block,
}
use semper_os.Fs.Allocator.Scan.{AllSet, IsFirst, AllSet-next, AllSet-join, search-AllSet}

-- A loop from `i` on took the first bit that is not set, below `max`.
abbrev pub IsFound : (max i : ℕ) → Bits → Progress → Type 0
IsFound max i bits t =
    (p : ℕ) × IsFirst i p bits × (p < max) × (t ≡ taken (set_bit p bits) (p + 1) 1)

-- It passed set bits only.
abbrev pub IsPassed : (max i : ℕ) → Bits → Progress → Type 0
IsPassed max i bits t = (k : ℕ) × (i ≤ k) × (k ≤ max) × AllSet bits i k × (t ≡ taken bits k 0)

none_yet : (bits : Bits) (i : ℕ) → AllSet bits i i
none_yet bits i j l m = absurd (omega (arith, l, m))

IsFound-later :
    (max i : ℕ) (bits : Bits) (t : Progress)
    → bits i ≡ true
    → IsFound max (i + 1) bits t
    → IsFound max i bits t
IsFound-later max i bits t e (p, (l, f, a), m, q) =
    (p, (omega arith, f, AllSet-next bits i p e a), m, q)

IsPassed-later :
    (max i : ℕ) (bits : Bits) (t : Progress)
    → bits i ≡ true
    → IsPassed max (i + 1) bits t
    → IsPassed max i bits t
IsPassed-later max i bits t e (k, l, m, a, q) = (k, omega arith, m, AllSet-next bits i k e a, q)

IsFound-behind :
    (max i k : ℕ) (bits : Bits) (t : Progress)
    → i ≤ k
    → AllSet bits i k
    → IsFound max k bits t
    → IsFound max i bits t
IsFound-behind max i k bits t l a (p, (m, f, b), n, q) =
    (p, (omega arith, f, AllSet-join bits i k p a b), n, q)

IsPassed-behind :
    (max i k : ℕ) (bits : Bits) (t : Progress)
    → i ≤ k
    → AllSet bits i k
    → IsPassed max k bits t
    → IsPassed max i bits t
IsPassed-behind max i k bits t l a (j, m, n, b, q) =
    (j, omega arith, n, AllSet-join bits i k j a b, q)

-- With one bit taken, no loop goes on.
align-taken : (fuel i : ℕ) (bits : Bits) → align fuel 1 i 1 bits ≡ taken bits i 1
unfolding align
align-taken zero i bits = refl
align-taken (suc fuel) i bits = ground arith

take_words-one :
    (fuel max i total : ℕ) (bits : Bits) → take_words fuel max 1 i total bits ≡ taken bits i total
unfolding take_words
take_words-one zero max i total bits = refl
take_words-one (suc fuel) max i total bits = ground arith

take_bits-taken : (fuel max i : ℕ) (bits : Bits) → take_bits fuel max 1 i 1 bits ≡ taken bits i 1
unfolding take_bits
take_bits-taken zero max i bits = refl
take_bits-taken (suc fuel) max i bits = ground arith

take_more-taken : (fuel max i : ℕ) (bits : Bits) → take_more fuel max 1 i 1 bits ≡ taken bits i 1
unfolding take_more
take_more-taken zero max i bits = refl
take_more-taken (suc fuel) max i bits = ground arith

align-finds :
    (fuel max i : ℕ) (bits : Bits)
    → max % 32 ≡ 0
    → i ≤ max
    → IsFound max i bits (align fuel 1 i 0 bits) ⊎ IsPassed max i bits (align fuel 1 i 0 bits)
unfolding align
align-finds zero max i bits b l = inr (i, omega arith, l, none_yet bits i, refl)
align-finds (suc fuel) max i bits b l = elim (Bool-cases (i % 32 == 0)) [
  | inl q ↦ inr (i, omega arith, l, none_yet bits i, ground (arith, q))
  | inr q ↦ elim (Bool-cases (bits i)) [
    | inr f ↦ inl (
      i,
      (omega arith, f, none_yet bits i),
      ground (arith, q),
      ground (arith, q, f, align-taken fuel (i + 1) (set_bit i bits)),
    )
    | inl f ↦
        let same : align (suc fuel) 1 i 0 bits ≡ align fuel 1 (i + 1) 0 bits =
          ground (arith, q, f) in
        elim (align-finds fuel max (i + 1) bits b (ground (arith, q))) [
          | inl x ↦ inl (subst (IsFound max i bits) (sym same) (IsFound-later max i bits _ f x))
          | inr x ↦ inr (subst (IsPassed max i bits) (sym same) (IsPassed-later max i bits _ f x))
        ]
  ]
]

take_bits-finds :
    (fuel max i : ℕ) (bits : Bits)
    → i ≤ max
    → max ≤ i + fuel
    → IsFound max i bits (take_bits fuel max 1 i 0 bits)
      ⊎ (AllSet bits i max × (take_bits fuel max 1 i 0 bits ≡ taken bits max 0))
unfolding take_bits
take_bits-finds zero max i bits l m =
    inr ((λ j n o. absurd (omega (arith, n, o, m))), ap (λ k. taken bits k 0) (omega arith))
take_bits-finds (suc fuel) max i bits l m = elim (Bool-cases (ltb i max)) [
  | inr q ↦ inr ((λ j n o. absurd (ground (arith, q, n, o))), ground (arith, q))
  | inl q ↦ elim (Bool-cases (bits i)) [
    | inr f ↦ inl (
      i,
      (omega arith, f, none_yet bits i),
      ground (arith, q),
      ground (arith, q, f, take_bits-taken fuel max (i + 1) (set_bit i bits)),
    )
    | inl f ↦
        let same : take_bits (suc fuel) max 1 i 0 bits ≡ take_bits fuel max 1 (i + 1) 0 bits =
          ground (arith, q, f) in
        elim (take_bits-finds fuel max (i + 1) bits (ground (arith, q)) (omega arith)) [
          | inl x ↦ inl (subst (IsFound max i bits) (sym same) (IsFound-later max i bits _ f x))
          | inr (a, e) ↦ inr (AllSet-next bits i max f a, same ∙ e)
        ]
  ]
]

-- With the first bit taken by the walk, the other loops leave it.
pub alloc_block-finds :
    (max i : ℕ) (bits : Bits)
    → max % 32 ≡ 0
    → i ≤ max
    → IsFound max i bits (alloc_block max 1 i bits)
      ⊎ (AllSet bits i max × (alloc_block max 1 i bits ≡ taken bits max 0))
unfolding alloc_block
alloc_block-finds max i bits b l =
    let (x, y, z) = search-AllSet max i bits b l in
    let s = search max i bits in
    elim (align-finds 32 max s bits b y) [
      | inl (p, f, m, q) ↦ inl (
          IsFound-behind max i s bits _ x z (
            p,
            f,
            m,
            rw (q, take_words-one (max + 1) max (p + 1) 1 (set_bit p bits))
                (take_more-taken max max (p + 1) (set_bit p bits)),
          ))
      | inr (k, m, n, a, q) ↦
          let same : alloc_block max 1 i bits ≡ take_bits max max 1 k 0 bits =
            rw (q, take_words-one (max + 1) max k 0 bits) refl in
          let before = AllSet-join bits i s k z a in
          elim (take_bits-finds max max k bits n (omega arith)) [
            | inl w ↦ inl (
                subst (IsFound max i bits) (sym same)
                  (IsFound-behind max i k bits _ (omega arith) before w))
            | inr (w, e) ↦ inr (AllSet-join bits i k max before w, same ∙ e)
          ]
    ]
