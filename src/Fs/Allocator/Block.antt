-- ===== src/Fs/Allocator/Block.antt =====
-- The allocation of one bit in a bitmap of several blocks.
use semper_os.Base.{
  ℕ, zero, suc, ◌+◌, ◌%◌, ◌≤◌, ◌<◌, true, false, ◌≡◌, refl, sym, inl, inr, ◌⊎◌, ap, subst, arith,
  Bool-cases, compare_cases, leb, is_equal, leb→le, ◌==◌,
}
use mathlib.Core.Path.{fun_ext}
use semper_os.Fs.Allocator.{Bits, set_bit, put_block, max_of, alloc_blocks}
use semper_os.Fs.Allocator.Scan.{AllSet}
use semper_os.Fs.Allocator.One.{alloc_block-finds}

put_block-same : (number : ℕ) (cache : ℕ → Bits) → put_block number (cache number) cache ≡ cache
put_block-same number cache = fun_ext same
  where
    same : (n : ℕ) → put_block number (cache number) cache n ≡ cache n
    same n = elim (Bool-cases (number == n)) [
      | inl q ↦ rw q (ap cache (is_equal number n q))
      | inr q ↦ rw q refl
    ]

-- What the loop over the blocks yields, from bit `i` of block `number` on: the first bit that is not
-- set is bit `p` of block `m`; or there is none.
module _ (last total perblock : ℕ) where
  -- Bit `j` of block `k` comes from bit `i` of block `number` on.
  abbrev pub IsAfter : (number i k j : ℕ) → Type 0
  IsAfter number i k j =
      (number ≤ k) × (k ≤ last) × (j < max_of k last total perblock) × (number ≡ k → i ≤ j)

  abbrev pub IsFirstFree : (number i m p : ℕ) → (ℕ → Bits) → Type 0
  IsFirstFree number i m p cache =
      IsAfter number i m p
      × (cache m p ≡ false)
      × ((k j : ℕ) → IsAfter number i k j → (k < m) ⊎ ((k ≡ m) × (j < p)) → cache k j ≡ true)

  abbrev pub IsFull : (number i : ℕ) → (ℕ → Bits) → Type 0
  IsFull number i cache = (k j : ℕ) → IsAfter number i k j → cache k j ≡ true

  -- No bit is set: what the loop yields, given what it starts from.
  abbrev pub IsAllocated : (number i : ℕ) → (ℕ → Bits) → (ℕ × ℕ × ℕ) × (ℕ → Bits) → Type 0
  IsAllocated number i cache res =
      ((m : ℕ) × (p : ℕ) × IsFirstFree number i m p cache
        × (res ≡ ((m, p + 1, 1), put_block m (set_bit p (cache m)) cache)))
      ⊎ (IsFull number i cache × ((m : ℕ) × (k : ℕ) × (res ≡ ((m, k, 0), cache))))

  next_or_here :
      (number i k j : ℕ) → IsAfter number i k j → (number ≡ k) ⊎ IsAfter (number + 1) 0 k j
  next_or_here number i k j (a, b, c, d) = elim (compare_cases number k) [
    | inl q ↦ inl q
    | inr (inl q) ↦ absurd (omega (arith, q, a))
    | inr (inr q) ↦ inr (omega arith, b, c, λ e. omega arith)
  ]

  in_block :
      (number i k j : ℕ) (cache : ℕ → Bits)
      → AllSet (cache number) i (max_of number last total perblock)
      → IsAfter number i k j
      → number ≡ k
      → cache k j ≡ true
  in_block number i k j cache f (a, b, c, d) q =
      subst (λ k. (j < max_of k last total perblock) → (i ≤ j) → cache k j ≡ true) q
        (λ l m. f j m l) c (d q)

  later_block :
      (number i : ℕ) (cache : ℕ → Bits) (res : (ℕ × ℕ × ℕ) × (ℕ → Bits))
      → AllSet (cache number) i (max_of number last total perblock)
      → IsAllocated (number + 1) 0 cache res
      → IsAllocated number i cache res
  later_block number i cache res f (inl (m, p, ((a, b, c, d), e, g), q)) =
      inl (m, p, ((omega arith, b, c, λ h. absurd (omega (arith, a, h))), e, before), q)
    where
      before : (k j : ℕ) → IsAfter number i k j → (k < m) ⊎ ((k ≡ m) × (j < p)) → cache k j ≡ true
      before k j x y = elim (next_or_here number i k j x) [
        | inl r ↦ in_block number i k j cache f x r
        | inr z ↦ g k j z y
      ]
  later_block number i cache res f (inr (g, q)) = inr (all, q)
    where
      all : (k j : ℕ) → IsAfter number i k j → cache k j ≡ true
      all k j x = elim (next_or_here number i k j x) [
        | inl r ↦ in_block number i k j cache f x r
        | inr z ↦ g k j z
      ]

  leb-false : (a b : ℕ) → leb a b ≡ false → b < a
  leb-false a b q = ground arith

  no_block : (k number : ℕ) → last < number → number ≤ k → last < k
  no_block k number l m = omega arith

  max_of-aligned :
      (number : ℕ)
      → perblock % 32 ≡ 0
      → total % perblock % 32 ≡ 0
      → max_of number last total perblock % 32 ≡ 0
  max_of-aligned number a b = ground (arith, a, b)

  pub alloc_blocks-finds :
      (fuel number i : ℕ) (cache : ℕ → Bits)
      → perblock % 32 ≡ 0
      → total % perblock % 32 ≡ 0
      → (number ≤ last → i ≤ max_of number last total perblock)
      → last < number + fuel
      → IsAllocated number i cache (alloc_blocks fuel number last total perblock 1 i cache)
  unfolding alloc_blocks
  alloc_blocks-finds zero number i cache a b l m =
      inr ((λ k j (x, y, z, w). absurd (omega (arith, x, y, m))), (number, i, refl))
  alloc_blocks-finds (suc fuel) number i cache a b l m = elim (Bool-cases (leb number last)) [
    | inr q ↦ inr (
      (λ k j (x, y, z, w).
          absurd (omega (arith, y, no_block k number (leb-false number last q) x))),
      (number, i, rw q refl),
    )
    | inl q ↦
        let max = max_of number last total perblock in
        elim (alloc_block-finds max i (cache number) (max_of-aligned number a b)
          (l (leb→le number last q))) [
            | inl (p, (x, y, z), w, e) ↦ inl (
              number,
              p,
              (
                (omega arith, leb→le number last q, w, λ h. x),
                y,
                λ k j (r, s, t, u) v. elim v [
                  | inl v ↦ absurd (omega (arith, r, v))
                  | inr (v, v') ↦ subst (λ k. cache k j ≡ true) (sym v) (z j (u (sym v)) v')
                ],
              ),
              rw (q, e) refl,
            )
            | inr (z, e) ↦ later_block number i cache _ z (
                rw (q, e, put_block-same number cache)
                  (alloc_blocks-finds fuel (number + 1) 0 cache a b (λ h. omega arith)
                    (omega arith)))
          ]
  ]
