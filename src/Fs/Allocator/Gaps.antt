-- ===== src/Fs/Allocator/Gaps.antt =====
-- The allocation of bits that do not follow each other.
use semper_os.Base.{
  ℕ, zero, suc, ◌+◌, ◌-◌, ◌*◌, ◌/◌, ◌%◌, ◌≤◌, ◌<◌, true, false, ◌≡◌, refl, ◌∙◌, ap, arith, some,
  Bool-cases, inl, inr, leb,
}
use native.Mathlib.Omega.{div_any}
use native.Mathlib.Nat.{mul_comm}
use semper_os.Fs.Allocator.{
  Bits, set_bit, taken, is_word_set, search, align, take_words, take_bits, alloc_block, Allocator,
  put_block, max_of, alloc_blocks, alloc, are_all,
}
use semper_os.Fs.Allocator.Scan.{are_all-AllSet}

-- A bit in use, a free one, and these again.
abbrev pub HasGap : ℕ → Bits → Type 0
HasGap i bits =
    (bits i ≡ true) × (bits (i + 1) ≡ false) × (bits (i + 2) ≡ true) × (bits (i + 3) ≡ false)

-- Both free bits are set.
abbrev pub both_set : ℕ → Bits → Bits
both_set i bits = set_bit (i + 3) (set_bit (i + 1) bits)

search-HasGap :
    (max i : ℕ) (bits : Bits) → i % 32 ≡ 0 → bits (i + 1) ≡ false → search max i bits ≡ i
unfolding search is_word_set
search-HasGap max i bits a e = elim (Bool-cases (are_all true bits (i / 32 * 32) 32)) [
  | inr q ↦ ground (arith, q)
  | inl q ↦
      let f = are_all-AllSet bits (i / 32 * 32) 32 q (i + 1) (omega arith) (omega arith) in
      absurd (ground (arith, e, f))
]

take_bits-enough :
    (fuel max icount i : ℕ) (bits : Bits)
    → take_bits fuel max icount i icount bits ≡ taken bits i icount
unfolding take_bits
take_bits-enough zero max icount i bits = refl
take_bits-enough (suc fuel) max icount i bits = ground arith

take_free :
    (fuel max i j total : ℕ) (bits : Bits)
    → i + 1 ≡ j
    → i < max
    → total < 2
    → bits i ≡ false
    → take_bits (suc fuel) max 2 i total bits ≡ take_bits fuel max 2 j (total + 1) (set_bit i bits)
unfolding take_bits
take_free fuel max i j total bits q l m e = ground (arith, q, l, m, e)

skip_used :
    (fuel max i j total : ℕ) (bits : Bits)
    → i + 1 ≡ j
    → i < max
    → total < 2
    → bits i ≡ true
    → take_bits (suc fuel) max 2 i total bits ≡ take_bits fuel max 2 j total bits
unfolding take_bits
skip_used fuel max i j total bits q l m e = ground (arith, q, l, m, e)

take_bits-HasGap :
    (fuel max i : ℕ) (bits : Bits)
    → i + 4 ≤ max
    → HasGap i bits
    → take_bits (suc (suc (suc (suc fuel)))) max 2 i 0 bits ≡ taken (both_set i bits) (i + 4) 2
take_bits-HasGap fuel max i bits l (a, b, c, d) =
    skip_used (suc (suc (suc fuel))) max i (i + 1) 0 bits (omega arith) (omega arith) (omega arith)
      a
    ∙ take_free (suc (suc fuel)) max (i + 1) (i + 2) 0 bits (omega arith) (omega arith)
        (omega arith) b
    ∙ skip_used (suc fuel) max (i + 2) (i + 3) 1 (set_bit (i + 1) bits) (omega arith) (omega arith)
        (omega arith) (ground (arith, c))
    ∙ take_free fuel max (i + 3) (i + 4) 1 (set_bit (i + 1) bits) (omega arith) (omega arith)
        (omega arith) (ground (arith, d))
    ∙ take_bits-enough fuel max 2 (i + 4) (both_set i bits)

align-here :
    (fuel icount i : ℕ) (bits : Bits) → i % 32 ≡ 0 → align fuel icount i 0 bits ≡ taken bits i 0
unfolding align
align-here zero icount i bits a = refl
align-here (suc fuel) icount i bits a = ground (arith, a)

take_words-two :
    (fuel max i total : ℕ) (bits : Bits) → take_words fuel max 2 i total bits ≡ taken bits i total
unfolding take_words
take_words-two zero max i total bits = refl
take_words-two (suc fuel) max i total bits = ground arith

alloc_block-HasGap :
    (max i : ℕ) (bits : Bits)
    → i % 32 ≡ 0
    → i + 4 ≤ max
    → HasGap i bits
    → alloc_block max 2 i bits ≡ taken (both_set i bits) (i + 4) 2
unfolding alloc_block
alloc_block-HasGap max i bits a l g =
    rw
      (
        search-HasGap max i bits a g.1,
        align-here 32 2 i bits a,
        take_words-two (max + 2) max i 0 bits,
      )
      (ap (λ fuel. take_bits fuel max 2 i 0 bits) {x = max} {y = suc (suc (suc (suc (max - 4))))}
          (omega arith)
        ∙ take_bits-HasGap (max - 4) max i bits l g)

offset :
    (first first_free perblock : ℕ)
    → (first + first_free / perblock - first) * perblock + (first_free % perblock + 4)
      ≡ first_free + 4
offset first first_free perblock =
    ap (λ q. q * perblock + (first_free % perblock + 4)) {x = first + first_free / perblock - first}
      {y = first_free / perblock} (omega arith)
    ∙ omega (arith, div_any first_free perblock, mul_comm (first_free / perblock) perblock)

leb-true : (a b : ℕ) → a ≤ b → leb a b ≡ true
leb-true a b l = ground arith

-- Two bits are wanted where `first_free` is at the start of a word whose first bit is in use, the next
-- one free, then one in use and one free again. The loop for single bits sets both
-- free ones and does not stop at the one between them, and `alloc` gives the two bits before the place
-- where it ended: the first of them was in use, and the other free bit is lost.
pub alloc-HasGap :
    (blocksize : ℕ) (a : Allocator)
    → let perblock = blocksize * 8 in
      let last = a.first + a.blocks - 1 in
      let number = a.first + a.first_free / perblock in
      let i = a.first_free % perblock in
      i % 32 ≡ 0
      → number ≤ last
      → 0 < a.blocks
      → i + 4 ≤ max_of number last a.total perblock
      → HasGap i (a.cache number)
      → 1 < a.free
      → (alloc blocksize 2 a
          ≡ some (
            a.first_free + 2,
            2,
            record a {
              cache = put_block number (both_set i (a.cache number)) a.cache;
              free = a.free - 2;
              first_free = a.first_free + 4;
            },
          ))
        × (a.cache number (i + 2) ≡ true)
unfolding alloc alloc_blocks
alloc-HasGap blocksize a c l b m g f = (result, g.2)
  where
    perblock : ℕ
    perblock = blocksize * 8

    last : ℕ
    last = a.first + a.blocks - 1

    number : ℕ
    number = a.first + a.first_free / perblock

    i : ℕ
    i = a.first_free % perblock

    block :
        alloc_block (max_of number last a.total perblock) 2 i (a.cache number)
        ≡ taken (both_set i (a.cache number)) (i + 4) 2
    block = alloc_block-HasGap (max_of number last a.total perblock) i (a.cache number) c m g

    loop :
        (fuel : ℕ)
        → alloc_blocks (suc fuel) number last a.total perblock 2 i a.cache
          ≡ ((number, i + 4, 2), put_block number (both_set i (a.cache number)) a.cache)
    loop fuel = rw (leb-true number last l, block) refl

    result :
        alloc blocksize 2 a
        ≡ some (
          a.first_free + 2,
          2,
          record a {
            cache = put_block number (both_set i (a.cache number)) a.cache;
            free = a.free - 2;
            first_free = a.first_free + 4;
          },
        )
    result =
        rw
          (
            ap (λ fuel. alloc_blocks fuel number last a.total perblock 2 i a.cache) {x = a.blocks}
                  {y = suc (a.blocks - 1)} (omega arith)
                ∙ loop (a.blocks - 1),
            offset a.first a.first_free perblock,
          )
          (ground (arith, f))
