-- ===== src/Fs/Allocator.antt =====
-- `Allocator::alloc` of apps/m3fs/Allocator.cc on the `Bitmap` of include/fs/internal.h. A bitmap is
-- known by its bits, which its words of 32 bits hold in order. Numbers of
-- bits and blocks do not wrap: they are below 2 ^ 31. A loop that has no bound of its own runs on fuel.
pub mod Scan
pub mod One
pub mod Block
pub mod Alloc
pub mod Gaps
use semper_os.Base.{
  ℕ, zero, suc, ◌+◌, ◌-◌, ◌*◌, ◌/◌, ◌%◌, Bool, true, false, not, ◌&&◌, ◌||◌, Option, none, some,
  ltb, leb, ◌==◌, if◌then◌else◌, sub64,
}

abbrev pub Bits : Type 0
Bits = ℕ → Bool

abbrev pub are_all : Bool → Bits → (from count : ℕ) → Bool
are_all b bits from zero = true
are_all true bits from (suc count) = bits from && are_all true bits (from + 1) count
are_all false bits from (suc count) = not (bits from) && are_all false bits (from + 1) count

-- `WORD_BITS` is 32.
unfoldable pub is_word_set : Bits → ℕ → Bool
is_word_set bits bit = are_all true bits (bit / 32 * 32) 32

unfoldable pub is_word_free : Bits → ℕ → Bool
is_word_free bits bit = are_all false bits (bit / 32 * 32) 32

abbrev pub set_bit : ℕ → Bits → Bits
set_bit bit bits j = if bit == j then true else bits j

abbrev pub set_word : ℕ → Bits → Bits
set_word bit bits j = if bit / 32 == j / 32 then true else bits j

-- A block's bitmap, the index `i`, and how many bits were taken.
pub record Progress : Type 0 where
  pub bits : Bits
  pub position : ℕ
  pub total : ℕ

abbrev pub taken : Bits → ℕ → ℕ → Progress
taken bits position total = record { bits = bits; position = position; total = total }

-- The search for a word with free bits, and for the first free bit within it.
unfoldable pub skip_words : (fuel max i : ℕ) → Bits → ℕ
unfolding is_word_set
skip_words zero max i bits = i
skip_words (suc fuel) max i bits =
    let rest = skip_words fuel max (i + 32) bits in
    if ltb i max && is_word_set bits i then rest else i

unfoldable pub skip_bits : (fuel i : ℕ) → Bits → ℕ
skip_bits zero i bits = i
skip_bits (suc fuel) i bits = let rest = skip_bits fuel (i + 1) bits in if bits i then rest else i

unfoldable pub search : (max i : ℕ) → Bits → ℕ
unfolding is_word_set skip_words skip_bits
search max i bits =
    let i' = skip_words max max ((i + 32) / 32 * 32) bits in
    if ltb i max && is_word_set bits i then (if ltb i' max then skip_bits 32 i' bits else i') else i

-- The walk until `i` is aligned.
unfoldable pub align : (fuel icount i total : ℕ) → Bits → Progress
align zero icount i total bits = taken bits i total
align (suc fuel) icount i total bits =
    let rest =
      align fuel icount (i + 1) (if bits i then total else total + 1)
        (if bits i then bits else set_bit i bits) in
    if not (i % 32 == 0) && ltb total icount && not (bits i && ltb 0 total)
    then rest
    else taken bits i total

-- The allocation in words; `max - i` is of type `size_t`.
unfoldable pub take_words : (fuel max icount i total : ℕ) → Bits → Progress
unfolding is_word_free
take_words zero max icount i total bits = taken bits i total
take_words (suc fuel) max icount i total bits =
    let is_free = is_word_free bits i in
    let rest =
      take_words fuel max icount (i + 32) (if is_free then total + 32 else total)
        (if is_free then set_word i bits else bits) in
    if leb 32 (icount - total) && leb 32 (sub64 max i) && (is_free || not (ltb 0 total))
    then rest
    else taken bits i total

-- The last loops: if nothing was taken, and if something was.
unfoldable pub take_bits : (fuel max icount i total : ℕ) → Bits → Progress
take_bits zero max icount i total bits = taken bits i total
take_bits (suc fuel) max icount i total bits =
    let rest =
      take_bits fuel max icount (i + 1) (if bits i then total else total + 1)
        (if bits i then bits else set_bit i bits) in
    if ltb i max && ltb total icount then rest else taken bits i total

unfoldable pub take_more : (fuel max icount i total : ℕ) → Bits → Progress
take_more zero max icount i total bits = taken bits i total
take_more (suc fuel) max icount i total bits =
    let took = take_more fuel max icount (i + 1) (total + 1) (set_bit i bits) in
    if ltb i max && ltb total icount && not (bits i) then took else taken bits i total

-- What is done with one block of the bitmap.
unfoldable pub alloc_block : (max icount i : ℕ) → Bits → Progress
unfolding search align take_words take_bits take_more
alloc_block max icount i bits =
    let a = align 32 icount (search max i bits) 0 bits in
    let w = take_words (max + icount) max icount a.position a.total a.bits in
    if w.total == 0
    then take_bits max max icount w.position w.total w.bits
    else take_more max max icount w.position w.total w.bits

-- An allocator, with the blocks of the bitmap that the cache holds. `first_free` and `free` are
-- fields of the super block.
pub record Allocator : Type 0 where
  pub first : ℕ
  pub first_free : ℕ
  pub free : ℕ
  pub total : ℕ
  pub blocks : ℕ
  pub cache : ℕ → Bits

abbrev pub put_block : ℕ → Bits → (ℕ → Bits) → ℕ → Bits
put_block number bits cache n = if number == n then bits else cache n

-- How many bits a block has that counts.
abbrev pub max_of : (number last total perblock : ℕ) → ℕ
max_of number last total perblock =
    if number == last
    then (if total % perblock == 0 then perblock else total % perblock)
    else perblock

-- The loop over the blocks: the last block that was looked at, the index and the count, and the
-- blocks.
unfoldable pub alloc_blocks :
    (fuel number last total perblock icount i : ℕ) → (ℕ → Bits) → (ℕ × ℕ × ℕ) × (ℕ → Bits)
unfolding alloc_block
alloc_blocks zero number last total perblock icount i cache = ((number, i, 0), cache)
alloc_blocks (suc fuel) number last total perblock icount i cache =
    let t = alloc_block (max_of number last total perblock) icount i (cache number) in
    let cache' = put_block number t.bits cache in
    let rest = alloc_blocks fuel (number + 1) last total perblock icount 0 cache' in
    if leb number last
    then (if t.total == 0 then rest else ((number, t.position, t.total), cache'))
    else ((number, i, 0), cache)

-- `alloc`: the start, the count and the allocator; `none` is the failed assertion.
unfoldable pub alloc : (blocksize count : ℕ) → Allocator → Option (ℕ × ℕ × Allocator)
unfolding alloc_blocks
alloc blocksize count a =
    let perblock = blocksize * 8 in
    let ((number, i, total), cache) =
      alloc_blocks a.blocks (a.first + a.first_free / perblock) (a.first + a.blocks - 1) a.total
        perblock count (a.first_free % perblock) a.cache in
    let off = (number - a.first) * perblock + i in
    if ltb a.free total
    then none
    else if total == 0
    then some (0, 0, record a { cache = cache })
    else some
        (off - total, total, record a { cache = cache; free = a.free - total; first_free = off })
