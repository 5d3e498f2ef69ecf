-- ===== src/Fs/Allocator/Alloc.antt =====
-- `alloc` of one bit, as `alloc(h)` calls it.
use semper_os.Base.{ℕ, ◌+◌, ◌-◌, ◌*◌, ◌/◌, ◌%◌, ◌≤◌, ◌<◌, ◌≡◌, inl, inr, ◌⊎◌, arith, some}
use semper_os.Fs.Allocator.{set_bit, Allocator, put_block, max_of, alloc}
use semper_os.Fs.Allocator.Block.{IsFirstFree, IsFull, alloc_blocks-finds}

-- One bit is wanted, of an allocator that counts at least one as free. Its blocks, and the part of
-- its last block that counts, are whole words, and `first_free` lies in it. Then the first bit
-- from `first_free` on that is not set is set, and no other bit; its number is given, and `first_free`
-- is the number behind it. If there is none, the count is 0 and nothing changes.
pub alloc-IsFirstFree :
    (blocksize : ℕ) (a : Allocator)
    → let perblock = blocksize * 8 in
      let last = a.first + a.blocks - 1 in
      let number = a.first + a.first_free / perblock in
      let i = a.first_free % perblock in
      perblock % 32 ≡ 0
      → a.total % perblock % 32 ≡ 0
      → 0 < a.first + a.blocks
      → (number ≤ last → i ≤ max_of number last a.total perblock)
      → 0 < a.free
      → ((m : ℕ) × (p : ℕ) × IsFirstFree last a.total perblock number i m p a.cache
          × (alloc blocksize 1 a
              ≡ some (
                (m - a.first) * perblock + p,
                1,
                record a {
                  cache = put_block m (set_bit p (a.cache m)) a.cache;
                  free = a.free - 1;
                  first_free = (m - a.first) * perblock + p + 1;
                },
              )))
        ⊎ (IsFull last a.total perblock number i a.cache × (alloc blocksize 1 a ≡ some (0, 0, a)))
unfolding alloc
alloc-IsFirstFree blocksize a b c d l f =
    elim (alloc_blocks-finds last a.total (blocksize * 8) a.blocks number i a.cache b c l
      (omega arith)) [
        | inl (m, p, x, q) ↦ inl (m, p, x, rw q (ground (arith, f)))
        | inr (x, (m, k, q)) ↦ inr (x, rw q (ground (arith, f)))
      ]
  where
    last : ℕ
    last = a.first + a.blocks - 1

    number : ℕ
    number = a.first + a.first_free / (blocksize * 8)

    i : ℕ
    i = a.first_free % (blocksize * 8)
