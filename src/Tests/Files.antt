-- ===== src/Tests/Files.antt =====
-- The file system at concrete inputs. A bitmap has two blocks, 64 bits in the first and 32 in the
-- second.
use semper_os.Base.{
  ℕ, ◌+◌, ◌-◌, ◌*◌, ◌≡◌, ◌⊎◌, refl, true, false, ◌||◌, some, arith, ltb, ◌==◌, if◌then◌else◌,
}
use semper_os.Fs.Allocator.{Bits, Allocator, set_bit, put_block, alloc}
use semper_os.Fs.Allocator.Block.{IsFirstFree, IsFull}
use semper_os.Fs.Allocator.Alloc.{alloc-IsFirstFree}
use semper_os.Fs.Allocator.Gaps.{both_set, alloc-HasGap}

abbrev bitmap : ℕ → Bits
bitmap n j = if n == 1 then ltb j 33 || (j == 34) else false

abbrev allocator : Allocator
allocator = record { first = 1; first_free = 32; free = 62; total = 96; blocks = 2; cache = bitmap }

alloc-IsFirstFree_example :
    ((m : ℕ) × (p : ℕ) × IsFirstFree 2 96 64 1 32 m p bitmap
      × (alloc 8 1 allocator
          ≡ some (
            (m - 1) * 64 + p,
            1,
            record allocator {
              cache = put_block m (set_bit p (bitmap m)) bitmap;
              free = 61;
              first_free = (m - 1) * 64 + p + 1;
            },
          )))
    ⊎ (IsFull 2 96 64 1 32 bitmap × (alloc 8 1 allocator ≡ some (0, 0, allocator)))
alloc-IsFirstFree_example =
    alloc-IsFirstFree 8 allocator refl refl (omega arith) (λ h. omega arith) (omega arith)

alloc-HasGap_example :
    (alloc 8 2 allocator
      ≡ some (
        34,
        2,
        record allocator {
          cache = put_block 1 (both_set 32 (bitmap 1)) bitmap;
          free = 60;
          first_free = 36;
        },
      ))
    × (bitmap 1 34 ≡ true)
alloc-HasGap_example =
    alloc-HasGap 8 allocator refl (omega arith) (omega arith) (omega arith) (refl, refl, refl, refl)
      (omega arith)
