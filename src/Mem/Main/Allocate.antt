-- ===== src/Mem/Main/Allocate.antt =====
-- What `MainMemory::allocate` returns, and that `free` undoes it.
use semper_os.Base.{
  ℕ, suc, ◌+◌, ◌<◌, ◌≡◌, ◌≢◌, Bool, true, false, List, [], ◌∷◌, ◌||◌, inl, inr, Bool-cases, arith,
  if◌then◌else◌,
}
use semper_os.Mem.Areas.{Area, no_addr}
use semper_os.Mem.Areas.Bytes.{Normal}
use semper_os.Mem.Areas.Allocate.{fits, allocate-fits, Normal-widen}
use semper_os.Mem.Areas.Free.{free-allocate}
use semper_os.Mem.Main.{MemoryModule, succeeded, allocate_from, allocate, free_at, free_allocation}

-- Some module is for general use.
abbrev pub any_available : List MemoryModule → Bool
any_available [] = false
any_available (m ∷ mods) = m.available || any_available mods

-- The free areas do not begin at address 0.
abbrev pub IsPositive : List Area → Type 0
IsPositive = Normal 1 no_addr

-- Every module for general use has its map in normal form, above address 0.
abbrev pub IsValid : List MemoryModule → Type 0
IsValid [] = Unit
IsValid (m ∷ mods) = (m.available ≡ true → IsPositive m.map) × IsValid mods

-- The first module for general use.
abbrev pub first_fits : ℕ → List MemoryModule → Bool
first_fits size [] = false
first_fits size (m ∷ mods) = if m.available then fits size m.map else first_fits size mods

allocate_from-free_at :
    (i size : ℕ) (mods : List MemoryModule)
    → 0 < size
    → IsValid mods
    → first_fits size mods ≡ true
    → (k : ℕ) × ((allocate_from i size mods).0.mod_id ≡ i + k)
      × (free_at k (allocate_from i size mods).0.addr size (allocate_from i size mods).1 ≡ mods)
unfolding allocate_from free_at
allocate_from-free_at i size [] p v f = cc
allocate_from-free_at i size (m ∷ mods) p v f = elim (Bool-cases m.available) [
  | inl e ↦ (
    0,
    ground (arith, allocate-fits 1 no_addr size m.map),
    ground (
      arith,
      allocate-fits 1 no_addr size m.map,
      Normal-widen 1 0 no_addr m.map,
      free-allocate size m.map,
    ),
  )
  | inr e ↦
      let (k, a, b) = allocate_from-free_at (suc i) size mods p v.1 (ground arith) in
      (suc k, ground arith, ground arith)
]

allocate_from-size :
    (i size : ℕ) (mods : List MemoryModule)
    → 0 < size
    → IsValid mods
    → any_available mods ≡ true
    → (allocate_from i size mods).0.addr ≢ 0 × ((allocate_from i size mods).0.size ≡ size)
unfolding allocate_from
allocate_from-size i size [] p v f = cc
allocate_from-size i size (m ∷ mods) p v f =
    ground (arith, allocate-fits 1 no_addr size m.map, allocate_from-size (suc i) size mods p v.1)

first_fits-any_available :
    (size : ℕ) (mods : List MemoryModule) → first_fits size mods ≡ true → any_available mods ≡ true
first_fits-any_available size [] f = cc
first_fits-any_available size (m ∷ mods) f = ground (arith, first_fits-any_available size mods)

allocate_from-full :
    (i size : ℕ) (mods : List MemoryModule)
    → 0 < size
    → IsValid mods
    → any_available mods ≡ true
    → first_fits size mods ≡ false
    → ((allocate_from i size mods).0.addr ≡ no_addr) × ((allocate_from i size mods).1 ≡ mods)
unfolding allocate_from
allocate_from-full i size [] p v a f = cc
allocate_from-full i size (m ∷ mods) p v a f =
    ground (arith, allocate-fits 1 no_addr size m.map, allocate_from-full (suc i) size mods p v.1)

-- If the first module for general use has room, its allocation is freed without trace: `free` of
-- what `allocate` returned gives the modules as they were.
free-allocate_main :
    (size : ℕ) (mods : List MemoryModule)
    → 0 < size
    → IsValid mods
    → first_fits size mods ≡ true
    → free_allocation (allocate size mods).0 (allocate size mods).1 ≡ mods
unfolding free_allocation allocate allocate_from
free-allocate_main size mods p v f = ground (
  arith,
  allocate_from-free_at 0 size mods p v f,
  allocate_from-size 0 size mods p v,
  first_fits-any_available size mods f,
)

-- If the first module for general use has no room, `allocate` looks at no other: it changes nothing
-- and returns the address -1 of that module as an allocation that succeeded, also where a later
-- module has room.
pub allocate_full :
    (size : ℕ) (mods : List MemoryModule)
    → 0 < size
    → IsValid mods
    → any_available mods ≡ true
    → first_fits size mods ≡ false
    → (succeeded (allocate size mods).0 ≡ true)
      × ((allocate size mods).0.addr ≡ no_addr)
      × ((allocate size mods).1 ≡ mods)
unfolding allocate
allocate_full size mods p v a f =
    ground (arith, allocate_from-size 0 size mods p v a, allocate_from-full 0 size mods p v a f)
