-- ===== src/Mem/Main.antt =====
-- apps/kernel/mem/MainMemory.{h,cc} and MemoryModule.h: the memory modules of a kernel. The array of
-- modules is the list of those that were added.
pub mod Allocate
use semper_os.Base.{
  add64, ℕ, suc, ◌+◌, Bool, true, false, List, [], ◌∷◌, ◌++◌, Option, none, some, length, ltb, ◌==◌,
  if◌then◌else◌,
}
use semper_os.Mem.Areas.{Area, memory_map}
use semper_os.Mem.Areas

pub record MemoryModule : Type 0 where
  pub available : Bool
  pub pe : ℕ
  pub addr : ℕ
  pub size : ℕ
  pub map : List Area

unfoldable pub memory_module : Bool → ℕ → ℕ → ℕ → MemoryModule
unfolding memory_map
memory_module available pe addr size = record {
  available = available;
  pe = pe;
  addr = addr;
  size = size;
  map = memory_map addr size;
}

pub record Allocation : Type 0 where
  pub mod_id : ℕ
  pub addr : ℕ
  pub size : ℕ

abbrev pub no_allocation : Allocation
no_allocation = record { mod_id = 0; addr = 0; size = 0 }

-- `operator bool`.
abbrev pub succeeded : Allocation → Bool
succeeded a = ltb 0 a.size

-- `add`; `none` is the panic for want of a slot.
unfoldable pub add : MemoryModule → List MemoryModule → Option (List MemoryModule)
add m mods = if length mods == 4 then none else some (mods ++ m ∷ [])

-- The loop of `allocate`, from module `i` on. An address of 0 makes it try the next module.
unfoldable pub allocate_from : ℕ → ℕ → List MemoryModule → Allocation × List MemoryModule
allocate_from i size [] = (no_allocation, [])
allocate_from i size (m ∷ mods) =
    let later = allocate_from (suc i) size mods in
    let taken = Areas.allocate size m.map in
    let m' = record m { map = taken.1 } in
    if m.available
    then (if taken.0 == 0
        then (later.0, m' ∷ later.1)
        else (record { mod_id = i; addr = taken.0; size = size }, m' ∷ mods))
    else (later.0, m ∷ later.1)

unfoldable pub allocate : ℕ → List MemoryModule → Allocation × List MemoryModule
unfolding allocate_from
allocate = allocate_from 0

-- The loop of `allocate_at`: a place in the first module that is not for general use.
unfoldable pub allocate_at_from : ℕ → ℕ → ℕ → List MemoryModule → Allocation
allocate_at_from i offset size [] = no_allocation
allocate_at_from i offset size (m ∷ mods) =
    let later = allocate_at_from (suc i) offset size mods in
    if m.available then later else record { mod_id = i; addr = add64 m.addr offset; size = size }

unfoldable pub allocate_at : ℕ → ℕ → List MemoryModule → Allocation
unfolding allocate_at_from
allocate_at = allocate_at_from 0

-- `free(pe, addr, size)`: the first module of that PE.
unfoldable pub free : ℕ → ℕ → ℕ → List MemoryModule → List MemoryModule
free pe addr size [] = []
free pe addr size (m ∷ mods) =
    if m.pe == pe
    then record m { map = Areas.free addr size m.map } ∷ mods
    else m ∷ free pe addr size mods

-- `free(alloc)`, in module `i`.
unfoldable pub free_at : ℕ → ℕ → ℕ → List MemoryModule → List MemoryModule
free_at i addr size [] = []
free_at ℕ.zero addr size (m ∷ mods) = record m { map = Areas.free addr size m.map } ∷ mods
free_at (suc i) addr size (m ∷ mods) = m ∷ free_at i addr size mods

unfoldable pub free_allocation : Allocation → List MemoryModule → List MemoryModule
unfolding free_at
free_allocation a = free_at a.mod_id a.addr a.size

-- `available`: the free bytes of the modules for general use.
unfoldable pub available : List MemoryModule → ℕ
available [] = 0
available (m ∷ mods) =
    let later = available mods in if m.available then add64 later (Areas.get_size m.map) else later
