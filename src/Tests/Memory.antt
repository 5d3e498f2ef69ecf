-- ===== src/Tests/Memory.antt =====
-- The memory management at concrete inputs.
use semper_os.Base.{ℕ, ◌+◌, ◌≤◌, ◌≡◌, ◌⊎◌, refl, true, false, List, [], ◌∷◌, ◌||◌, arith}
use semper_os.Mem.Areas.{Area, area, no_addr, allocate, free}
use semper_os.Mem.Areas.Bytes.{IsNormal, within, is_free}
use semper_os.Mem.Areas.Allocate.{fits, allocate_takes}
use semper_os.Mem.Areas.Free.{free_gives, free-allocate}
use semper_os.Mem.Main.{MemoryModule}

abbrev areas : List Area
areas = area 0x1000 0x100 ∷ area 0x2000 0x800 ∷ []

areas-IsNormal : IsNormal areas
areas-IsNormal = omega arith

allocate_takes_example :
    IsNormal (allocate 0x200 areas).1
    × (((fits 0x200 areas ≡ true)
          × ((allocate 0x200 areas).0 + 0x200 ≤ no_addr)
          × ((x : ℕ)
              → is_free areas x
                ≡ (within (allocate 0x200 areas).0 0x200 x || is_free (allocate 0x200 areas).1 x))
          × ((x : ℕ)
              → within (allocate 0x200 areas).0 0x200 x ≡ true
              → is_free (allocate 0x200 areas).1 x ≡ false))
        ⊎ ((fits 0x200 areas ≡ false) × (allocate 0x200 areas ≡ (no_addr, areas))))
allocate_takes_example = allocate_takes 0x200 areas (omega arith) areas-IsNormal

-- The range closes the gap between the two areas.
free_gives_example :
    IsNormal (free 0x1100 0xf00 areas)
    × ((x : ℕ) → is_free (free 0x1100 0xf00 areas) x ≡ (within 0x1100 0xf00 x || is_free areas x))
free_gives_example =
    free_gives 0x1100 0xf00 areas (omega arith) (omega arith) areas-IsNormal (omega arith)

free-allocate_example : free (allocate 0x200 areas).0 0x200 (allocate 0x200 areas).1 ≡ areas
free-allocate_example = free-allocate 0x200 areas (omega arith) areas-IsNormal refl

abbrev small : MemoryModule
small = record {
  available = true;
  pe = 7;
  addr = 0x1000;
  size = 0x100;
  map = area 0x1000 0x100 ∷ [];
}

abbrev large : MemoryModule
large = record { available = true; pe = 8; addr = 0x1000; size = 0x8000; map = areas }
