-- ===== src/Mem/Areas/Bytes.antt =====
-- The bytes that a list of areas holds, and when such a list is in normal form.
use semper_os.Base.{
  ℕ, suc, ◌+◌, ◌-◌, ◌^◌, ◌≤◌, ◌<◌, Bool, false, List, [], ◌∷◌, ltb, leb, ◌&&◌, ◌||◌,
}
use semper_os.Mem.Areas.{Area}

-- Areas between `lo` and `hi` in the order of addresses, none empty, and no two adjacent: the gap
-- before each next area is not empty.
abbrev pub Normal : ℕ → ℕ → List Area → Type 0
Normal lo hi [] = Unit
Normal lo hi (a ∷ rest) =
    (lo ≤ a.addr) × (0 < a.size) × (a.addr + a.size ≤ hi) × Normal (suc (a.addr + a.size)) hi rest

-- Does byte `x` lie in the `size` bytes from `addr` on?
abbrev pub within : ℕ → ℕ → ℕ → Bool
within addr size x = leb addr x && ltb x (addr + size)

abbrev pub is_free : List Area → ℕ → Bool
is_free [] x = false
is_free (a ∷ rest) x = within a.addr a.size x || is_free rest x

-- The normal form of a map: within the 64-bit addresses, `-1` left out.
abbrev pub IsNormal : List Area → Type 0
IsNormal = Normal 0 (2 ^ 64 - 1)
