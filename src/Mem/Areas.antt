-- ===== src/Mem/Areas.antt =====
-- apps/kernel/mem/MemoryMap.{h,cc}: the free areas of a memory, as a list in place of a chain of
-- pointers. Addresses and sizes are 64-bit words.
pub mod Bytes
pub mod Allocate
pub mod Free
use semper_os.Base.{
  ℕ, ◌+◌, ◌-◌, ◌*◌, ◌%◌, ◌^◌, Bool, List, [], ◌∷◌, ltb, leb, ◌==◌, ◌&&◌, if◌then◌else◌, add64,
  sub64,
}

pub record Area : Type 0 where
  pub addr : ℕ
  pub size : ℕ

abbrev pub area : ℕ → ℕ → Area
area addr size = record { addr = addr; size = size }

-- `-1` as an address.
abbrev pub no_addr : ℕ
no_addr = 2 ^ 64 - 1

-- The constructor.
unfoldable pub memory_map : ℕ → ℕ → List Area
memory_map addr size = area addr size ∷ []

-- What is left of the area that an allocation is taken from.
unfoldable pub take_front : ℕ → Area → List Area → List Area
take_front size a rest =
    if sub64 a.size size == 0 then rest else area (add64 a.addr size) (sub64 a.size size) ∷ rest

-- The address, and the areas that are left.
unfoldable pub allocate : ℕ → List Area → ℕ × List Area
unfolding take_front
allocate size [] = (no_addr, [])
allocate size (a ∷ rest) =
    let later = allocate size rest in
    if leb size a.size then (a.addr, take_front size a rest) else (later.0, a ∷ later.1)

-- `free` where no area lies before `addr`: `n` is the area behind, if there is one.
unfoldable pub free_first : ℕ → ℕ → List Area → List Area
free_first addr size [] = area addr size ∷ []
free_first addr size (n ∷ rest) =
    if add64 addr size == n.addr
    then area (sub64 n.addr size) (add64 n.size size) ∷ rest
    else area addr size ∷ n ∷ rest

-- `free` where `p` lies before `addr`: the loop goes on while the next area does too.
unfoldable pub free_behind : Area → ℕ → ℕ → List Area → List Area
free_behind p addr size [] =
    if add64 p.addr p.size == addr
    then area p.addr (add64 p.size size) ∷ []
    else p ∷ area addr size ∷ []
free_behind p addr size (n ∷ rest) =
    let later = free_behind n addr size rest in
    if ltb n.addr addr
    then p ∷ later
    else if (add64 p.addr p.size == addr) && (add64 addr size == n.addr)
    then area p.addr (add64 p.size (add64 size n.size)) ∷ rest
    else if add64 p.addr p.size == addr
    then area p.addr (add64 p.size size) ∷ n ∷ rest
    else if add64 addr size == n.addr
    then p ∷ area (sub64 n.addr size) (add64 n.size size) ∷ rest
    else p ∷ area addr size ∷ n ∷ rest

unfoldable pub free : ℕ → ℕ → List Area → List Area
unfolding free_first free_behind
free addr size [] = free_first addr size []
free addr size (a ∷ rest) =
    if ltb a.addr addr then free_behind a addr size rest else free_first addr size (a ∷ rest)

-- `get_size`: the free bytes.
unfoldable pub get_size : List Area → ℕ
get_size [] = 0
get_size (a ∷ rest) = add64 (get_size rest) a.size
