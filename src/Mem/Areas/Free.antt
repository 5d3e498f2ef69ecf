-- ===== src/Mem/Areas/Free.antt =====
-- `free` gives bytes back and merges them with their neighbours.
use semper_os.Base.{ℕ, suc, ◌+◌, ◌^◌, ◌≤◌, ◌<◌, ◌≡◌, ◌⊎◌, true, List, [], ◌∷◌, ◌||◌, arith}
use semper_os.Mem.Areas.{Area, no_addr, take_front, allocate, free_first, free_behind, free}
use semper_os.Mem.Areas.Bytes.{Normal, IsNormal, within, is_free}
use semper_os.Mem.Areas.Allocate.{fits, allocate-fits}

-- No byte of the range is free: the range lies in the gaps between the areas.
abbrev pub InGap : ℕ → ℕ → List Area → Type 0
InGap addr size [] = Unit
InGap addr size (a ∷ rest) =
    ((addr + size ≤ a.addr) ⊎ (a.addr + a.size ≤ addr)) × InGap addr size rest

free_first-Normal :
    (lo hi addr size : ℕ) (rest : List Area)
    → hi < 2 ^ 64
    → 0 < size
    → lo ≤ addr
    → addr + size ≤ hi
    → Normal lo hi rest
    → InGap addr size rest
    → ((a : Area) (more : List Area) → rest ≡ a ∷ more → addr ≤ a.addr)
    → Normal lo hi (free_first addr size rest)
unfolding free_first
free_first-Normal lo hi addr size [] h p l u n g first = ground arith
free_first-Normal lo hi addr size (a ∷ rest) h p l u n g first = ground (arith, first a rest)

free_behind-Normal :
    (lo hi addr size : ℕ) (p : Area) (rest : List Area)
    → hi < 2 ^ 64
    → 0 < size
    → p.addr < addr
    → addr + size ≤ hi
    → Normal lo hi (p ∷ rest)
    → InGap addr size (p ∷ rest)
    → Normal lo hi (free_behind p addr size rest)
unfolding free_behind
free_behind-Normal lo hi addr size p [] h q l u n g = ground arith
free_behind-Normal lo hi addr size p (a ∷ rest) h q l u n g =
    ground (arith, free_behind-Normal (suc (p.addr + p.size)) hi addr size a rest h q)

free-Normal :
    (lo hi addr size : ℕ) (rest : List Area)
    → hi < 2 ^ 64
    → 0 < size
    → lo ≤ addr
    → addr + size ≤ hi
    → Normal lo hi rest
    → InGap addr size rest
    → Normal lo hi (free addr size rest)
unfolding free
free-Normal lo hi addr size [] h p l u n g =
    free_first-Normal lo hi addr size [] h p l u n g (λ a more e. absurd (ground arith))
free-Normal lo hi addr size (a ∷ rest) h p l u n g = ground (
  arith,
  free_behind-Normal lo hi addr size a rest h p,
  free_first-Normal lo hi addr size (a ∷ rest) h p l u n g,
)

free_first-byte :
    (lo hi addr size x : ℕ) (rest : List Area)
    → hi < 2 ^ 64
    → addr + size ≤ hi
    → Normal lo hi rest
    → is_free (free_first addr size rest) x ≡ (within addr size x || is_free rest x)
unfolding free_first
free_first-byte lo hi addr size x [] h u n = ground arith
free_first-byte lo hi addr size x (a ∷ rest) h u n = ground arith

free_behind-byte :
    (lo hi addr size x : ℕ) (p : Area) (rest : List Area)
    → hi < 2 ^ 64
    → addr + size ≤ hi
    → Normal lo hi (p ∷ rest)
    → is_free (free_behind p addr size rest) x ≡ (within addr size x || is_free (p ∷ rest) x)
unfolding free_behind
free_behind-byte lo hi addr size x p [] h u n = ground arith
free_behind-byte lo hi addr size x p (a ∷ rest) h u n =
    ground (arith, free_behind-byte (suc (p.addr + p.size)) hi addr size x a rest h u)

free-byte :
    (lo hi addr size x : ℕ) (rest : List Area)
    → hi < 2 ^ 64
    → addr + size ≤ hi
    → Normal lo hi rest
    → is_free (free addr size rest) x ≡ (within addr size x || is_free rest x)
unfolding free
free-byte lo hi addr size x [] h u n = free_first-byte lo hi addr size x [] h u n
free-byte lo hi addr size x (a ∷ rest) h u n = ground (
  arith,
  free_first-byte lo hi addr size x (a ∷ rest) h u n,
  free_behind-byte lo hi addr size x a rest h u n,
)

-- Freeing a range that touches no free area makes exactly its bytes free besides those that were,
-- and leaves the areas sorted, disjoint and fully merged.
pub free_gives :
    (addr size : ℕ) (rest : List Area)
    → 0 < size
    → addr + size ≤ no_addr
    → IsNormal rest
    → InGap addr size rest
    → IsNormal (free addr size rest)
      × ((x : ℕ) → is_free (free addr size rest) x ≡ (within addr size x || is_free rest x))
free_gives addr size rest p u n g = (
  free-Normal 0 no_addr addr size rest (omega arith) p (omega arith) u n g,
  λ x. free-byte 0 no_addr addr size x rest (omega arith) u n,
)

free_behind-take_front :
    (lo hi size : ℕ) (p a : Area) (rest : List Area)
    → hi < 2 ^ 64
    → 0 < size
    → size ≤ a.size
    → Normal lo hi (p ∷ a ∷ rest)
    → free_behind p a.addr size (take_front size a rest) ≡ p ∷ a ∷ rest
unfolding free_behind take_front
free_behind-take_front lo hi size p a [] h q f n = ground arith
free_behind-take_front lo hi size p a (b ∷ rest) h q f n = ground arith

free_behind-allocate :
    (lo hi size : ℕ) (p : Area) (rest : List Area)
    → hi < 2 ^ 64
    → 0 < size
    → Normal lo hi (p ∷ rest)
    → fits size rest ≡ true
    → free_behind p (allocate size rest).0 size (allocate size rest).1 ≡ p ∷ rest
unfolding free_behind allocate
free_behind-allocate lo hi size p [] h q n f = cc
free_behind-allocate lo hi size p (a ∷ rest) h q n f = ground (
  arith,
  free_behind-take_front lo hi size p a rest h q,
  allocate-fits (suc (a.addr + a.size)) hi size rest h q n.3.3,
  free_behind-allocate (suc (p.addr + p.size)) hi size a rest h q n.3,
)

free-take_front :
    (hi size : ℕ) (a : Area) (rest : List Area)
    → hi < 2 ^ 64
    → 0 < size
    → size ≤ a.size
    → Normal 0 hi (a ∷ rest)
    → free a.addr size (take_front size a rest) ≡ a ∷ rest
unfolding free free_first take_front
free-take_front hi size a [] h q f n = ground arith
free-take_front hi size a (b ∷ rest) h q f n = ground arith

-- Freeing what was just allocated restores the map as it was, area by area.
pub free-allocate :
    (size : ℕ) (rest : List Area)
    → 0 < size
    → IsNormal rest
    → fits size rest ≡ true
    → free (allocate size rest).0 size (allocate size rest).1 ≡ rest
unfolding free allocate
free-allocate size [] p n f = cc
free-allocate size (a ∷ rest) p n f = ground (
  arith,
  free-take_front no_addr size a rest,
  allocate-fits (suc (a.addr + a.size)) no_addr size rest,
  free_behind-allocate 0 no_addr size a rest,
)
