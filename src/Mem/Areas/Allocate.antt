-- ===== src/Mem/Areas/Allocate.antt =====
-- `allocate` hands out free bytes, and only those leave the map.
use semper_os.Base.{
  ℕ, suc, ◌+◌, ◌^◌, ◌≤◌, ◌<◌, ◌≡◌, ◌⊎◌, inl, inr, refl, Bool, true, false, List, [], ◌∷◌, leb, ◌||◌,
  arith,
}
use semper_os.Mem.Areas.{Area, no_addr, allocate}
use semper_os.Mem.Areas.Bytes.{Normal, IsNormal, within, is_free}

pub Normal-widen :
    (lo lo' hi : ℕ) (rest : List Area) → lo' ≤ lo → Normal lo hi rest → Normal lo' hi rest
Normal-widen lo lo' hi [] h n = tt
Normal-widen lo lo' hi (a ∷ rest) h n = (omega arith, n.1, n.2, n.3)

allocate-Normal :
    (lo hi size : ℕ) (rest : List Area)
    → hi < 2 ^ 64
    → Normal lo hi rest
    → Normal lo hi (allocate size rest).1
unfolding allocate
allocate-Normal lo hi size [] h n = tt
allocate-Normal lo hi size (a ∷ rest) h n = ground (
  arith,
  allocate-Normal (suc (a.addr + a.size)) hi size rest h n.3,
  Normal-widen (suc (a.addr + a.size)) lo hi rest,
)

-- Does some area hold `size` bytes?
abbrev pub fits : ℕ → List Area → Bool
fits size [] = false
fits size (a ∷ rest) = leb size a.size || fits size rest

-- The address tells whether an area fits, and a failure changes nothing.
pub allocate-fits :
    (lo hi size : ℕ) (rest : List Area)
    → hi < 2 ^ 64
    → 0 < size
    → Normal lo hi rest
    → ((fits size rest ≡ true)
        × (lo ≤ (allocate size rest).0)
        × ((allocate size rest).0 + size ≤ hi))
      ⊎ ((fits size rest ≡ false) × (allocate size rest ≡ (no_addr, rest)))
unfolding allocate
allocate-fits lo hi size [] h p n = inr (refl, refl)
allocate-fits lo hi size (a ∷ rest) h p n =
    ground (arith, allocate-fits (suc (a.addr + a.size)) hi size rest h p n.3)

-- Byte `x` before and after: what is handed out was free and is not any more, the rest is as before.
allocate-byte :
    (lo hi size x : ℕ) (rest : List Area)
    → hi < 2 ^ 64
    → 0 < size
    → Normal lo hi rest
    → fits size rest ≡ true
    → is_free rest x ≡ (within (allocate size rest).0 size x || is_free (allocate size rest).1 x)
unfolding allocate
allocate-byte lo hi size x [] h p n f = cc
allocate-byte lo hi size x (a ∷ rest) h p n f =
    ground (arith, allocate-byte (suc (a.addr + a.size)) hi size x rest h p n.3)

pub is_free-outside :
    (lo hi x : ℕ) (rest : List Area)
    → Normal lo hi rest
    → (x < lo) ⊎ (hi ≤ x)
    → is_free rest x ≡ false
is_free-outside lo hi x [] n h = refl
is_free-outside lo hi x (a ∷ rest) n h =
    ground (arith, is_free-outside (suc (a.addr + a.size)) hi x rest n.3)

allocate-taken :
    (lo hi size x : ℕ) (rest : List Area)
    → hi < 2 ^ 64
    → 0 < size
    → Normal lo hi rest
    → fits size rest ≡ true
    → within (allocate size rest).0 size x ≡ true
    → is_free (allocate size rest).1 x ≡ false
unfolding allocate
allocate-taken lo hi size x [] h p n f w = cc
allocate-taken lo hi size x (a ∷ rest) h p n f w = ground (
  arith,
  allocate-taken (suc (a.addr + a.size)) hi size x rest h p n.3,
  allocate-fits (suc (a.addr + a.size)) hi size rest h p n.3,
  is_free-outside (suc (a.addr + a.size)) hi x rest n.3,
)

-- On a map in normal form, `allocate` finds room exactly when an area is large enough. It then
-- returns the start of a range in which each byte was free and none is free afterwards, while all
-- other bytes are free as before; otherwise it returns -1 and the map stays. The map keeps its
-- normal form.
pub allocate_takes :
    (size : ℕ) (rest : List Area)
    → 0 < size
    → IsNormal rest
    → IsNormal (allocate size rest).1
      × (((fits size rest ≡ true)
            × ((allocate size rest).0 + size ≤ no_addr)
            × ((x : ℕ)
                → is_free rest x
                  ≡ (within (allocate size rest).0 size x || is_free (allocate size rest).1 x))
            × ((x : ℕ)
                → within (allocate size rest).0 size x ≡ true
                → is_free (allocate size rest).1 x ≡ false))
          ⊎ ((fits size rest ≡ false) × (allocate size rest ≡ (no_addr, rest))))
allocate_takes size rest p n = (
  allocate-Normal 0 no_addr size rest (omega arith) n,
  by_place (allocate-fits 0 no_addr size rest (omega arith) p n),
)
  where
    by_place :
        ((fits size rest ≡ true)
            × (0 ≤ (allocate size rest).0)
            × ((allocate size rest).0 + size ≤ no_addr))
          ⊎ ((fits size rest ≡ false) × (allocate size rest ≡ (no_addr, rest)))
        → ((fits size rest ≡ true)
            × ((allocate size rest).0 + size ≤ no_addr)
            × ((x : ℕ)
                → is_free rest x
                  ≡ (within (allocate size rest).0 size x || is_free (allocate size rest).1 x))
            × ((x : ℕ)
                → within (allocate size rest).0 size x ≡ true
                → is_free (allocate size rest).1 x ≡ false))
          ⊎ ((fits size rest ≡ false) × (allocate size rest ≡ (no_addr, rest)))
    by_place (inl (f, lower, upper)) = inl (
      f,
      upper,
      λ x. allocate-byte 0 no_addr size x rest (omega arith) p n f,
      λ x. allocate-taken 0 no_addr size x rest (omega arith) p n f,
    )
    by_place (inr e) = inr e
