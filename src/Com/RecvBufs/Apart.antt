-- ===== src/Com/RecvBufs/Apart.antt =====
-- Two receive buffers of a PE do not overlap.
use semper_os.Base.{
  ℕ, zero, suc, ◌+◌, ◌*◌, ◌%◌, ◌^◌, ◌≤◌, ◌<◌, Bool, true, false, List, [], ◌∷◌, ◌++◌, some, ◌==◌,
  ◌≡◌, ◌≢◌, refl, sym, ◌∙◌, inl, inr, ◌⊎◌, subst, arith, length, get_elem?, Bool-cases,
  compare_cases, is_equal,
}
use semper_os.Ddl.Hash.{shl64}
use semper_os.Com.RecvBufs.{
  RBuf, get, put, is_in_way, overlap, find_overlap, has_attached, init, pe_bufs, all_bufs,
}
use semper_os.Com.RecvBufs.Access.{get_inside, get-put_self, get-put_other, get_plain}

-- A buffer does not wrap around.
abbrev pub IsFlat : RBuf → Type 0
IsFlat r = r.addr + shl64 1 r.order < 2 ^ 64

abbrev pub IsApart : RBuf → RBuf → Type 0
IsApart a b = (a.addr + shl64 1 a.order ≤ b.addr) ⊎ (b.addr + shl64 1 b.order ≤ a.addr)

-- The attached buffers do not wrap around, and no two of a PE overlap.
abbrev pub IsValid : List RBuf → Type 0
IsValid bufs =
    ((core i : ℕ) (a : RBuf)
      → core < 2 ^ 32
      → i < 16
      → get core i bufs ≡ some a
      → has_attached a.flags ≡ true
      → IsFlat a)
    × ((core i j : ℕ) (a b : RBuf)
        → core < 2 ^ 32
        → i < 16
        → j < 16
        → i ≢ j
        → get core i bufs ≡ some a
        → get core j bufs ≡ some b
        → has_attached a.flags ≡ true
        → has_attached b.flags ≡ true
        → IsApart a b)

overlap-IsApart :
    (a b : ℕ) (m n : ℕ)
    → a + m < 2 ^ 64
    → b + n < 2 ^ 64
    → overlap a ((a + m) % 2 ^ 64) b ((b + n) % 2 ^ 64) ≡ false
    → (a + m ≤ b) ⊎ (b + n ≤ a)
unfolding overlap
overlap-IsApart a b m n h l e = ground arith

swapped : (a b : RBuf) → IsApart a b → IsApart b a
swapped a b (inl h) = inr h
swapped a b (inr h) = inl h

pub is_in_way-IsApart :
    (a b : RBuf)
    → IsFlat a
    → IsFlat b
    → has_attached a.flags ≡ true
    → is_in_way b.addr b.order a ≡ false
    → IsApart a b
unfolding is_in_way
is_in_way-IsApart a b f g h e =
    overlap-IsApart a.addr b.addr (shl64 1 a.order) (shl64 1 b.order) f g (ground (arith, e, h))

-- The loop has an answer where the buffers exist, and looks at each but the one itself.
pub find_overlap-total :
    (core epid addr order i left : ℕ) (bufs : List RBuf)
    → core < 2 ^ 32
    → i + left ≤ 16
    → core * 16 + 16 ≤ length bufs
    → (b : Bool) × (find_overlap core epid addr order i left bufs ≡ some b)
unfolding find_overlap
find_overlap-total core epid addr order i zero bufs l m n = (false, refl)
find_overlap-total core epid addr order i (suc left) bufs l m n =
    let (b, e) = find_overlap-total core epid addr order (i + 1) left bufs l (omega arith) n in
    let (r, f) = get_inside core i bufs l (omega arith) (omega arith) in
    elim (Bool-cases (i == epid)) [
      | inl q ↦ (b, ground (arith, q, e))
      | inr q ↦ elim (Bool-cases (is_in_way addr order r)) [
        | inl w ↦ (true, ground (arith, q, f, w))
        | inr w ↦ (b, ground (arith, q, f, w, e))
      ]
    ]

pub find_overlap-false :
    (core epid addr order i left j : ℕ) (r : RBuf) (bufs : List RBuf)
    → find_overlap core epid addr order i left bufs ≡ some false
    → i ≤ j
    → j < i + left
    → j ≢ epid
    → get core j bufs ≡ some r
    → is_in_way addr order r ≡ false
unfolding find_overlap
find_overlap-false core epid addr order i zero j r bufs e l m n g = absurd (omega (arith, l, m))
find_overlap-false core epid addr order i (suc left) j r bufs e l m n g = elim (compare_cases i j) [
  | inl q ↦ first q
  | inr (inl q) ↦ absurd (omega (arith, q, l))
  | inr (inr q) ↦
      find_overlap-false core epid addr order (i + 1) left j r bufs (rest q) (omega arith)
        (omega arith) n g
]
  where
    first : i ≡ j → is_in_way addr order r ≡ false
    first q = ground (arith, e, g, n, q)

    rest : i < j → find_overlap core epid addr order (i + 1) left bufs ≡ some false
    rest q = ground (arith, e)

-- The place of another endpoint is another place.
place_apart :
    (core epid c i : ℕ)
    → epid < 16
    → i < 16
    → (c ≢ core) ⊎ (i ≢ epid)
    → core * 16 + epid ≢ c * 16 + i
place_apart core epid c i l m (inl n) = λ e. n (omega arith)
place_apart core epid c i l m (inr n) = λ e. n (omega arith)

-- Whether a place is the one that is written.
same_place : (core epid c i : ℕ) → ((c ≡ core) × (i ≡ epid)) ⊎ ((c ≢ core) ⊎ (i ≢ epid))
same_place core epid c i = elim (Bool-cases (c == core)) [
  | inr n ↦ inr (inl (λ e. ground (arith, n)))
  | inl q ↦ elim (Bool-cases (i == epid)) [
    | inr n ↦ inr (inr (λ e. ground (arith, n)))
    | inl p ↦ inl (is_equal c core q, is_equal i epid p)
  ]
]

module _ (core epid : ℕ) (r s : RBuf) (bufs : List RBuf) (l : core < 2 ^ 32) (m : epid < 16)
    (e : get core epid bufs ≡ some s) where
  found_there :
      (c i : ℕ) (a : RBuf)
      → c < 2 ^ 32
      → i < 16
      → get c i (put core epid r bufs) ≡ some a
      → ((c ≡ core) × (i ≡ epid) × (r ≡ a)) ⊎ (((c ≢ core) ⊎ (i ≢ epid)) × (get c i bufs ≡ some a))
  found_there c i a n o g = elim (same_place core epid c i) [
    | inl (q, p) ↦ inl (
      q,
      p,
      ground (
        arith,
        g,
        get-put_self core epid c i r s bufs l (omega arith) n (omega arith) (omega arith) e,
      ),
    )
    | inr d ↦ inr (
      d,
      ground (
        arith,
        g,
        get-put_other core epid c i r bufs l (omega arith) n (omega arith)
            (place_apart core epid c i m o d),
      ),
    )
  ]

  pub put-IsValid :
      (has_attached r.flags ≡ true → IsFlat r)
      → (has_attached r.flags ≡ true
          → (j : ℕ) (b : RBuf) → j < 16
          → j ≢ epid
          → get core j bufs ≡ some b
          → has_attached b.flags ≡ true
          → IsApart b r)
      → IsValid bufs
      → IsValid (put core epid r bufs)
  put-IsValid f g (v, w) = (flat, apart)
    where
      flat :
          (c i : ℕ) (a : RBuf)
          → c < 2 ^ 32
          → i < 16
          → get c i (put core epid r bufs) ≡ some a
          → has_attached a.flags ≡ true
          → IsFlat a
      flat c i a n o q h = elim (found_there c i a n o q) [
        | inl (x, y, z) ↦ subst IsFlat z (f (subst (λ a. has_attached a.flags ≡ true) (sym z) h))
        | inr (d, z) ↦ v c i a n o z h
      ]

      apart :
          (c i j : ℕ) (a b : RBuf)
          → c < 2 ^ 32
          → i < 16
          → j < 16
          → i ≢ j
          → get c i (put core epid r bufs) ≡ some a
          → get c j (put core epid r bufs) ≡ some b
          → has_attached a.flags ≡ true
          → has_attached b.flags ≡ true
          → IsApart a b
      apart c i j a b n o p d q z h k = elim (found_there c i a n o q) [
        | inl (x, y, t) ↦ elim (found_there c j b n p z) [
          | inl (x', y', t') ↦ absurd (d (y ∙ sym y'))
          | inr (x', t') ↦
              subst (λ a. IsApart a b) t
                (swapped b r (
                  g (subst (λ a. has_attached a.flags ≡ true) (sym t) h) j b p (λ u. d (y ∙ sym u))
                    (subst (λ c. get c j bufs ≡ some b) x t') k))
        ]
        | inr (x, t) ↦ elim (found_there c j b n p z) [
          | inl (x', y', t') ↦
              subst (λ b. IsApart a b) t'
                (g (subst (λ b. has_attached b.flags ≡ true) (sym t') k) i a o (λ u. d (u ∙ sym y'))
                  (subst (λ c. get c i bufs ≡ some a) x' t) h)
          | inr (x', t') ↦ w c i j a b n o p d t t' h k
        ]
      ]

get_elem?-append-flags :
    (xs ys : List RBuf) (i : ℕ) (a : RBuf)
    → ((j : ℕ) (b : RBuf) → get_elem? xs j ≡ some b → b.flags ≡ 0)
    → ((j : ℕ) (b : RBuf) → get_elem? ys j ≡ some b → b.flags ≡ 0)
    → get_elem? (xs ++ ys) i ≡ some a
    → a.flags ≡ 0
get_elem?-append-flags [] ys i a f g e = g i a e
get_elem?-append-flags (x ∷ xs) ys zero a f g e = f zero a e
get_elem?-append-flags (x ∷ xs) ys (suc i) a f g e =
    get_elem?-append-flags xs ys i a (λ j. f (suc j)) g e

pe_bufs-flags :
    (core ep left i : ℕ) (a : RBuf) → get_elem? (pe_bufs core ep left) i ≡ some a → a.flags ≡ 0
pe_bufs-flags core ep zero i a e = absurd (ground (arith, e))
pe_bufs-flags core ep (suc left) zero a e = ground (arith, e)
pe_bufs-flags core ep (suc left) (suc i) a e = pe_bufs-flags core (ep + 1) left i a e

all_bufs-flags :
    (core left i : ℕ) (a : RBuf) → get_elem? (all_bufs core left) i ≡ some a → a.flags ≡ 0
all_bufs-flags core zero i a e = absurd (ground (arith, e))
all_bufs-flags core (suc left) i a e =
    get_elem?-append-flags (pe_bufs core 0 16) (all_bufs (core + 1) left) i a
      (pe_bufs-flags core 0 16) (all_bufs-flags (core + 1) left) e

pub init-free :
    (high core i : ℕ) (a : RBuf)
    → core < 2 ^ 32
    → i < 2 ^ 32
    → get core i (init high).bufs ≡ some a
    → has_attached a.flags ≡ false
unfolding init
init-free high core i a l m e = ground (
  arith,
  all_bufs-flags 0 (high + 1) (core * 16 + i) a
      (sym (get_plain core i (all_bufs 0 (high + 1)) l m) ∙ e),
)

-- At first no buffer is attached.
pub init-IsValid : (high : ℕ) → IsValid (init high).bufs
init-IsValid high = (
  (λ core i a l m e h. ground (arith, h, init-free high core i a l (omega arith) e)),
  (λ core i j a b l m n d e f h k. ground (arith, h, init-free high core i a l (omega arith) e)),
)
