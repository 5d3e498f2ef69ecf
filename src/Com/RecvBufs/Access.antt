-- ===== src/Com/RecvBufs/Access.antt =====
-- How `get` finds the receive buffers, and what a write changes.
use semper_os.Base.{
  ℕ, zero, suc, ◌+◌, ◌*◌, ◌^◌, ◌≤◌, ◌<◌, List, [], ◌∷◌, none, some, ◌≡◌, ◌≢◌, refl, sym, ◌∙◌, inl,
  inr, ap, arith, length, get_elem?, set, get_elem?-set_self, get_elem?-set_ne, Option-cases,
}
use semper_os.Com.RecvBufs.{RBuf, get, put}

pub get_elem?-inside :
    {A : Type 0} (xs : List A) (i : ℕ) → i < length xs → (x : A) × (get_elem? xs i ≡ some x)
get_elem?-inside [] i l = absurd (omega (arith, l))
get_elem?-inside (x ∷ xs) zero l = (x, refl)
get_elem?-inside (x ∷ xs) (suc i) l = get_elem?-inside xs i (omega arith)

pub length-get_elem? :
    {A : Type 0} (xs : List A) (i : ℕ) (x : A) → get_elem? xs i ≡ some x → i < length xs
length-get_elem? [] i x e = ground (arith, e)
length-get_elem? (y ∷ xs) zero x e = omega arith
length-get_elem? (y ∷ xs) (suc i) x e = omega (arith, length-get_elem? xs i x e)

beyond :
    {A : Type 0} (xs : List A) (i j : ℕ) → i ≤ j → get_elem? xs i ≡ none → get_elem? xs j ≡ none
beyond xs i j l e = elim (Option-cases (get_elem? xs j)) [
  | inl n ↦ n
  | inr (y, f) ↦
      let (x, g) = get_elem?-inside xs i (omega (arith, length-get_elem? xs j y f)) in
      ground (arith, e, g)
]

-- For the ids of PEs and endpoints that occur, the assertion of `get` holds where the buffer exists.
pub get_plain :
    (core ep : ℕ) (bufs : List RBuf)
    → core < 2 ^ 32
    → ep < 2 ^ 32
    → get core ep bufs ≡ get_elem? bufs (core * 16 + ep)
unfolding get
get_plain core ep bufs l m = elim (Option-cases (get_elem? bufs (core + ep))) [
  | inl e ↦ ground (arith, e, beyond bufs (core + ep) (core * 16 + ep) (omega arith) e)
  | inr (x, e) ↦ ground (arith, e)
]

pub get_inside :
    (core ep : ℕ) (bufs : List RBuf)
    → core < 2 ^ 32
    → ep < 2 ^ 32
    → core * 16 + ep < length bufs
    → (r : RBuf) × (get core ep bufs ≡ some r)
get_inside core ep bufs l m h =
    let (r, e) = get_elem?-inside bufs (core * 16 + ep) h in (r, get_plain core ep bufs l m ∙ e)

pub put_plain :
    (core ep : ℕ) (r : RBuf) (bufs : List RBuf)
    → core < 2 ^ 32
    → ep < 2 ^ 32
    → put core ep r bufs ≡ set bufs (core * 16 + ep) r
put_plain core ep r bufs l m = ap (λ i. set bufs i r) (omega arith)

-- Two pairs of a PE and an endpoint that name one place of the array.
pub get-put_self :
    (core ep c i : ℕ) (r s : RBuf) (bufs : List RBuf)
    → core < 2 ^ 32
    → ep < 2 ^ 32
    → c < 2 ^ 32
    → i < 2 ^ 32
    → core * 16 + ep ≡ c * 16 + i
    → get core ep bufs ≡ some s
    → get c i (put core ep r bufs) ≡ some r
get-put_self core ep c i r s bufs l m n o q e =
    get_plain c i (put core ep r bufs) n o
    ∙ ap (λ xs. get_elem? xs (c * 16 + i)) (put_plain core ep r bufs l m)
    ∙ ap (λ j. get_elem? (set bufs (core * 16 + ep) r) j) (sym q)
    ∙ get_elem?-set_self bufs (core * 16 + ep) r
        (length-get_elem? bufs (core * 16 + ep) s (sym (get_plain core ep bufs l m) ∙ e))

pub get-put_other :
    (core ep c i : ℕ) (r : RBuf) (bufs : List RBuf)
    → core < 2 ^ 32
    → ep < 2 ^ 32
    → c < 2 ^ 32
    → i < 2 ^ 32
    → core * 16 + ep ≢ c * 16 + i
    → get c i (put core ep r bufs) ≡ get c i bufs
get-put_other core ep c i r bufs l m n o q =
    get_plain c i (put core ep r bufs) n o
    ∙ ap (λ xs. get_elem? xs (c * 16 + i)) (put_plain core ep r bufs l m)
    ∙ get_elem?-set_ne bufs r q
    ∙ sym (get_plain c i bufs n o)
