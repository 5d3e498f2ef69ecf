-- ===== src/Col/Treap/Order.antt =====
-- The keys of a treap in search order.
use semper_os.Base.{
  ℕ, suc, ◌^◌, ◌≤◌, ◌<◌, ◌≡◌, ◌⊎◌, refl, sym, if_same, none, some, ltb, ◌==◌, if◌then◌else◌, arith,
}
use semper_os.Col.Treap.{Tree, leaf, node, Treap, find_in, find, split, insert_in, insert}

module _ {A : Type 0} where
  -- Distinct keys from `lo` up to `hi`, in search order.
  abbrev pub Between : ℕ → ℕ → Tree A → Type 0
  Between lo hi leaf = Unit
  Between lo hi (node k p v l r) = (lo ≤ k) × (k < hi) × Between lo k l × Between (suc k) hi r

  pub Between-widen :
      (lo hi lo' hi' : ℕ) (t : Tree A) → lo' ≤ lo → hi ≤ hi' → Between lo hi t → Between lo' hi' t
  Between-widen lo hi lo' hi' leaf h g b = tt
  Between-widen lo hi lo' hi' (node k p v l r) h g b = (
    omega arith,
    omega arith,
    Between-widen lo k lo' k l h (omega arith) b.2,
    Between-widen (suc k) hi (suc k) hi' r (omega arith) g b.3,
  )

  pub find_in-outside :
      (lo hi j : ℕ) (t : Tree A) → Between lo hi t → (j < lo) ⊎ (hi ≤ j) → find_in j t ≡ none
  unfolding find_in
  find_in-outside lo hi j leaf b h = refl
  find_in-outside lo hi j (node k p v l r) b h =
      ground (arith, find_in-outside lo k j l b.2, find_in-outside (suc k) hi j r b.3)

  split-Between :
      (lo hi key : ℕ) (t : Tree A)
      → Between lo hi t
      → find_in key t ≡ none
      → Between lo key (split key t).0 × Between (suc key) hi (split key t).1
  unfolding find_in split
  split-Between lo hi key leaf b h = (tt, tt)
  split-Between lo hi key (node k p v l r) b h =
      ground (arith, split-Between lo k key l b.2, split-Between (suc k) hi key r b.3)

  -- What the two halves of a split hold.
  find_in-split :
      (lo hi key j : ℕ) (t : Tree A)
      → Between lo hi t
      → find_in key t ≡ none
      → find_in j t ≡ (if ltb j key then find_in j (split key t).0 else find_in j (split key t).1)
  unfolding find_in split
  find_in-split lo hi key j leaf b h = sym (if_same (ltb j key) none)
  find_in-split lo hi key j (node k p v l r) b h = ground (
    arith,
    find_in-split lo k key j l b.2,
    find_in-split (suc k) hi key j r b.3,
    find_in-outside lo k j l b.2,
    find_in-outside (suc k) hi j r b.3,
  )

  insert_in-Between :
      (lo hi key prio : ℕ) (v : A) (t : Tree A)
      → lo ≤ key
      → key < hi
      → Between lo hi t
      → find_in key t ≡ none
      → Between lo hi (insert_in key prio v t)
  unfolding find_in insert_in
  insert_in-Between lo hi key prio v leaf h g b e = (h, g, tt, tt)
  insert_in-Between lo hi key prio v (node k p w l r) h g b e = ground (
    arith,
    split-Between lo hi key (node k p w l r) b e,
    insert_in-Between lo k key prio v l h,
    insert_in-Between (suc k) hi key prio v r,
  )

  find_in-insert_in :
      (lo hi key prio j : ℕ) (v : A) (t : Tree A)
      → Between lo hi t
      → find_in key t ≡ none
      → find_in j (insert_in key prio v t) ≡ (if key == j then some v else find_in j t)
  unfolding find_in insert_in
  find_in-insert_in lo hi key prio j v leaf b e = ground arith
  find_in-insert_in lo hi key prio j v (node k p w l r) b e = ground (
    arith,
    find_in-split lo hi key j (node k p w l r) b e,
    find_in-insert_in lo k key prio j v l b.2,
    find_in-insert_in (suc k) hi key prio j v r b.3,
  )

module _ {A : Type 0} where
  -- The keys are `capsel_t`, so they lie below 2 ^ 32.
  abbrev pub IsSearchTree : Treap A → Type 0
  IsSearchTree t = Between 0 (2 ^ 32) t.root

  pub insert-IsSearchTree :
      (key : ℕ) (v : A) (t : Treap A)
      → key < 2 ^ 32
      → IsSearchTree t
      → find key t ≡ none
      → IsSearchTree (insert key v t)
  unfolding find insert
  insert-IsSearchTree key v t h b e =
      insert_in-Between 0 (2 ^ 32) key t.prio v t.root (omega arith) h b e

  -- `insert` of a key that is not there binds that key, and no other lookup changes.
  pub find-insert :
      (key j : ℕ) (v : A) (t : Treap A)
      → IsSearchTree t
      → find key t ≡ none
      → find j (insert key v t) ≡ (if key == j then some v else find j t)
  unfolding find insert
  find-insert key j v t b e = find_in-insert_in 0 (2 ^ 32) key t.prio j v t.root b e
