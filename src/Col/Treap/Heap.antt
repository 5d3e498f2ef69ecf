-- ===== src/Col/Treap/Heap.antt =====
-- The priorities of a treap in heap order, and its size.
use semper_os.Base.{ℕ, suc, ◌+◌, ◌%◌, ◌^◌, ◌≤◌, ◌≡◌, Option, none, some, arith}
use semper_os.Col.Treap.{
  Tree, leaf, node, Treap, split, insert_in, insert, remove_from, remove_in, remove,
}

-- The place of a priority in the order of `int`.
abbrev pub rank : ℕ → ℕ
rank p = (p + 2 ^ 31) % 2 ^ 32

module _ {A : Type 0} where
  -- No node is of lower rank than the one above it, the topmost than `bound`.
  abbrev pub Above : ℕ → Tree A → Type 0
  Above bound leaf = Unit
  Above bound (node k p v l r) = (bound ≤ rank p) × Above (rank p) l × Above (rank p) r

  Above-lower : (a b : ℕ) (t : Tree A) → a ≤ b → Above b t → Above a t
  Above-lower a b leaf h g = tt
  Above-lower a b (node k p v l r) h g = (omega arith, g.1, g.2)

  split-Above :
      (b key : ℕ) (t : Tree A) → Above b t → Above b (split key t).0 × Above b (split key t).1
  unfolding split
  split-Above b key leaf h = (tt, tt)
  split-Above b key (node k p v l r) h = ground (
    arith,
    split-Above (rank p) key l h.1,
    split-Above (rank p) key r h.2,
    Above-lower b (rank p) (split key l).0 h.0,
    Above-lower b (rank p) (split key r).1 h.0,
  )

  insert_in-Above :
      (b key prio : ℕ) (v : A) (t : Tree A)
      → b ≤ rank prio
      → Above b t
      → Above b (insert_in key prio v t)
  unfolding insert_in
  insert_in-Above b key prio v leaf h g = (h, tt, tt)
  insert_in-Above b key prio v (node k p w l r) h g = ground (
    arith,
    split-Above (rank prio) key (node k p w l r),
    insert_in-Above (rank p) key prio v l,
    insert_in-Above (rank p) key prio v r,
  )

  remove_from-Above : (b : ℕ) (l r : Tree A) → Above b l → Above b r → Above b (remove_from l r)
  unfolding remove_from
  remove_from-Above b leaf r g h = h
  remove_from-Above b (node k p v l r) leaf g h = g
  remove_from-Above b (node k p v l r) (node k' p' v' l' r') g h = ground (
    arith,
    remove_from-Above (rank p) r (node k' p' v' l' r') g.2,
    remove_from-Above (rank p') (node k p v l r) l',
  )

  abbrev pub size_in : Tree A → ℕ
  size_in leaf = 0
  size_in (node k p v l r) = suc (size_in l + size_in r)

  size_in-remove_from : (l r : Tree A) → size_in (remove_from l r) ≡ size_in l + size_in r
  unfolding remove_from
  size_in-remove_from leaf r = omega arith
  size_in-remove_from (node k p v l r) leaf = omega arith
  size_in-remove_from (node k p v l r) (node k' p' v' l' r') =
      ground (
        arith,
        size_in-remove_from r (node k' p' v' l' r'),
        size_in-remove_from (node k p v l r) l',
      )

  -- A tree that a removal yields: in heap order below `b`, and one node smaller than `n`.
  abbrev Shrunk : ℕ → ℕ → Option (Tree A) → Type 0
  Shrunk b n none = Unit
  Shrunk b n (some s) = Above b s × (suc (size_in s) ≡ n)

  remove_in-Shrunk : (b key : ℕ) (t : Tree A) → Above b t → Shrunk b (size_in t) (remove_in key t)
  unfolding remove_in
  remove_in-Shrunk b key leaf h = tt
  remove_in-Shrunk b key (node k p v l r) h = ground (
    arith,
    remove_in-Shrunk (rank p) key l h.1,
    remove_in-Shrunk (rank p) key r h.2,
    remove_from-Above b l r (Above-lower b (rank p) l h.0 h.1) (Above-lower b (rank p) r h.0 h.2),
    size_in-remove_from l r,
  )

  abbrev pub IsHeap : Treap A → Type 0
  IsHeap t = Above 0 t.root

  -- `insert` keeps the heap order of the priorities.
  insert-IsHeap : (key : ℕ) (v : A) (t : Treap A) → IsHeap t → IsHeap (insert key v t)
  unfolding insert
  insert-IsHeap key v t h = insert_in-Above 0 key t.prio v t.root (omega arith) h

  -- `remove` keeps the heap order and takes out one node.
  remove-IsHeap :
      (key : ℕ) (t s : Treap A)
      → IsHeap t
      → remove key t ≡ some s
      → IsHeap s × (suc (size_in s.root) ≡ size_in t.root)
  unfolding remove
  remove-IsHeap key t s h e = ground (arith, remove_in-Shrunk 0 key t.root h)
