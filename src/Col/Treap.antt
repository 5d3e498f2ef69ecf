-- ===== src/Col/Treap.antt =====
-- include/base/col/Treap.h. A node holds its subtrees in place of pointers to them; nodes are told
-- apart by their keys, which the users of a treap keep distinct.
pub mod Order
pub mod Heap
pub mod Remove
use semper_os.Base.{
  ℕ, suc, ◌+◌, ◌%◌, ◌^◌, ◌≡◌, refl, Bool, true, false, Option, none, some, ltb, ◌==◌, if◌then◌else◌,
}

pub data Tree {ℓ} (A : Type ℓ) : Type ℓ where
  leaf : Tree A
  node : (key prio : ℕ) → A → Tree A → Tree A → Tree A

-- `_prio` of a treap is the priority of the next node.
pub record Treap {ℓ} (A : Type ℓ) : Type ℓ where
  pub prio : ℕ
  pub root : Tree A

-- `a < b` on `int`, of which the numbers are the bit patterns.
abbrev pub int_lt : ℕ → ℕ → Bool
int_lt a b = ltb ((a + 2 ^ 31) % 2 ^ 32) ((b + 2 ^ 31) % 2 ^ 32)

-- `_prio += 0x9e3779b9` wraps.
unfoldable pub next_prio : ℕ → ℕ
next_prio p = (p + 0x9e3779b9) % 2 ^ 32

module _ {ℓ} {A : Type ℓ} where
  unfoldable pub empty : Treap A
  empty = record { prio = 314159265; root = leaf }

  -- The loop of `find`.
  unfoldable pub find_in : ℕ → Tree A → Option A
  find_in key leaf = none
  find_in key (node k p v l r) =
      if k == key
      then some v
      else let left = find_in key l in
        let right = find_in key r in if ltb key k then left else right

  unfoldable pub find : ℕ → Treap A → Option A
  unfolding find_in
  find key t = find_in key t.root

  -- The second loop of `insert`: a search tree is split in two by a key.
  unfoldable pub split : ℕ → Tree A → Tree A × Tree A
  split key leaf = (leaf, leaf)
  split key (node k p v l r) =
      let left = split key l in
      let right = split key r in
      if ltb key k then (left.0, node k p v left.1 r) else (node k p v l right.0, right.1)

  -- The first loop finds the place by priority; the new node takes the split tree below it.
  unfoldable pub insert_in : ℕ → ℕ → A → Tree A → Tree A
  unfolding split
  insert_in key prio v leaf = node key prio v leaf leaf
  insert_in key prio v (node k p w l r) =
      let here = split key (node k p w l r) in
      let left = insert_in key prio v l in
      let right = insert_in key prio v r in
      if int_lt p prio
      then (if ltb key k then node k p w left r else node k p w l right)
      else node key prio v here.0 here.1

  unfoldable pub insert : ℕ → A → Treap A → Treap A
  unfolding insert_in next_prio
  insert key v t = record { prio = next_prio t.prio; root = insert_in key t.prio v t.root }

  -- `remove_from`, on the subtrees of the node that goes: what takes its place.
  unfoldable pub remove_from : Tree A → Tree A → Tree A
  remove_from leaf r = r
  remove_from (node k p v l r) leaf = node k p v l r
  remove_from (node k p v l r) (node k' p' v' l' r') =
      let with_left = remove_from r (node k' p' v' l' r') in
      let with_right = remove_from (node k p v l r) l' in
      if int_lt p p' then node k p v l with_left else node k' p' v' with_right r'

  -- `none` where the loop of `remove` ends at no node, which its assertion excludes.
  unfoldable pub remove_in : ℕ → Tree A → Option (Tree A)
  unfolding remove_from
  remove_in key leaf = none
  remove_in key (node k p v l r) =
      let left = remove_in key l in
      let right = remove_in key r in
      if k == key
      then some (remove_from l r)
      else if ltb key k
      then (elim left [ none ↦ none | some l' ↦ some (node k p v l' r) ])
      else (elim right [ none ↦ none | some r' ↦ some (node k p v l r') ])

  unfoldable pub remove : ℕ → Treap A → Option (Treap A)
  unfolding remove_in
  remove key t = elim (remove_in key t.root) [ none ↦ none | some s ↦ some (record t { root = s }) ]

  -- `remove_root`: the key and the entry of the root, and the treap without it.
  unfoldable pub remove_root_in : Tree A → Option (ℕ × A × Tree A)
  unfolding remove_from
  remove_root_in leaf = none
  remove_root_in (node k p v l r) = some (k, v, remove_from l r)

  unfoldable pub remove_root : Treap A → Option (ℕ × A × Treap A)
  unfolding remove_root_in
  remove_root t = elim (remove_root_in t.root) [
    | none ↦ none
    | some (k, v, s) ↦ some (k, v, record t { root = s })
  ]
