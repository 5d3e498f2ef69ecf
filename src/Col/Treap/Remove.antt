-- ===== src/Col/Treap/Remove.antt =====
-- Removal from a treap: it takes out the one key, and keeps the search order.
use semper_os.Base.{
  ℕ, suc, ◌^◌, ◌≤◌, ◌<◌, ◌≡◌, refl, sym, subst, Option-cases, Option, none, some, ◌==◌, ltb,
  if◌then◌else◌, compare_cases, arith, ◌⊎◌, inl, inr,
}
use semper_os.Col.Treap.{Tree, leaf, node, Treap, find_in, find, remove_from, remove_in, remove}
use semper_os.Col.Treap.Order.{Between, Between-widen, find_in-outside, IsSearchTree}

module _ {A : Type 0} where
  remove_from-Between :
      (lo mid hi : ℕ) (l r : Tree A)
      → lo ≤ mid
      → mid ≤ hi
      → Between lo mid l
      → Between mid hi r
      → Between lo hi (remove_from l r)
  unfolding remove_from
  remove_from-Between lo mid hi leaf r p q bl br = Between-widen mid hi lo hi r p (omega arith) br
  remove_from-Between lo mid hi (node k p v l r) leaf h g bl br =
      Between-widen lo mid lo hi (node k p v l r) (omega arith) g bl
  remove_from-Between lo mid hi (node k p v l r) (node k' p' v' l' r') h g bl br = ground (
    arith,
    remove_from-Between (suc k) mid hi r (node k' p' v' l' r'),
    remove_from-Between lo mid k' (node k p v l r) l',
  )

  find_in-remove_from :
      (lo mid hi j : ℕ) (l r : Tree A)
      → Between lo mid l
      → Between mid hi r
      → find_in j (remove_from l r) ≡ (if ltb j mid then find_in j l else find_in j r)
  unfolding find_in remove_from
  find_in-remove_from lo mid hi j leaf r bl br = ground (arith, find_in-outside mid hi j r br)
  find_in-remove_from lo mid hi j (node k p v l r) leaf bl br =
      ground (arith, find_in-outside lo mid j (node k p v l r) bl)
  find_in-remove_from lo mid hi j (node k p v l r) (node k' p' v' l' r') bl br = ground (
    arith,
    find_in-remove_from (suc k) mid hi j r (node k' p' v' l' r') bl.3 br,
    find_in-remove_from lo mid k' j (node k p v l r) l' bl br.2,
    find_in-outside lo k j l bl.2,
    find_in-outside (suc k') hi j r' br.3,
  )

  -- What the removal of `key` from `t` yields: nothing if `key` is not there, and else a search tree
  -- with the other keys.
  abbrev Removed : ℕ → ℕ → ℕ → Tree A → Option (Tree A) → Type 0
  Removed lo hi key t none = find_in key t ≡ none
  Removed lo hi key t (some s) =
      Between lo hi s × ((j : ℕ) → find_in j s ≡ (if key == j then none else find_in j t))

  abbrev replace_left : ℕ → ℕ → A → Tree A → Option (Tree A) → Option (Tree A)
  replace_left k p v r o = elim o [ none ↦ none | some l' ↦ some (node k p v l' r) ]

  abbrev replace_right : ℕ → ℕ → A → Tree A → Option (Tree A) → Option (Tree A)
  replace_right k p v l o = elim o [ none ↦ none | some r' ↦ some (node k p v l r') ]

  module _ (lo hi key k p : ℕ) (v : A) (l r : Tree A) (b : Between lo hi (node k p v l r)) where
    replace_left-Removed :
        (o : Option (Tree A))
        → key < k
        → Removed lo k key l o
        → Removed lo hi key (node k p v l r) (replace_left k p v r o)
    unfolding find_in
    replace_left-Removed none h m = ground arith
    replace_left-Removed (some l') h m =
        ((b.0, b.1, m.0, b.3), λ j. ground (arith, m.1 j, find_in-outside (suc k) hi j r b.3))

    replace_right-Removed :
        (o : Option (Tree A))
        → k < key
        → Removed (suc k) hi key r o
        → Removed lo hi key (node k p v l r) (replace_right k p v l o)
    unfolding find_in
    replace_right-Removed none h m = ground arith
    replace_right-Removed (some r') h m =
        ((b.0, b.1, b.2, m.0), λ j. ground (arith, m.1 j, find_in-outside lo k j l b.2))

    here-Removed : k ≡ key → Removed lo hi key (node k p v l r) (some (remove_from l r))
    unfolding find_in
    here-Removed e = (
      remove_from-Between lo k hi l r b.0 (omega arith) b.2
          (Between-widen (suc k) hi k hi r (omega arith) (omega arith) b.3),
      λ j. ground (
        arith,
        find_in-remove_from lo k hi j l r b.2
            (Between-widen (suc k) hi k hi r (omega arith) (omega arith) b.3),
        find_in-outside lo k j l b.2,
        find_in-outside (suc k) hi j r b.3,
      ),
    )

  remove_in-Removed :
      (lo hi key : ℕ) (t : Tree A) → Between lo hi t → Removed lo hi key t (remove_in key t)
  unfolding remove_in find_in
  remove_in-Removed lo hi key leaf b = refl
  remove_in-Removed lo hi key (node k p v l r) b = elim (compare_cases k key) [
    | inl e ↦ became (some (remove_from l r)) (ground arith) (here-Removed lo hi key k p v l r b e)
    | inr (inl h) ↦
        became (replace_left k p v r (remove_in key l)) (ground arith)
          (replace_left-Removed lo hi key k p v l r b _ h (remove_in-Removed lo k key l b.2))
    | inr (inr h) ↦
        became (replace_right k p v l (remove_in key r)) (ground arith)
          (replace_right-Removed lo hi key k p v l r b _ h (remove_in-Removed (suc k) hi key r b.3))
  ]
    where
      became :
          (o : Option (Tree A))
          → remove_in key (node k p v l r) ≡ o
          → Removed lo hi key (node k p v l r) o
          → Removed lo hi key (node k p v l r) (remove_in key (node k p v l r))
      became o e m = subst (Removed lo hi key (node k p v l r)) (sym e) m

  -- `remove` finds the key's node, or there was none; it removes that key alone and keeps the order.
  pub remove-Removed :
      (key : ℕ) (t : Treap A)
      → IsSearchTree t
      → ((find key t ≡ none) × (remove key t ≡ none))
        ⊎ ((s : Treap A) × (remove key t ≡ some s)
            × IsSearchTree s
            × ((j : ℕ) → find j s ≡ (if key == j then none else find j t)))
  unfolding find remove
  remove-Removed key t b = elim (Option-cases (remove_in key t.root)) [
    | inl e ↦ inl (subst (Removed 0 (2 ^ 32) key t.root) e found, rw (e, remove))
    | inr (s, e) ↦
        let m = subst (Removed 0 (2 ^ 32) key t.root) e found in
        inr (record t { root = s }, rw (e, remove), m.0, m.1)
  ]
    where
      found : Removed 0 (2 ^ 32) key t.root (remove_in key t.root)
      found = remove_in-Removed 0 (2 ^ 32) key t.root b
