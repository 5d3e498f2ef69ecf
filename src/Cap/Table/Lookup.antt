-- ===== src/Cap/Table/Lookup.antt =====
-- Lookups in a capability table after the operations that change it.
use semper_os.Base.{
  ℕ, zero, suc, ◌+◌, ◌^◌, ◌≤◌, ◌<◌, ◌≡◌, ◌⊎◌, inl, inr, refl, Bool, true, false, Option, none, some,
  ◌↔◌, ◌==◌, if◌then◌else◌, arith,
}
use semper_os.Col.Treap
use semper_os.Col.Treap.Order
use semper_os.Col.Treap.Remove
use semper_os.Cap.Capability.{Capability, cap_type_to_item_type}
use semper_os.Cap.Table.{
  CapTable, get, used, unused, all_unused, all_used, range_unused, range_used, set, unset, cap_key,
  same_type_self, modify_in, modify,
}

-- The capabilities stand in search order, by distinct selectors of 32 bits.
abbrev pub IsValid : CapTable → Type 0
IsValid t = Order.IsSearchTree t.caps

all_used_from :
    (start count i : ℕ) (t : CapTable)
    → all_used start count t ≡ true
    → start ≤ i
    → i < start + count
    → used i t ≡ true
unfolding all_used
all_used_from start zero i t h p q = absurd (omega arith)
all_used_from start (suc count) i t h p q = ground (arith, all_used_from (suc start) count i t)

all_used_to :
    (start count : ℕ) (t : CapTable)
    → ((i : ℕ) → start ≤ i → i < start + count → used i t ≡ true)
    → all_used start count t ≡ true
unfolding all_used
all_used_to start zero t h = refl
all_used_to start (suc count) t h =
    ground
      (arith, h start, all_used_to (suc start) count t (λ i p q. h i (omega arith) (omega arith)))

all_unused_from :
    (start count i : ℕ) (t : CapTable)
    → all_unused start count t ≡ true
    → start ≤ i
    → i < start + count
    → unused i t ≡ true
unfolding all_unused used unused
all_unused_from start zero i t h p q = absurd (omega arith)
all_unused_from start (suc count) i t h p q = ground (arith, all_unused_from (suc start) count i t)

all_unused_to :
    (start count : ℕ) (t : CapTable)
    → ((i : ℕ) → start ≤ i → i < start + count → unused i t ≡ true)
    → all_unused start count t ≡ true
unfolding all_unused used unused
all_unused_to start zero t h = refl
all_unused_to start (suc count) t h =
    ground
      (arith, h start, all_unused_to (suc start) count t (λ i p q. h i (omega arith) (omega arith)))

-- On 32-bit selectors a range test answers true exactly if the range ends below 2 ^ 32 and the table
-- holds a capability at each selector of it, or at none of them.
pub range_used_iff :
    (start count : ℕ) (t : CapTable)
    → start < 2 ^ 32
    → count < 2 ^ 32
    → ((range_used start count t ≡ true) ↔ (
        ((count ≡ 0) ⊎ (start + count < 2 ^ 32))
        × ((i : ℕ) → start ≤ i → i < start + count → used i t ≡ true)))
      × ((range_unused start count t ≡ true) ↔ (
          ((count ≡ 0) ⊎ (start + count < 2 ^ 32))
          × ((i : ℕ) → start ≤ i → i < start + count → unused i t ≡ true)))
unfolding range_used range_unused
range_used_iff start count t p q = (
  (
    λ h. (ground arith, λ i a b. all_used_from start count i t (ground arith) a b),
    λ h. ground (arith, all_used_to start count t h.1, h.0),
  ),
  (
    λ h. (ground arith, λ i a b. all_unused_from start count i t (ground arith) a b),
    λ h. ground (arith, all_unused_to start count t h.1, h.0),
  ),
)

-- A capability is set at a free selector of its table: it is found there, under the key that names
-- the table's VPE, its item type and the selector, and no other selector changes.
pub get-set :
    (sel item : ℕ) (c : Capability) (t : CapTable)
    → sel < 2 ^ 32
    → IsValid t
    → get sel t ≡ none
    → c.table ≡ t.id
    → c.table_type ≡ t.type
    → c.sel ≡ sel
    → cap_type_to_item_type c.type ≡ some item
    → (t' : CapTable) × (set sel c t ≡ some (record c { id = cap_key t item sel }, t'))
      × IsValid t'
      × ((j : ℕ)
          → get j t' ≡ (if sel == j then some (record c { id = cap_key t item sel }) else get j t))
unfolding get set
get-set sel item c t p v e a b d f = (
  record t { caps = Treap.insert sel (record c { id = cap_key t item sel }) t.caps },
  ground (arith, same_type_self t.type),
  Order.insert-IsSearchTree sel _ t.caps p v e,
  λ j. Order.find-insert sel j _ t.caps v e,
)

pub IsValid-if : (b : Bool) (t u : CapTable) → IsValid t → IsValid u → IsValid (if b then t else u)
IsValid-if true t u h v = h
IsValid-if false t u h v = v

-- `unset` empties the one selector.
pub get-unset :
    (sel j : ℕ) (t : CapTable)
    → IsValid t
    → IsValid (unset sel t) × (get j (unset sel t) ≡ (if sel == j then none else get j t))
unfolding get unset
get-unset sel j t v = elim (Remove.remove-Removed sel t.caps v) [
  | inl (absent, e) ↦ rw (e, unset) (v, ground (arith, absent))
  | inr (s, e, valid, others) ↦ rw (e, unset) (valid, others j)
]

modify_in-Between :
    (lo hi sel : ℕ) (f : Capability → Capability) (s : Treap.Tree Capability)
    → Order.Between lo hi s
    → Order.Between lo hi (modify_in f sel s)
unfolding modify_in
modify_in-Between lo hi sel f Treap.leaf v = tt
modify_in-Between lo hi sel f (Treap.node k p c l r) v =
    ground (arith, modify_in-Between lo k sel f l v.2, modify_in-Between (suc k) hi sel f r v.3)

abbrev pub map_at : (Capability → Capability) → Bool → Option Capability → Option Capability
map_at f here none = none
map_at f here (some c) = some (if here then f c else c)

find_in-modify_in :
    (sel j : ℕ) (f : Capability → Capability) (s : Treap.Tree Capability)
    → Treap.find_in j (modify_in f sel s) ≡ map_at f (sel == j) (Treap.find_in j s)
unfolding modify_in Treap.find_in
find_in-modify_in sel j f Treap.leaf = refl
find_in-modify_in sel j f (Treap.node k p c l r) =
    ground (arith, find_in-modify_in sel j f l, find_in-modify_in sel j f r)

-- A write through the pointer to one capability leaves the others alone.
pub get-modify :
    (sel j : ℕ) (f : Capability → Capability) (t : CapTable)
    → IsValid t
    → IsValid (modify f sel t) × (get j (modify f sel t) ≡ map_at f (sel == j) (get j t))
unfolding get modify Treap.find
get-modify sel j f t v =
    (modify_in-Between 0 (2 ^ 32) sel f t.caps.root v, find_in-modify_in sel j f t.caps.root)
