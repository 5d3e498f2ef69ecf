-- ===== src/Cap/Table.antt =====
-- apps/kernel/cap/CapTable.{h,cc}: the capabilities of a VPE by selector. `none` as a result is an
-- assertion that fails, or a panic.
pub mod Lookup
use semper_os.Base.{
  ℕ, zero, suc, ◌+◌, ◌%◌, ◌^◌, Bool, true, false, not, ◌&&◌, ◌||◌, List, [], ◌∷◌, ◌++◌, Option,
  none, some, ltb, ◌==◌, if◌then◌else◌, bit_and, ◌≡◌, refl,
}
use semper_os.Col.Treap.{Tree, leaf, node, Treap}
use semper_os.Col.Treap
use semper_os.Ddl.Hash.{structured_hash}
use semper_os.Cap.Capability.{Capability, TableType, cap_type_to_item_type}

pub record CapTable : Type 0 where
  pub id : ℕ
  pub type : TableType
  pub caps : Treap Capability
  pub reserved : List ℕ

unfoldable pub cap_table : ℕ → TableType → CapTable
unfolding Treap.empty
cap_table id type = record { id = id; type = type; caps = Treap.empty; reserved = [] }

unfoldable pub get : ℕ → CapTable → Option Capability
get sel t = Treap.find sel t.caps

-- `get(i, types)`.
unfoldable pub get_typed : ℕ → ℕ → CapTable → Option Capability
unfolding get
get_typed sel types t = elim (get sel t) [
  | none ↦ none
  | some c ↦ if bit_and c.type types == 0 then none else some c
]

abbrev pub is_some {ℓ} : {A : Type ℓ} → Option A → Bool
is_some none = false
is_some (some a) = true

unfoldable pub used : ℕ → CapTable → Bool
unfolding get
used sel t = is_some (get sel t)

unfoldable pub unused : ℕ → CapTable → Bool
unfolding get
unused sel t = not (is_some (get sel t))

-- Selectors and counts are 32-bit words.
unfoldable pub range_valid : ℕ → ℕ → Bool
range_valid start count = (count == 0) || ltb start ((start + count) % 2 ^ 32)

-- The loops of `range_unused` and `range_used`. In a valid range the end does not wrap, so they make
-- `count` rounds.
unfoldable pub all_unused : ℕ → ℕ → CapTable → Bool
unfolding used
all_unused start zero t = true
all_unused start (suc count) t =
    let rest = all_unused (suc start) count t in if used start t then false else rest

unfoldable pub all_used : ℕ → ℕ → CapTable → Bool
unfolding used
all_used start zero t = true
all_used start (suc count) t =
    let rest = all_used (suc start) count t in if used start t then rest else false

unfoldable pub range_unused : ℕ → ℕ → CapTable → Bool
unfolding range_valid all_unused
range_unused start count t = if range_valid start count then all_unused start count t else false

unfoldable pub range_used : ℕ → ℕ → CapTable → Bool
unfolding range_valid all_used
range_used start count t = if range_valid start count then all_used start count t else false

abbrev pub same_type : TableType → TableType → Bool
same_type TableType.obj TableType.obj = true
same_type TableType.map TableType.map = true
same_type _ _ = false

pub same_type_self : (t : TableType) → same_type t t ≡ true
same_type_self TableType.obj = refl
same_type_self TableType.map = refl

-- The key of a capability in this table. VPE id and PE id are the same.
unfoldable pub cap_key : CapTable → ℕ → ℕ → ℕ
cap_key t item_type sel = structured_hash t.id t.id item_type sel

-- `set`: the capability gets its key as it is inserted.
unfoldable pub set : ℕ → Capability → CapTable → Option (Capability × CapTable)
unfolding get cap_key
set sel c t =
    if not (is_some (get sel t))
      && (c.table == t.id)
      && same_type c.table_type t.type
      && (c.sel == sel)
    then (elim (cap_type_to_item_type c.type) [
      | none ↦ none
      | some item ↦
          let c' = record c { id = cap_key t item sel } in
          some (c', record t { caps = Treap.insert sel c' t.caps })
    ])
    else none

unfoldable pub unset : ℕ → CapTable → CapTable
unset sel t = elim (Treap.remove sel t.caps) [ none ↦ t | some rest ↦ record t { caps = rest } ]

unfoldable pub reserve : ℕ → CapTable → Option CapTable
unfolding get
reserve sel t =
    if is_some (get sel t) then none else some (record t { reserved = t.reserved ++ sel ∷ [] })

unfoldable pub remove_first : ℕ → List ℕ → List ℕ
remove_first sel [] = []
remove_first sel (r ∷ rest) = if r == sel then rest else r ∷ remove_first sel rest

unfoldable pub release : ℕ → CapTable → CapTable
unfolding remove_first
release sel t = record t { reserved = remove_first sel t.reserved }

-- A write through the pointer to the capability at a selector.
unfoldable pub modify_in : (Capability → Capability) → ℕ → Tree Capability → Tree Capability
modify_in f sel leaf = leaf
modify_in f sel (node k p c l r) =
    if k == sel then node k p (f c) l r else node k p c (modify_in f sel l) (modify_in f sel r)

unfoldable pub modify : (Capability → Capability) → ℕ → CapTable → CapTable
unfolding modify_in
modify f sel t = record t {
  caps = record { prio = t.caps.prio; root = modify_in f sel t.caps.root };
}
