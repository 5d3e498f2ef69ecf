-- ===== src/Sys/Exchange/Sources.antt =====
-- What an exchange expects of the source, and what it leaves.
use semper_os.Base.{
  ℕ, ◌+◌, ◌<◌, ◌≤◌, ◌≡◌, refl, Bool, true, false, ◌&&◌, [], Option, none, some, leb, ltb, arith,
}
use semper_os.Ddl.Members.{Members, key_locality}
use semper_os.Cap.Capability.{TableType, Capability, cap_type_to_item_type}
use semper_os.Cap.Table.Lookup.{map_at}
use semper_os.Cap.Kernel.{Kernel, table_of}
use semper_os.Cap.Obtain.Linked.{at, with_child, same_table, AllTablesValid}
use semper_os.Cap.Obtain.Copy.{is_service, copied}

-- A capability but for its children.
abbrev pub trimmed : Option Capability → Option Capability
trimmed none = none
trimmed (some c) = some (record c { children = [] })

-- What is expected at a selector: a copy of what the source holds, if anything.
abbrev pub copy_of : TableType → ℕ → ℕ → ℕ → Option Capability → Option Capability
copy_of type vpe dst item none = none
copy_of type vpe dst item (some c) = some (copied type vpe dst item c)

-- A capability of a VPE's table can be copied: it knows its place, its key is with this kernel, and
-- it is no service.
abbrev pub IsSource : Members → TableType → ℕ → ℕ → Capability → Type 0
IsSource m type vpe sel c =
    (c.table ≡ vpe)
    × (c.table_type ≡ type)
    × (c.sel ≡ sel)
    × (key_locality m c.id ≡ true)
    × (is_service c.body ≡ false)
    × ((item : ℕ) × (cap_type_to_item_type c.type ≡ some item))

-- What holds of a capability, if there is one.
abbrev pub IfSome : (Capability → Type 0) → Option Capability → Type 0
IfSome P none = Unit
IfSome P (some c) = P c

-- All tables are valid, and that of `vpe` has its name.
abbrev pub IsReady : Kernel → TableType → ℕ → Type 0
IsReady k type vpe =
    AllTablesValid k × ((table_of type vpe k).id ≡ vpe) × ((table_of type vpe k).type ≡ type)

-- Each capability of a range is a source.
abbrev pub AreSources : Kernel → TableType → ℕ → ℕ → ℕ → Type 0
AreSources k type vpe from count =
    (s : ℕ) → from ≤ s → s < from + count → IfSome (IsSource k.members type vpe s) (at k type vpe s)

abbrev pub AreFree : Kernel → TableType → ℕ → ℕ → ℕ → Type 0
AreFree k type vpe to count = (t : ℕ) → to ≤ t → t < to + count → at k type vpe t ≡ none

abbrev pub or_zero : Option ℕ → ℕ
or_zero none = 0
or_zero (some n) = n

-- The item type of a source.
abbrev pub item_of : Option Capability → ℕ
item_of none = 0
item_of (some c) = or_zero (cap_type_to_item_type c.type)

-- Is a slot in the range of a table?
abbrev pub inside : TableType → ℕ → ℕ → ℕ → TableType → ℕ → ℕ → Bool
inside type vpe start count type' vpe' sel =
    same_table type vpe type' vpe' && (leb start sel && ltb sel (start + count))

-- A range of `dst` has copies of a range of `src`, and all other slots are the same but for children.
abbrev pub Copied : TableType → (src dst from to count : ℕ) → Kernel → Kernel → Type 0
Copied type src dst from to count k k' =
    ((s t : ℕ)
      → from ≤ s
      → s < from + count
      → t + from ≡ s + to
      → trimmed (at k' type dst t)
        ≡ copy_of type dst t (item_of (at k type src s)) (at k type src s))
    × ((type' : TableType) (vpe' sel : ℕ)
        → inside type dst to count type' vpe' sel ≡ false
        → trimmed (at k' type' vpe' sel) ≡ trimmed (at k type' vpe' sel))

pub trimmed-map_at :
    (m : Members) (child : ℕ) (b : Bool) (o : Option Capability)
    → trimmed (map_at (with_child m child) b o) ≡ trimmed o
trimmed-map_at m child b none = refl
trimmed-map_at m child true (some c) = refl
trimmed-map_at m child false (some c) = refl

pub copy_of-trimmed :
    (type : TableType) (vpe dst : ℕ) (o : Option Capability)
    → copy_of type vpe dst (item_of (trimmed o)) (trimmed o) ≡ copy_of type vpe dst (item_of o) o
copy_of-trimmed type vpe dst none = refl
copy_of-trimmed type vpe dst (some c) = refl

pub to_trimmed :
    (m : Members) (type : TableType) (vpe sel : ℕ) (o : Option Capability)
    → IfSome (IsSource m type vpe sel) o
    → IfSome (IsSource m type vpe sel) (trimmed o)
to_trimmed m type vpe sel none u = u
to_trimmed m type vpe sel (some c) u = u

pub from_trimmed :
    (m : Members) (type : TableType) (vpe sel : ℕ) (o : Option Capability)
    → IfSome (IsSource m type vpe sel) (trimmed o)
    → IfSome (IsSource m type vpe sel) o
from_trimmed m type vpe sel none u = u
from_trimmed m type vpe sel (some c) u = u

pub trimmed-none : (o : Option Capability) → trimmed o ≡ none → o ≡ none
trimmed-none none e = refl
trimmed-none (some c) e = ground (arith, e)
