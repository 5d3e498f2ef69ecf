-- ===== src/Cap/Obtain.antt =====
-- How a table gets copies: `obtain`, `inherit_and_set` and `setparent_and_set` of
-- apps/kernel/cap/CapTable.cc.
pub mod Linked
pub mod Frame
pub mod Copy
use semper_os.Base.{ℕ, Option, none, some, if◌then◌else◌}
use semper_os.Ddl.Members.{key_locality}
use semper_os.Cap.Capability.{TableType, Capability, clone}
use semper_os.Cap.Children.{add_child}
use semper_os.Cap.Table.{set, modify}
use semper_os.Cap.Kernel.{Kernel, table_of, put_table}

-- `setparent_and_set`, which gives the child as it is in the table; `none` is a failed assertion.
unfoldable pub setparent_and_set :
    TableType → ℕ → ℕ → Capability → ℕ → Kernel → Option (Capability × Kernel)
unfolding set table_of put_table
setparent_and_set type vpe parent child dst k =
    elim (set dst (record child { parent = parent }) (table_of type vpe k)) [
      | none ↦ none
      | some (c, t) ↦ some (c, put_table type vpe t k)
    ]

-- The parent, which is in a table of this kernel, gets the child.
unfoldable pub link_child : Capability → ℕ → Kernel → Kernel
unfolding key_locality add_child table_of put_table modify
link_child p child k =
    let grown =
      modify (λ c. record c { children = add_child k.members child c.children }) p.sel
        (table_of p.table_type p.table k) in
    if key_locality k.members p.id then put_table p.table_type p.table grown k else k

unfoldable pub inherit_and_set :
    TableType → ℕ → Capability → Capability → ℕ → Kernel → Option (Capability × Kernel)
unfolding setparent_and_set link_child
inherit_and_set type vpe parent child dst k =
    elim (setparent_and_set type vpe parent.id child dst k) [
      | none ↦ none
      | some (c, k') ↦ some (c, link_child parent c.id k')
    ]

-- `obtain`, from a capability that is there. A capability without copies gives a null pointer, and
-- nothing changes.
unfoldable pub obtain :
    TableType → ℕ → ℕ → Capability → Kernel → Option (Option Capability × Kernel)
unfolding clone inherit_and_set
obtain type vpe dst c k = elim (clone c type vpe dst k.objects) [
  | none ↦ some (none, k)
  | some (nc, w) ↦ elim (inherit_and_set type vpe c nc dst (record k { objects = w })) [
    | none ↦ none
    | some (nc', k') ↦ some (some nc', k')
  ]
]
