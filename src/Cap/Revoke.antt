-- ===== src/Cap/Revoke.antt =====
-- The revocation of capabilities: `revoke_rec`, `revoke` and what they call, of
-- apps/kernel/cap/CapTable.cc, with the deletion of a VPE as far as it revokes capabilities
-- (apps/kernel/pes/VPE.cc, apps/kernel/arch/baremetal/VPE.cc). A kernel call that waits for a free slot
-- is sent at once here.
pub mod Answers
pub mod Calls
pub mod Forest
pub mod Frees
pub mod Local
pub mod Remote
pub mod Protocol
use semper_os.Base.{
  ℕ, zero, suc, ◌+◌, ◌/◌, ◌%◌, ◌^◌, Bool, true, false, not, ◌&&◌, ◌||◌, List, [], ◌∷◌, Option, none,
  some, length, ltb, ◌==◌, if◌then◌else◌,
}
use semper_os.Col.Treap
use semper_os.Ddl.Hash.{
  map_cap, msg_cap, srv_cap, sess_cap, vpe_cap, mem_cap, generic_ocap, hash_to_pe_id, hash_to_type,
  hash_to_obj_id, as_ocap, as_mcap, without_cap_type, structured_hash,
}
use semper_os.Ddl.Members.{responsible_krnl, responsible_member}
use semper_os.Cap.Capability.{
  TableType, obj, map, Capability, revoke_by, deleted_vpe, delete_vpe, emit,
}
use semper_os.Cap.Children.{remove_child_all_types}
use semper_os.Cap.Table.{get, unset, modify}
use semper_os.Cap.Kernel.{
  Kernel, revoke_call, remove_child_cap_ptr, send, table_of, put_table, add_int, find_entry,
  find_revocation, add_revocation, remove_entry, subscribe,
}
use semper_os.Cap.Revocations.{update_entry, notify_subscribers}
use semper_os.Cap.Item.{
  Run, fault, no_fuel, waits, done, and_then, as_generic, is_empty, get_data, modify_data,
}

-- `CapTable::revoke_all`: the root is taken out of the treap, then revoked by `rec`. `rounds` bounds
-- how many capabilities there are. Where a round waits, the others are still to be done.
unfoldable pub revoke_each :
    (TableType → Capability → Kernel → Run ℕ) → (rounds : ℕ) → TableType → ℕ → Kernel → Run ℕ
unfolding table_of put_table Treap.remove_root and_then
revoke_each rec zero type vpe k = no_fuel
revoke_each rec (suc rounds) type vpe k = elim (Treap.remove_root (table_of type vpe k).caps) [
  | none ↦ done 0 k
  | some (sel, c, rest) ↦
      and_then (rec type c (put_table type vpe (record (table_of type vpe k) { caps = rest }) k))
        (λ n. revoke_each rec rounds type vpe)
]

-- `PEManager::remove`: the destructor of the VPE revokes the capabilities of both of its tables. The
-- effect stands for the rest of it.
unfoldable pub remove_vpe :
    (TableType → Capability → Kernel → Run ℕ) → (rounds vpe : ℕ) → Kernel → Run ℕ
unfolding emit and_then revoke_each
remove_vpe rec rounds vpe k =
    and_then
      (revoke_each rec rounds obj vpe (record k { objects = emit (delete_vpe vpe) k.objects }))
      (λ n. revoke_each rec rounds map vpe)

unfoldable pub unset_cap : Capability → Kernel → Kernel
unfolding put_table table_of unset
unset_cap c k = put_table c.table_type c.table (unset c.sel (table_of c.table_type c.table k)) k

-- The children are moved away from the capability where it stands.
unfoldable pub clear_children : Capability → Kernel → Kernel
unfolding put_table table_of modify
clear_children c k =
    put_table c.table_type c.table
      (modify (λ d. record d { children = [] }) c.sel (table_of c.table_type c.table k)) k

-- The capability's own `revoke`, its children moved away before, and `unset`. `delete` deletes a VPE;
-- if that is the one whose table the capability is in, the table is gone.
unfoldable pub revoke_self : (ℕ → Kernel → Run ℕ) → Capability → Kernel → Run ℕ
unfolding revoke_by deleted_vpe unset_cap clear_children and_then
revoke_self delete c k =
    let r = revoke_by c.body k.members c.table c.sel [] k.objects in
    let k' = record k { objects = r.1 } in
    if r.0 then fault else elim (deleted_vpe c.body k.objects) [
      | none ↦ done 0 (unset_cap c k')
      | some v ↦
          and_then (delete v (clear_children c k'))
            (λ n k''. if c.table == v then fault else done 0 (unset_cap c k''))
    ]

-- The ids of a revocation under way in one call of `revoke_rec`.
pub record Ids : Type 0 where
  pub id : ℕ
  pub parent : ℕ
  pub origin : ℕ

-- The entry for this capability, if there is none yet.
unfoldable pub ensure : Bool → Ids → Kernel → Option Kernel
unfolding add_revocation
ensure true i k = some k
ensure false i k = elim (add_revocation i.id i.parent i.origin k.thread k.revs) [
  | none ↦ none
  | some revs ↦ some (record k { revs = revs })
]

unfoldable pub await : ℕ → ℕ → Kernel → Kernel
unfolding update_entry
await n id k = update_entry id (λ e. record e { awaited = add_int e.awaited n }) k

-- The entry for this capability awaits `n` answers more; what else follows is `f`.
unfoldable pub await_more : ℕ → Bool → Ids → (Kernel → Run Bool) → Kernel → Run Bool
unfolding ensure await
await_more n ongoing i f k = elim (ensure ongoing i k) [
  | none ↦ fault
  | some k' ↦ f (await n i.id k')
]

-- `find(child)->subscribe(ongoing)`.
unfoldable pub subscribe_to : ℕ → ℕ → Kernel → Run Bool
unfolding find_revocation update_entry subscribe
subscribe_to child id k = elim (find_revocation child k.revs) [
  | none ↦ fault
  | some r ↦ done true (update_entry r.cap_id (subscribe id) k)
]

-- A child with this kernel; `rec` is the recursive call.
unfoldable pub revoke_local : (Capability → Kernel → Run ℕ) → Ids → ℕ → Bool → Kernel → Run Bool
unfolding get_data find_revocation await_more subscribe_to
revoke_local rec i child ongoing k =
    let found = get_data child k in
    if is_empty child
    then (elim (find_revocation 0 k.revs) [
      | none ↦ done ongoing k
      | some r ↦ await_more 1 ongoing i (subscribe_to 0 i.id) k
    ])
    else (elim found [
      | none ↦ fault
      | some c ↦ and_then (rec c k) (λ add k'.
          if add == 0
          then done ongoing k'
          else await_more add ongoing i (subscribe_to child i.id) k')
    ])

-- A child with another kernel, which is called.
unfoldable pub revoke_remote : ℕ → Ids → ℕ → Bool → Kernel → Run Bool
unfolding await_more send
revoke_remote authority i child ongoing k =
    await_more 1 ongoing i (λ k'. done true (send (revoke_call authority child i.id i.origin) k')) k

-- The loop over the children. `ongoing` tells whether there is an entry for this capability.
unfoldable pub revoke_children :
    (Capability → Kernel → Run ℕ) → Ids → List ℕ → Bool → Kernel → Run Bool
unfolding responsible_member revoke_local revoke_remote
revoke_children rec i [] ongoing k = done ongoing k
revoke_children rec i (child ∷ rest) ongoing k =
    let authority = responsible_member k.members child in
    and_then
      (if authority == k.members.kid
        then revoke_local rec i child ongoing k
        else revoke_remote authority i child ongoing k)
      (revoke_children rec i rest)

-- The parent's child pointer goes.
unfoldable pub tell_parent : Ids → Kernel → Run ℕ
unfolding responsible_krnl get_data modify_data remove_child_all_types send
tell_parent i k =
    let authority = responsible_krnl k.members (hash_to_pe_id i.parent) in
    let drop =
      (λ (c : Capability). record c { children = remove_child_all_types i.id c.children }) in
    if without_cap_type i.parent == 0
    then done 0 k
    else if authority == k.members.kid
    then (elim (get_data i.parent k) [
      | none ↦ fault
      | some p ↦ done 0 (modify_data drop i.parent k)
    ])
    else done 0 (send (remove_child_cap_ptr authority i.parent i.id) k)

-- The answers that an entry awaits.
unfoldable pub awaited_of : ℕ → Kernel → ℕ
unfolding find_entry
awaited_of id k = elim (find_entry id k.revs) [ none ↦ 0 | some r ↦ r.awaited ]

-- The root of a revocation once its answers are there. No entry is passed twice on the way up from
-- one entry to its subscribers, so their number is enough fuel.
unfoldable pub resume_root : Ids → Kernel → Run ℕ
unfolding notify_subscribers tell_parent remove_entry
resume_root i k = elim (notify_subscribers (suc (length k.revs)) i.id k) [
  | none ↦ fault
  | some k' ↦ tell_parent i (record k' { revs = remove_entry i.id k'.revs })
]

-- `awaitedResp > 0` on `int`.
abbrev pub is_positive : ℕ → Bool
is_positive a = ltb 0 a && ltb a (2 ^ 31)

unfoldable pub finish_root : Ids → Bool → Kernel → Run ℕ
unfolding awaited_of resume_root tell_parent
finish_root i false k = tell_parent i k
finish_root i true k = if is_positive (awaited_of i.id k) then waits k else resume_root i k

unfoldable pub finish_cap : Ids → Bool → Kernel → Run ℕ
unfolding finish_root awaited_of
finish_cap i ongoing k =
    if i.id == i.origin
    then finish_root i ongoing k
    else done (if ongoing then awaited_of i.id k else 0) k

abbrev pub ids : TableType → ℕ → Capability → Ids
ids type origin c = record {
  id = as_generic type c.id;
  parent = as_generic type c.parent;
  origin = origin;
}

-- `revoke_rec`. Fuel bounds the depth of the part of the tree that is with this kernel, and for a
-- VPE that is deleted also how many capabilities it has. A VPE's capabilities are revoked as roots.
unfoldable pub revoke_rec : ℕ → ℕ → TableType → Capability → Kernel → Run ℕ
unfolding as_generic and_then revoke_self remove_vpe revoke_children finish_cap
revoke_rec zero origin type c k = no_fuel
revoke_rec (suc fuel) origin type c k =
    and_then (revoke_self (remove_vpe (λ t d. revoke_rec fuel (as_generic t d.id) t d) fuel) c k)
      (λ n k'.
        and_then
          (revoke_children (revoke_rec fuel origin type) (ids type origin c) c.children false k')
          (finish_cap (ids type origin c)))

-- The capability's own `revoke` within `revoke_rec`.
unfoldable pub own_revoke : (fuel : ℕ) → Capability → Kernel → Run ℕ
unfolding revoke_self remove_vpe revoke_rec as_generic
own_revoke fuel = revoke_self (remove_vpe (λ t d. revoke_rec fuel (as_generic t d.id) t d) fuel)
