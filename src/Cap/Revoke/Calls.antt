-- ===== src/Cap/Revoke/Calls.antt =====
-- How revocations start: `revoke` and `revoke_all` of apps/kernel/cap/CapTable.cc, and the kernel
-- calls `revoke` and `removeChildCapPtr` of apps/kernel/KernelcallHandler.cc.
pub mod Confirm
pub mod Join
use semper_os.Base.{
  ℕ, zero, suc, ◌+◌, ◌%◌, ◌^◌, Bool, true, Option, none, some, ◌==◌, if◌then◌else◌,
}
use semper_os.Col.Treap
use semper_os.Ddl.Hash.{map_cap, generic_ocap, hash_to_type, structured_hash}
use semper_os.Cap.Capability.{TableType, obj, map, Capability}
use semper_os.Cap.Children.{remove_child_all_types}
use semper_os.Cap.Table.{get}
use semper_os.Cap.Kernel.{
  Kernel, revoke_finish, reply, send, table_of, put_table, minus_one, find_revocation, subscribe,
}
use semper_os.Cap.Revocations.{update_entry}
use semper_os.Cap.Item.{
  Run, fault, no_fuel, waits, done, and_then, as_generic, is_empty, item_data, get_data, check_type,
  modify_data,
}
use semper_os.Cap.Revoke.{revoke_each, revoke_rec}

-- `revoke(c, capID, origin)` where the capability is gone: it may be under revocation. A new
-- subscriber stands for this one; its thread waits if it is the root.
unfoldable pub join_revocation : ℕ → ℕ → Kernel → Run ℕ
unfolding find_revocation update_entry subscribe
join_revocation cap origin k = elim (find_revocation cap k.revs) [
  | none ↦ done 0 k
  | some r ↦
      let k' = update_entry r.cap_id (subscribe cap) k in
      if cap == origin then waits k' else done 1 k'
]

-- `revoke(c, capID, origin)` of a table of the type.
unfoldable pub revoke : ℕ → TableType → Option Capability → ℕ → ℕ → Kernel → Run ℕ
unfolding as_generic revoke_rec join_revocation
revoke fuel type (some c) cap origin k = revoke_rec fuel (as_generic type origin) type c k
revoke fuel type none cap origin k =
    join_revocation (as_generic type cap) (as_generic type origin) k

-- The item type in the key that is made for a missing capability.
abbrev pub missing_type : TableType → ℕ
missing_type map = generic_ocap
missing_type obj = map_cap

-- The key of what is found at a selector.
unfoldable pub key_of : TableType → ℕ → ℕ → Option Capability → ℕ
key_of type vpe sel none = structured_hash vpe vpe (missing_type type) sel
key_of type vpe sel (some c) = c.id

abbrev pub fault_if_some : Option Capability → Kernel → Run ℕ
fault_if_some none k = done 0 k
fault_if_some (some c) k = fault

-- One round of `revoke(crd, own)`. Without `own` a capability that is there is a panic.
unfoldable pub revoke_selector : ℕ → TableType → ℕ → Bool → ℕ → Kernel → Run ℕ
unfolding table_of get key_of revoke
revoke_selector fuel type vpe own sel k =
    let t = table_of type vpe k in
    let key = key_of type t.id sel (get sel t) in
    if own then revoke fuel type (get sel t) key key k else fault_if_some (get sel t) k

-- `revoke(crd, own)`. Where a round waits, the rest of the range is still to be done.
unfoldable pub revoke_range : ℕ → TableType → ℕ → Bool → ℕ → ℕ → Kernel → Run ℕ
unfolding and_then revoke_selector
revoke_range fuel type vpe own start zero k = done 0 k
revoke_range fuel type vpe own start (suc count) k =
    and_then (revoke_selector fuel type vpe own start k)
      (λ n. revoke_range fuel type vpe own ((start + 1) % 2 ^ 32) count)

-- `revoke_all` from outside a revocation. `rounds` bounds how many capabilities there are.
unfoldable pub revoke_all : ℕ → ℕ → TableType → ℕ → Kernel → Run ℕ
unfolding revoke_each revoke
revoke_all rounds fuel type vpe k =
    revoke_each (λ t c. revoke fuel t (some c) c.id c.id) rounds type vpe k

-- The end of the kernel call `revoke`.
unfoldable pub answer_revoke : ℕ → ℕ → ℕ → Kernel → Run ℕ
unfolding send
answer_revoke sender parent awaited k =
    if awaited == 0
    then done 0 (send (revoke_finish sender parent minus_one true) k)
    else done awaited (send (reply sender) k)

-- The item is there. Its data may be a null pointer, which the code follows.
unfoldable pub revoke_found : ℕ → Option Capability → ℕ → ℕ → Kernel → Run ℕ
unfolding revoke
revoke_found fuel none cap origin k = fault
revoke_found fuel (some c) cap origin k = revoke fuel c.table_type (some c) cap origin k

-- `KernelcallHandler::revoke`.
unfoldable pub handle_revoke : ℕ → ℕ → ℕ → ℕ → ℕ → Kernel → Run ℕ
unfolding get_data and_then revoke revoke_found answer_revoke
handle_revoke fuel sender cap parent origin k =
    let type = if hash_to_type cap == map_cap then map else obj in
    let awaited =
      (if is_empty cap
        then revoke fuel type none cap origin k
        else revoke_found fuel (get_data cap k) cap origin k) in
    and_then awaited (answer_revoke sender parent)

-- One round of `removeChildCapPtr`. A parent that is not there is passed over.
unfoldable pub remove_child_at : ℕ → ℕ → Kernel → Run ℕ
unfolding item_data modify_data remove_child_all_types
remove_child_at parent child k =
    let drop =
      (λ (c : Capability). record c { children = remove_child_all_types child c.children }) in
    elim (item_data parent k) [
      | none ↦ done 0 k
      | some p ↦
          if check_type (hash_to_type parent) then done 0 (modify_data drop parent k) else fault
    ]

unfoldable pub remove_children : ℕ → ℕ → ℕ → Kernel → Run ℕ
unfolding and_then remove_child_at
remove_children parent child zero k = done 0 k
remove_children parent child (suc count) k =
    and_then (remove_child_at parent child k)
      (λ n. remove_children ((parent + 1) % 2 ^ 64) ((child + 1) % 2 ^ 64) count)

-- `KernelcallHandler::removeChildCapPtr`.
unfoldable pub handle_remove_child : ℕ → ℕ → ℕ → ℕ → ℕ → Kernel → Run ℕ
unfolding send and_then remove_children
handle_remove_child sender parent parents child children k =
    if parents == children
    then and_then (remove_children parent child parents k) (λ n k'. done 0 (send (reply sender) k'))
    else done 0 (send (reply sender) k)
