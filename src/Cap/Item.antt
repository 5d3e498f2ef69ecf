-- ===== src/Cap/Item.antt =====
-- How a step of a revocation ends, and the items of capabilities that `MHTInstance::get` of
-- apps/kernel/ddl/MHTInstance.cc finds for keys of this kernel, with `MHTItem::getData` of MHTTypes.h.
use semper_os.Base.{ℕ, ◌/◌, ◌%◌, Bool, not, ◌&&◌, ◌||◌, Option, none, ◌==◌, if◌then◌else◌}
use semper_os.Ddl.Hash.{
  map_cap, msg_cap, srv_cap, sess_cap, vpe_cap, mem_cap, generic_ocap, hash_to_pe_id, hash_to_type,
  hash_to_obj_id, as_ocap, as_mcap,
}
use semper_os.Cap.Capability.{TableType, obj, map, Capability}
use semper_os.Cap.Table.{get, modify}
use semper_os.Cap.Kernel.{Kernel, table_of, put_table}

-- How a step ends: at a null pointer, a failed assertion, a panic or the shutdown that follows an
-- error; without fuel; with the thread waiting until it is notified; or with a result.
pub data Run (A : Type 0) : Type 0 where
  fault no_fuel : Run A
  waits : Kernel → Run A
  done : A → Kernel → Run A

unfoldable pub and_then : {A B : Type 0} → Run A → (A → Kernel → Run B) → Run B
and_then fault f = fault
and_then no_fuel f = no_fuel
and_then (waits k) f = waits k
and_then (done a k) f = f a k

unfoldable pub as_generic : TableType → ℕ → ℕ
as_generic obj key = as_ocap key
as_generic map key = as_mcap key

abbrev pub is_ocap : ℕ → Bool
is_ocap key = not (hash_to_type key / 2 % 8 == 0)

-- `isEmpty` of the item that `MHTInstance::get` finds in a local partition. Items of capabilities
-- are never empty. Nothing is stored here under the other types.
abbrev pub is_empty : ℕ → Bool
is_empty key = not (is_ocap key) && not (hash_to_type key == map_cap)

-- The data of that item.
unfoldable pub item_data : ℕ → Kernel → Option Capability
unfolding get
item_data key k =
    if is_ocap key
    then get (hash_to_obj_id key) (k.objcaps (hash_to_pe_id key))
    else if hash_to_type key == map_cap
    then get (hash_to_obj_id key) (k.mapcaps (hash_to_pe_id key))
    else none

-- `checkType<Capability>`.
abbrev pub check_type : ℕ → Bool
check_type type =
    (type == generic_ocap)
    || (type == msg_cap)
    || (type == srv_cap)
    || (type == sess_cap)
    || (type == vpe_cap)
    || (type == mem_cap)

-- `getData<Capability>`.
unfoldable pub get_data : ℕ → Kernel → Option Capability
unfolding item_data
get_data key k = if check_type (hash_to_type key) then item_data key k else none

-- A write to the capability that `get_data` finds.
unfoldable pub modify_data : (Capability → Capability) → ℕ → Kernel → Kernel
unfolding put_table table_of modify
modify_data f key k =
    let vpe = hash_to_pe_id key in
    put_table obj vpe (modify f (hash_to_obj_id key) (table_of obj vpe k)) k
