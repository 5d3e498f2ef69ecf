-- ===== src/Cap/Kernel.antt =====
-- The state of one kernel as the capability system sees it, and what it sends to other kernels:
-- apps/kernel/cap/Revocations.h (`Revocation`, `RevocationList`) and Kernelcalls.{h,cc}.
use semper_os.Base.{
  ℕ, ◌+◌, ◌-◌, ◌%◌, ◌^◌, Bool, List, [], ◌∷◌, ◌++◌, Option, none, some, ◌==◌, if◌then◌else◌,
}
use semper_os.Ddl.Hash.{map_cap, hash_to_type, as_ocap, as_mcap}
use semper_os.Ddl.Members.{Members}
use semper_os.Cap.Capability.{TableType, obj, map, Objects}
use semper_os.Cap.Table.{CapTable}

-- A revocation that waits for answers. `awaited` is the bit pattern of an `int`; `tid` is the thread
-- that waits at the root of the revocation, `none` for -1. A subscriber is known by its capability.
pub record Revocation : Type 0 where
  pub cap_id : ℕ
  pub parent : ℕ
  pub origin : ℕ
  pub awaited : ℕ
  pub tid : Option ℕ
  pub subscribers : List ℕ

-- The kernel calls of a revocation, each with the kernel that it goes to.
pub data Call : Type 0 where
  revoke_call : (dest cap parent origin : ℕ) → Call
  revoke_finish : (dest initiator awaits : ℕ) (include_reply : Bool) → Call
  remove_child_cap_ptr : (dest parent child : ℕ) → Call
  reply : (dest : ℕ) → Call

-- `sent`, `woken` and `credited` have the latest first; `thread` is the thread that runs. A kernel is
-- credited when its answer frees the slot of a message that was sent to it.
pub record Kernel : Type 0 where
  pub members : Members
  pub objcaps : ℕ → CapTable
  pub mapcaps : ℕ → CapTable
  pub objects : Objects
  pub revs : List Revocation
  pub sent : List Call
  pub woken : List ℕ
  pub credited : List ℕ
  pub thread : ℕ

unfoldable pub send : Call → Kernel → Kernel
send c k = record k { sent = c ∷ k.sent }

-- `ThreadManager::notify`.
unfoldable pub notify_thread : ℕ → Kernel → Kernel
notify_thread tid k = record k { woken = tid ∷ k.woken }

-- `KPE::msg_received`, as far as it is seen here.
unfoldable pub msg_received : ℕ → Kernel → Kernel
msg_received kernel k = record k { credited = kernel ∷ k.credited }

unfoldable pub table_of : TableType → ℕ → Kernel → CapTable
table_of obj vpe k = k.objcaps vpe
table_of map vpe k = k.mapcaps vpe

abbrev pub set_table : (ℕ → CapTable) → ℕ → CapTable → ℕ → CapTable
set_table f i t j = if i == j then t else f j

unfoldable pub put_table : TableType → ℕ → CapTable → Kernel → Kernel
put_table obj vpe t k = record k { objcaps = set_table k.objcaps vpe t }
put_table map vpe t k = record k { mapcaps = set_table k.mapcaps vpe t }

-- `int` as a bit pattern.
abbrev pub minus_one : ℕ
minus_one = 2 ^ 32 - 1

abbrev pub add_int : ℕ → ℕ → ℕ
add_int a b = (a + b) % 2 ^ 32

-- The id under which `RevocationList::find` looks.
unfoldable pub generic_id : ℕ → ℕ
generic_id cap = if hash_to_type cap == map_cap then as_mcap cap else as_ocap cap

-- The first entry of a capability.
unfoldable pub find_entry : ℕ → List Revocation → Option Revocation
find_entry cap [] = none
find_entry cap (r ∷ rest) = if r.cap_id == cap then some r else find_entry cap rest

-- `RevocationList::find`.
unfoldable pub find_revocation : ℕ → List Revocation → Option Revocation
unfolding find_entry generic_id
find_revocation cap revs = find_entry (generic_id cap) revs

-- A write through the pointer to the first entry of a capability.
unfoldable pub modify_entry : ℕ → (Revocation → Revocation) → List Revocation → List Revocation
modify_entry cap f [] = []
modify_entry cap f (r ∷ rest) = if r.cap_id == cap then f r ∷ rest else r ∷ modify_entry cap f rest

-- `RevocationList::add`; `none` is the panic at a second entry of a capability.
unfoldable pub add_revocation : ℕ → ℕ → ℕ → ℕ → List Revocation → Option (List Revocation)
unfolding find_entry
add_revocation cap parent origin thread revs = elim (find_entry cap revs) [
  | some r ↦ none
  | none ↦ some (
      revs
      ++ record {
        cap_id = cap;
        parent = parent;
        origin = origin;
        awaited = 0;
        tid = if origin == cap then some thread else none;
        subscribers = [];
      }
        ∷ [])
]

-- `RevocationList::remove`.
unfoldable pub remove_entry : ℕ → List Revocation → List Revocation
remove_entry cap [] = []
remove_entry cap (r ∷ rest) = if r.cap_id == cap then rest else r ∷ remove_entry cap rest

unfoldable pub subscribe : ℕ → Revocation → Revocation
subscribe sub r = record r { subscribers = r.subscribers ++ sub ∷ [] }
