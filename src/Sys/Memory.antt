-- ===== src/Sys/Memory.antt =====
-- The system calls `reqmem` and `derivemem` of apps/kernel/SyscallHandler.cc. A handler gives the
-- code of its reply and the state; `none` is a failed assertion or a null pointer. `new` is
-- the number of the object that is made.
pub mod Part
pub mod Copy
pub mod Derived
pub mod Unaligned
pub mod Exhausted
use semper_os.Base.{
  ℕ, zero, suc, ◌+◌, ◌*◌, ◌/◌, ◌%◌, ◌^◌, Bool, true, false, not, ◌&&◌, ◌||◌, List, [], ◌∷◌, Option,
  none, some, ltb, ◌==◌, if◌then◌else◌, bit_and, bit_or, add64, minus_one64,
}
use semper_os.Base.Errors.{ErrorCode, no_error, inv_args, out_of_mem}
use semper_os.Ddl.Hash.{structured_hash, mem_obj}
use semper_os.Mem.Main.{MemoryModule, Allocation, succeeded, allocate_at}
use semper_os.Mem.Main
use semper_os.Cap.Capability.{
  TableType, obj, Body, mem, Capability, MsgObject, Objects, update, unref_msg, mem_type, msg_type,
}
use semper_os.Cap.Table.{get_typed, unused, set, modify}
use semper_os.Cap.Kernel.{Kernel, table_of, put_table}
use semper_os.Cap.Obtain.{obtain}

-- `KIF::Perm::RWX` is 7: the permissions are the low bits of a label.
abbrev pub rwx : ℕ
rwx = 7

abbrev pub addr_of : MsgObject → ℕ
addr_of o = o.label / 8 * 8

abbrev pub perms_of : MsgObject → ℕ
perms_of o = o.label % 8

-- `MemObject`, with the assertion of its constructor.
unfoldable pub mem_object : (addr size perms core vpe epid id : ℕ) → Option MsgObject
mem_object addr size perms core vpe epid id =
    if addr % 8 == 0
    then some (record {
      is_mem = true;
      label = bit_or addr perms;
      core = core;
      vpe = vpe;
      epid = epid;
      credits = size;
      derived = false;
      id = id;
      refs = 1;
    })
    else none

abbrev pub with_msg : ℕ → MsgObject → Objects → Objects
with_msg o r w = record w { msgs = update w.msgs o r }

-- The PE of an allocation; there is no module at that index otherwise.
abbrev pub pe_at : ℕ → List MemoryModule → Option ℕ
pe_at i [] = none
pe_at zero (m ∷ mods) = some m.pe
pe_at (suc i) (m ∷ mods) = pe_at i mods

-- `MemCapability`, before it is in a table.
abbrev pub memory_cap : (vpe sel object object_id : ℕ) → Capability
memory_cap vpe sel object object_id = record {
  type = mem_type + msg_type;
  id = 0;
  table = vpe;
  table_type = obj;
  sel = sel;
  parent = 0;
  children = [];
  body = mem none object object_id;
}

-- The end of `reqmem`: the capability on what was allocated.
unfoldable pub grant :
    (vpe sel perms new : ℕ) → Allocation → List MemoryModule → Kernel → Option Kernel
unfolding mem_object table_of put_table set
grant vpe sel perms new a mods k =
    let id = structured_hash vpe vpe mem_obj a.addr in
    elim (pe_at a.mod_id mods) [
      | none ↦ none
      | some pe ↦ elim (mem_object a.addr a.size perms pe 0 0 id) [
        | none ↦ none
        | some o ↦
            let k' = record k { objects = with_msg new o k.objects } in
            elim (set sel (memory_cap vpe sel new id) (table_of obj vpe k)) [
              | none ↦ none
              | some r ↦ some (put_table obj vpe r.1 k')
            ]
      ]
    ]

-- `SyscallHandler::reqmem`.
unfoldable pub reqmem :
    (vpe sel addr size perms new : ℕ)
    → List MemoryModule
    → Kernel
    → Option (ErrorCode × List MemoryModule × Kernel)
unfolding unused table_of allocate_at grant
reqmem vpe sel addr size perms new mods k =
    let taken =
      if addr == minus_one64 then Main.allocate size mods else (allocate_at addr size mods, mods) in
    let granted = grant vpe sel perms new taken.0 taken.1 k in
    if not (unused sel (table_of obj vpe k))
    then some (inv_args, mods, k)
    else if (size == 0) || not (size % 8 == 0) || (perms == 0) || not (perms / 8 == 0)
    then some (inv_args, mods, k)
    else if not (succeeded taken.0)
    then some (out_of_mem, taken.1, k)
    else elim granted [ none ↦ none | some k' ↦ some (no_error, taken.1, k') ]

-- The object of a capability on memory; the cast makes any other body a fault.
abbrev pub object_of : Capability → Option ℕ
object_of c = elim c.body [ mem ep o i ↦ some o | _ ↦ none ]

-- A copy is given another object.
abbrev pub with_object : ℕ → Capability → Capability
with_object o c = record c { body = elim c.body [ mem ep p i ↦ mem ep o i | b ↦ b ] }

-- The end of `derivemem`: a copy of the capability, and a new object in place of the old one, which
-- loses the reference that the copy had.
unfoldable pub derive :
    (vpe dst offset size perms new source : ℕ) → Capability → Kernel → Option Kernel
unfolding obtain mem_object unref_msg modify table_of put_table
derive vpe dst offset size perms new source c k = elim (obtain obj vpe dst c k) [
  | none ↦ none
  | some (none, k') ↦ none
  | some (some nc, k') ↦
      let s = k'.objects.msgs source in
      let addr = add64 (addr_of s) offset in
      let id = structured_hash s.core s.vpe mem_obj addr in
      elim (mem_object addr size (bit_and perms (perms_of s)) s.core s.vpe s.epid id) [
        | none ↦ none
        | some o ↦
            let w = with_msg new (record o { derived = true }) (unref_msg source k'.objects) in
            some (
              put_table obj vpe (modify (with_object new) dst (table_of obj vpe k'))
                (record k' { objects = w }))
      ]
]

-- Does the range not wrap around, and lie in the source?
abbrev pub range_ok : (offset size total : ℕ) → Bool
range_ok offset size total =
    not (ltb (add64 offset size) offset || ltb total (add64 offset size) || (size == 0))

-- `SyscallHandler::derivemem`.
unfoldable pub derivemem :
    (vpe src dst offset size perms new : ℕ) → Kernel → Option (ErrorCode × Kernel)
unfolding get_typed unused table_of derive
derivemem vpe src dst offset size perms new k = elim (get_typed src mem_type (table_of obj vpe k)) [
  | none ↦ some (inv_args, k)
  | some c ↦
      if not (unused dst (table_of obj vpe k)) then some (inv_args, k) else elim (object_of c) [
        | none ↦ none
        | some source ↦
            let derived = derive vpe dst offset size perms new source c k in
            if not (range_ok offset size (k.objects.msgs source).credits) || not (perms / 8 == 0)
            then some (inv_args, k)
            else elim derived [ none ↦ none | some k' ↦ some (no_error, k') ]
      ]
]
