-- ===== src/Sys/Exchange.antt =====
-- `do_exchange` and the system call `exchange` of apps/kernel/SyscallHandler.cc. A VPE is known by
-- its id; a handler gives the code of its reply and the kernel. `none` is a failed assertion.
pub mod Sources
pub mod Rounds
pub mod Copies
pub mod Swapped
use semper_os.Base.{
  ℕ, zero, suc, ◌+◌, ◌%◌, ◌^◌, Bool, true, false, not, ◌&&◌, ◌||◌, Option, none, some, ltb, ◌==◌,
  if◌then◌else◌,
}
use semper_os.Base.Errors.{ErrorCode, no_error, inv_args}
use semper_os.Cap.Capability.{TableType, obj, map, Body, virt_pe, Capability, vpe_type}
use semper_os.Cap.Table.{get, get_typed, is_some, range_unused, same_type}
use semper_os.Cap.Kernel.{Kernel, table_of}
use semper_os.Cap.Obtain.{obtain}

-- `CapRngDesc`.
pub record CapRange : Type 0 where
  pub type : TableType
  pub start : ℕ
  pub count : ℕ

abbrev pub cap_range : TableType → ℕ → ℕ → CapRange
cap_range type start count = record { type = type; start = start; count = count }

-- `obtain` of the table of a type and a VPE, from a pointer that may be null.
unfoldable pub obtain_at : TableType → ℕ → ℕ → Option Capability → Kernel → Option Kernel
unfolding obtain
obtain_at type vpe dst none k = some k
obtain_at type vpe dst (some c) k = elim (obtain type vpe dst c k) [
  | none ↦ none
  | some r ↦ some r.1
]

-- The loop of `do_exchange`, with its assertion. Selectors are 32-bit words.
unfoldable pub copy_range : TableType → (src dst from to count : ℕ) → Kernel → Option Kernel
unfolding table_of get obtain_at
copy_range type src dst from to zero k = some k
copy_range type src dst from to (suc count) k =
    if is_some (get to (table_of type dst k))
    then none
    else elim (obtain_at type dst to (get from (table_of type src k)) k) [
      | none ↦ none
      | some k' ↦ copy_range type src dst ((from + 1) % 2 ^ 32) ((to + 1) % 2 ^ 32) count k'
    ]

unfoldable pub do_exchange :
    (v1 v2 : ℕ) (c1 c2 : CapRange) (is_obtain : Bool) → Kernel → Option (ErrorCode × Kernel)
unfolding range_unused table_of copy_range
do_exchange v1 v2 c1 c2 is_obtain k =
    let src = if is_obtain then v2 else v1 in
    let dst = if is_obtain then v1 else v2 in
    let from = if is_obtain then c2.start else c1.start in
    let to = if is_obtain then c1.start else c2.start in
    let to_count = if is_obtain then c1.count else c2.count in
    let copied = copy_range c1.type src dst from to c2.count k in
    if not (same_type c1.type c2.type)
    then some (inv_args, k)
    else if (is_obtain && ltb c1.count c2.count) || (not is_obtain && not (c2.count == c1.count))
    then some (inv_args, k)
    else if not (range_unused to to_count (table_of obj dst k))
    then some (inv_args, k)
    else elim copied [ none ↦ none | some k' ↦ some (no_error, k') ]

-- The VPE that a capability stands for; a cast makes any other body a fault.
abbrev pub vpe_of : Capability → Option ℕ
vpe_of c = elim c.body [ virt_pe vpe id ↦ some vpe | _ ↦ none ]

-- `SyscallHandler::exchange`, called by `vpe`.
unfoldable pub exchange :
    (vpe tcap : ℕ) (own other : CapRange) (is_obtain : Bool) → Kernel → Option (ErrorCode × Kernel)
unfolding get_typed table_of do_exchange
exchange vpe tcap own other is_obtain k = elim (get_typed tcap vpe_type (table_of obj vpe k)) [
  | none ↦ some (inv_args, k)
  | some c ↦ elim (vpe_of c) [
    | none ↦ none
    | some target ↦
        let t1 = if is_obtain then target else vpe in
        let t2 = if is_obtain then vpe else target in do_exchange t1 t2 own other is_obtain k
  ]
]
