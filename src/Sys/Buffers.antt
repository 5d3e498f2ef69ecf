-- ===== src/Sys/Buffers.antt =====
-- The system calls `attachrb` and `detachrb` of apps/kernel/SyscallHandler.cc, and the barrier of
-- apps/kernel/arch/gem5/Platform.cc. A handler gives the code of its reply and the receive buffers;
-- `none` is a fault.
pub mod Beyond
use semper_os.Base.{ℕ, ◌+◌, Bool, not, ◌&&◌, ◌||◌, Option, none, some, ltb, if◌then◌else◌, sub64}
use semper_os.Base.Errors.{ErrorCode, no_error, inv_args}
use semper_os.Col.Treap.{int_lt}
use semper_os.Cap.Capability.{obj, vpe_type}
use semper_os.Cap.Table.{get_typed}
use semper_os.Cap.Kernel.{Kernel, table_of}
use semper_os.Com.RecvBufs.{RecvBufs, attach, detach}
use semper_os.Sys.Exchange.{vpe_of}

-- What `m3::PEDesc` says of a PE here.
pub record PeDesc : Type 0 where
  pub has_virtmem : Bool
  pub mem_size : ℕ

-- `Platform::rw_barrier`.
abbrev pub rw_barrier : PeDesc → ℕ
rw_barrier pe = if pe.has_virtmem then 0x5B0000000 else sub64 pe.mem_size 131072

-- The VPEs: the PE that each is on, and whether its name contains "loadgen".
pub record Vpes : Type 0 where
  pub core_of : ℕ → ℕ
  pub is_loadgen : ℕ → Bool

-- The test of `attachrb`; `order` and `msgorder` are of type `int`.
unfoldable pub in_space : (pe : PeDesc) (is_loadgen : Bool) (addr order msgorder : ℕ) → Bool
in_space pe is_loadgen addr order msgorder = not (
    ltb addr (sub64 (rw_barrier pe) (if is_loadgen then 1048576 else 0))
    || int_lt 20 order
    || int_lt order msgorder)

-- `SyscallHandler::attachrb`, called by `vpe`.
unfoldable pub attachrb :
    (vpe tcap ep addr order msgorder flags : ℕ)
    → (ℕ → PeDesc)
    → Vpes
    → Kernel
    → RecvBufs
    → Option (ErrorCode × RecvBufs)
unfolding get_typed table_of in_space attach
attachrb vpe tcap ep addr order msgorder flags pes vpes k s =
    elim (get_typed tcap vpe_type (table_of obj vpe k)) [
      | none ↦ some (inv_args, s)
      | some c ↦ elim (vpe_of c) [
        | none ↦ none
        | some target ↦
            let core = vpes.core_of target in
            if not (in_space (pes core) (vpes.is_loadgen vpe) addr order msgorder)
            then some (inv_args, s)
            else attach core ep addr order msgorder flags s
      ]
    ]

-- `SyscallHandler::detachrb`.
unfoldable pub detachrb :
    (vpe tcap ep : ℕ) → Vpes → Kernel → RecvBufs → Option (ErrorCode × RecvBufs)
unfolding get_typed table_of detach
detachrb vpe tcap ep vpes k s = elim (get_typed tcap vpe_type (table_of obj vpe k)) [
  | none ↦ some (inv_args, s)
  | some c ↦ elim (vpe_of c) [
    | none ↦ none
    | some target ↦ elim (detach (vpes.core_of target) ep s) [
      | none ↦ none
      | some s' ↦ some (no_error, s')
    ]
  ]
]
