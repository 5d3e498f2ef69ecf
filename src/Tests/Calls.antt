-- ===== src/Tests/Calls.antt =====
-- System calls at concrete inputs.
use semper_os.Base.{
  ◌≡◌, refl, subst, true, false, List, [], ◌∷◌, none, some, ◌==◌, if◌then◌else◌, arith, minus_one64,
}
use semper_os.Base.Errors.{no_error}
use semper_os.Col.Treap
use semper_os.Col.Treap.{empty, insert}
use semper_os.Ddl.Hash.{mem_cap, structured_hash, shl64, hash_to_pe_id, vpe_cap}
use semper_os.Ddl.Members.{key_locality, responsible_krnl, responsible_member}
use semper_os.Mem.Areas.{area}
use semper_os.Mem.Main.{MemoryModule}
use semper_os.Cap.Capability.{Capability, obj, map, virt_pe, vpe_type, cap_type_to_item_type}
use semper_os.Cap.Table.{
  CapTable, cap_table, get, get_typed, range_unused, range_valid, all_unused, used, unused,
}
use semper_os.Cap.Table.Lookup.{IsValid-if}
use semper_os.Cap.Kernel.{Kernel, table_of}
use semper_os.Cap.Obtain.Linked.{at, AllTablesValid}
use semper_os.Sys.Exchange.{cap_range, do_exchange, exchange}
use semper_os.Sys.Exchange.Sources.{IsSource, IfSome, IsReady, AreSources, trimmed}
use semper_os.Sys.Exchange.Copies.{IsExchanged, do_exchange-copies}
use semper_os.Sys.Exchange.Swapped.{exchange_swapped}
use semper_os.Sys.Memory.{derivemem, object_of, reqmem}
use semper_os.Sys.Memory.Part.{IsPart}
use semper_os.Sys.Memory.Derived.{derivemem-IsPart}
use semper_os.Sys.Memory.Unaligned.{derivemem_unaligned}
use semper_os.Sys.Memory.Exhausted.{reqmem_exhausted}
use semper_os.Tests.Revocation.{members, root, kernel}

-- VPE 5 holds memory at selector 4 and VPE 8 at selector 2.
abbrev pub control : Capability
control = record {
  type = vpe_type;
  id = structured_hash 5 5 vpe_cap 2;
  table = 5;
  table_type = obj;
  sel = 2;
  parent = 0;
  children = [];
  body = virt_pe 8 (some 0);
}

abbrev table : CapTable
table = record (cap_table 5 obj) { caps = insert 2 control (insert 4 root empty) }

abbrev pub caller : Kernel
caller = record (kernel root) { objcaps = λ vpe. if vpe == 5 then table else cap_table vpe obj }

caller-AllTablesValid : AllTablesValid caller
unfolding table_of insert empty cap_table
caller-AllTablesValid obj vpe = IsValid-if (vpe == 5) _ _ (omega arith) tt
caller-AllTablesValid map vpe = tt

caller-IsReady : IsReady caller obj 5
unfolding table_of cap_table
caller-IsReady = (caller-AllTablesValid, refl, refl)

target-IsReady : IsReady caller obj 8
unfolding table_of cap_table
target-IsReady = (caller-AllTablesValid, refl, refl)

root-IsSource : IsSource members obj 5 4 root
unfolding key_locality structured_hash shl64 hash_to_pe_id responsible_member responsible_krnl
    cap_type_to_item_type
root-IsSource = (refl, refl, refl, refl, refl, (mem_cap, refl))

root-AreSources : AreSources caller obj 5 4 1
unfolding table_of get insert empty cap_table Treap.find
root-AreSources s h l =
    subst (λ s. IfSome (IsSource members obj 5 s) (at caller obj 5 s)) {x = 4} {y = s} (omega arith)
      root-IsSource

do_exchange-copies_example :
    (k : Kernel) × (do_exchange 5 8 (cap_range obj 4 1) (cap_range obj 10 1) false caller
      ≡ some (no_error, k))
    × IsExchanged 5 8 4 10 1 caller k
unfolding table_of cap_table range_unused range_valid all_unused used get empty Treap.find
do_exchange-copies_example =
    do_exchange-copies false 5 8 4 10 1 1 caller (omega arith) (omega arith) (omega arith)
      (omega arith) (omega arith) (λ h. refl) target-IsReady root-AreSources refl

exchange_swapped_example :
    (k : Kernel) × (exchange 5 2 (cap_range obj 10 1) (cap_range obj 4 1) true caller
      ≡ some (no_error, k))
    × IsExchanged 5 8 4 10 1 caller k
    × (trimmed (at k obj 5 10) ≡ none)
unfolding table_of cap_table range_unused range_valid all_unused used get get_typed insert empty
    Treap.find
exchange_swapped_example =
    exchange_swapped 5 8 2 10 4 1 1 10 control caller refl refl (omega arith) (omega arith)
      (omega arith) (omega arith) (omega arith) target-IsReady root-AreSources refl

derivemem-IsPart_example :
    (k : Kernel) × (nc : Capability) × (derivemem 5 4 9 0x40 0x20 1 77 caller ≡ some (no_error, k))
    × (at k obj 5 9 ≡ some nc)
    × (object_of nc ≡ some 77)
    × IsPart 0x40 0x20 1 (caller.objects.msgs 1) (k.objects.msgs 77)
unfolding table_of cap_table unused get get_typed insert empty Treap.find
derivemem-IsPart_example =
    derivemem-IsPart 5 4 9 0x40 0x20 1 77 1 0 none root caller (omega arith) (omega arith)
      (omega arith) (omega arith) (omega arith) caller-IsReady root-IsSource refl refl refl refl
      (omega arith) refl

derivemem_unaligned_example : derivemem 5 4 9 0x42 0x20 1 77 caller ≡ none
unfolding table_of cap_table unused get get_typed insert empty Treap.find
derivemem_unaligned_example =
    derivemem_unaligned 5 4 9 0x42 0x20 1 77 1 0 none root caller (omega arith) caller-IsReady
      root-IsSource refl refl refl refl (omega arith) (omega arith)

-- The first module is too small.
abbrev memories : List MemoryModule
memories =
    record { available = true; pe = 1; addr = 0; size = 0x1000; map = area 0x100 0x100 ∷ [] }
    ∷ record { available = true; pe = 2; addr = 0; size = 0x1000; map = area 0x100 0x800 ∷ [] }
    ∷ []

reqmem_exhausted_example : reqmem 5 9 minus_one64 0x200 3 77 memories caller ≡ none
unfolding table_of cap_table unused get insert empty Treap.find
reqmem_exhausted_example =
    reqmem_exhausted 5 9 0x200 3 77 memories caller refl (omega arith) refl (omega arith)
      (omega arith) (omega arith) refl refl
