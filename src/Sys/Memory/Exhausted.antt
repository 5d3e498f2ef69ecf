-- ===== src/Sys/Memory/Exhausted.antt =====
-- `reqmem` where no memory is left.
use semper_os.Base.{ℕ, ◌%◌, ◌<◌, ◌≡◌, true, false, List, none, arith, minus_one64}
use semper_os.Mem.Areas.{no_addr}
use semper_os.Mem.Main.{MemoryModule, Allocation, succeeded}
use semper_os.Mem.Main
use semper_os.Mem.Main.Allocate.{IsValid, any_available, first_fits, allocate_full}
use semper_os.Cap.Capability.{obj}
use semper_os.Cap.Table.{unused}
use semper_os.Cap.Kernel.{Kernel, table_of}
use semper_os.Sys.Memory.{grant, mem_object, reqmem}

-- No object is at the address -1.
grant_nowhere :
    (vpe sel perms new : ℕ) (a : Allocation) (mods : List MemoryModule) (k : Kernel)
    → a.addr ≡ no_addr
    → grant vpe sel perms new a mods k ≡ none
unfolding grant mem_object
grant_nowhere vpe sel perms new a mods k e = ground (arith, e)

-- A VPE requests memory anywhere, with a size and permissions that the call accepts, to a free
-- selector. If the first memory module for general use has no room, the call does not report it: an
-- assertion fails, also where a later module has room.
pub reqmem_exhausted :
    (vpe sel size perms new : ℕ) (mods : List MemoryModule) (k : Kernel)
    → unused sel (table_of obj vpe k) ≡ true
    → 0 < size
    → size % 8 ≡ 0
    → 0 < perms
    → perms < 8
    → IsValid mods
    → any_available mods ≡ true
    → first_fits size mods ≡ false
    → reqmem vpe sel minus_one64 size perms new mods k ≡ none
unfolding reqmem
reqmem_exhausted vpe sel size perms new mods k u z a p q v n f =
    let (taken_ok, addr, same) = allocate_full size mods z v n f in
    let taken = Main.allocate size mods in
    ground (arith, u, taken_ok, grant_nowhere vpe sel perms new taken.0 taken.1 k addr)
