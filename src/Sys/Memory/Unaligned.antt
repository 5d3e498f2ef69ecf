-- ===== src/Sys/Memory/Unaligned.antt =====
-- An offset that `derivemem` does not check.
use semper_os.Base.{
  ℕ, ◌%◌, ◌^◌, ◌<◌, ◌≡◌, ◌≢◌, refl, true, Option, none, some, bit_and, add64, arith,
}
use semper_os.Ddl.Hash.{structured_hash, mem_obj}
use semper_os.Cap.Capability.{obj, mem, Capability, mem_type}
use semper_os.Cap.Table.{get_typed, unused}
use semper_os.Cap.Kernel.{Kernel, table_of}
use semper_os.Cap.Obtain.{obtain}
use semper_os.Cap.Obtain.Copy.{obtain-Adopts}
use semper_os.Sys.Exchange.Sources.{IsReady, IsSource}
use semper_os.Sys.Memory.{mem_object, addr_of, perms_of, derive, range_ok, derivemem}
use semper_os.Sys.Memory.Derived.{unused-none}

mem_object-unaligned :
    (addr size perms core vpe epid id : ℕ)
    → addr % 8 ≢ 0
    → mem_object addr size perms core vpe epid id ≡ none
unfolding mem_object
mem_object-unaligned addr size perms core vpe epid id h = ground (arith, h)

not_derived :
    (vpe dst offset size perms new source : ℕ) (c nc : Capability) (k k1 : Kernel)
    → obtain obj vpe dst c k ≡ some (some nc, k1)
    → let s = k1.objects.msgs source in
      mem_object
          (add64 (addr_of s) offset)
          size
          (bit_and perms (perms_of s))
          s.core
          s.vpe
          s.epid
          (structured_hash s.core s.vpe mem_obj (add64 (addr_of s) offset))
        ≡ none
      → derive vpe dst offset size perms new source c k ≡ none
unfolding derive
not_derived vpe dst offset size perms new source c nc k k1 e f = rw (derive, e, f) refl

-- A VPE asks for a part of its memory capability at `src` whose offset is not a multiple of 8, to a
-- free selector. The checks of the call accept it as any other, but the assertion of the new
-- object fails, on any memory.
pub derivemem_unaligned :
    (vpe src dst offset size perms new source i : ℕ) (ep : Option ℕ) (c : Capability) (k : Kernel)
    → dst < 2 ^ 32
    → IsReady k obj vpe
    → IsSource k.members obj vpe src c
    → get_typed src mem_type (table_of obj vpe k) ≡ some c
    → c.body ≡ mem ep source i
    → unused dst (table_of obj vpe k) ≡ true
    → range_ok offset size (k.objects.msgs source).credits ≡ true
    → perms < 8
    → offset % 8 ≢ 0
    → derivemem vpe src dst offset size perms new k ≡ none
unfolding derivemem
derivemem_unaligned vpe src dst offset size perms new source i ep c k d r
      (_, _, _, local, plain, (item, x)) g b u v p a =
    let free = unused-none dst (table_of obj vpe k) u in
    let (k1, e, adopts) = obtain-Adopts obj vpe dst item c k d r.0 free local r.1 r.2 plain x in
    let s = k1.objects.msgs source in
    let failed =
      not_derived vpe dst offset size perms new source c _ k k1 e
        (mem_object-unaligned (add64 (addr_of s) offset) size _ _ _ _ _ (omega (arith, a))) in
    ground (arith, g, b, u, v, failed)
