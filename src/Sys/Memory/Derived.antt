-- ===== src/Sys/Memory/Derived.antt =====
-- What `derivemem` makes.
use semper_os.Base.{
  ℕ, ◌+◌, ◌%◌, ◌^◌, ◌<◌, ◌≤◌, ◌≡◌, refl, ap, sym, ◌∙◌, subst, true, false, Option, none, some,
  bit_and, add64, arith, if_equal,
}
use semper_os.Base.Errors.{no_error}
use semper_os.Ddl.Hash.{structured_hash, mem_obj}
use semper_os.Cap.Capability.{obj, mem, Capability, MsgObject, Objects, unref_msg, mem_type}
use semper_os.Cap.Table.{CapTable, get, get_typed, unused, modify}
use semper_os.Cap.Table.Lookup.{map_at}
use semper_os.Cap.Kernel.{Kernel, table_of, put_table}
use semper_os.Cap.Obtain.{obtain}
use semper_os.Cap.Obtain.Linked.{at, at-modify, same_slot}
use semper_os.Cap.Obtain.Copy.{obtain-Adopts}
use semper_os.Sys.Exchange.Sources.{IsReady, IsSource}
use semper_os.Sys.Exchange.Copies.{Adopts-IsReady}
use semper_os.Sys.Memory.{
  mem_object, addr_of, perms_of, with_msg, object_of, with_object, derive, range_ok, derivemem,
}
use semper_os.Sys.Memory.Part.{IsPart, part_object, part_object-IsPart, part-made}
use semper_os.Sys.Memory.Copy.{put_table-objects, obtain-objects, apart_place, copy-at}

-- The end of `derivemem` on a copy `nc` in a kernel `k1`.
derive-found :
    (vpe dst offset size perms new source : ℕ) (c nc : Capability) (k k1 : Kernel) (o : MsgObject)
    → obtain obj vpe dst c k ≡ some (some nc, k1)
    → let s = k1.objects.msgs source in
      mem_object
          (add64 (addr_of s) offset)
          size
          (bit_and perms (perms_of s))
          s.core
          s.vpe
          s.epid
          (structured_hash s.core s.vpe mem_obj (add64 (addr_of s) offset))
        ≡ some o
      → derive vpe dst offset size perms new source c k
        ≡ some (
            put_table obj vpe (modify (with_object new) dst (table_of obj vpe k1)) (record k1 {
              objects = with_msg new (record o { derived = true }) (unref_msg source k1.objects);
            }))
unfolding derive
derive-found vpe dst offset size perms new source c nc k k1 o e f = rw (derive, e, f) refl

derivemem-derive :
    (vpe src dst offset size perms new source i : ℕ) (ep : Option ℕ) (c : Capability)
    (k k' : Kernel)
    → get_typed src mem_type (table_of obj vpe k) ≡ some c
    → c.body ≡ mem ep source i
    → unused dst (table_of obj vpe k) ≡ true
    → range_ok offset size (k.objects.msgs source).credits ≡ true
    → perms < 8
    → derive vpe dst offset size perms new source c k ≡ some k'
    → derivemem vpe src dst offset size perms new k ≡ some (no_error, k')
unfolding derivemem
derivemem-derive vpe src dst offset size perms new source i ep c k k' e b u r p d =
    ground (arith, e, b, u, r, d)

range_ok_bounds :
    (offset size total : ℕ)
    → offset < 2 ^ 64
    → size < 2 ^ 64
    → total < 2 ^ 64
    → range_ok offset size total ≡ true
    → (offset + size ≤ total) × (0 < size)
range_ok_bounds offset size total a b c h = ground arith

pub unused-none : (sel : ℕ) (t : CapTable) → unused sel t ≡ true → get sel t ≡ none
unfolding unused
unused-none sel t h = ground arith

-- The kernel after the last step of `derivemem`: `k1` has the copy.
abbrev finished : ℕ → ℕ → ℕ → ℕ → MsgObject → Kernel → Kernel
finished vpe dst new source o k1 =
    put_table obj vpe (modify (with_object new) dst (table_of obj vpe k1)) (record k1 {
      objects = with_msg new (record o { derived = true }) (unref_msg source k1.objects);
    })

finished-object :
    (vpe dst new source : ℕ) (o : MsgObject) (k1 : Kernel)
    → (finished vpe dst new source o k1).objects.msgs new ≡ record o { derived = true }
finished-object vpe dst new source o k1 =
    ap (λ (w : Objects). w.msgs new) (put_table-objects obj vpe _ _) ∙ if_equal new _ _

finished-at :
    (vpe dst new source : ℕ) (o : MsgObject) (nc : Capability) (k1 : Kernel)
    → IsReady k1 obj vpe
    → at k1 obj vpe dst ≡ some nc
    → at (finished vpe dst new source o k1) obj vpe dst ≡ some (with_object new nc)
unfolding table_of
finished-at vpe dst new source o nc k1 r e =
    let w = with_msg new (record o { derived = true }) (unref_msg source k1.objects) in
    at-modify (with_object new) obj obj vpe vpe dst dst (record k1 { objects = w }) (r.0 obj vpe)
    ∙ ap (λ b. map_at (with_object new) b (at k1 obj vpe dst)) (same_slot obj vpe dst)
    ∙ ap (map_at (with_object new) true) e

-- A VPE derives from its memory capability at `src` a part of that memory, whose offset is a
-- multiple of 8, to a free selector; the part does not wrap around and lies in the memory. Then the
-- call succeeds, and the capability at the selector has a new object: it is on that part exactly,
-- its permissions are those asked for that the source has, and its memory is not freed when it is
-- revoked.
pub derivemem-IsPart :
    (vpe src dst offset size perms new source i : ℕ) (ep : Option ℕ) (c : Capability) (k : Kernel)
    → dst < 2 ^ 32
    → offset < 2 ^ 64
    → size < 2 ^ 64
    → (k.objects.msgs source).credits < 2 ^ 64
    → addr_of (k.objects.msgs source) + (k.objects.msgs source).credits ≤ 2 ^ 64
    → IsReady k obj vpe
    → IsSource k.members obj vpe src c
    → get_typed src mem_type (table_of obj vpe k) ≡ some c
    → c.body ≡ mem ep source i
    → unused dst (table_of obj vpe k) ≡ true
    → range_ok offset size (k.objects.msgs source).credits ≡ true
    → perms < 8
    → offset % 8 ≡ 0
    → (k' : Kernel) × (nc : Capability) × (derivemem vpe src dst offset size perms new k
        ≡ some (no_error, k'))
      × (at k' obj vpe dst ≡ some nc)
      × (object_of nc ≡ some new)
      × IsPart offset size perms (k.objects.msgs source) (k'.objects.msgs new)
derivemem-IsPart vpe src dst offset size perms new source i ep c k d l z t w r
      (_, _, sel, local, plain, (item, x)) g b u v p a =
    let s = k.objects.msgs source in
    let free = unused-none dst (table_of obj vpe k) u in
    let (bound, some_bytes) = range_ok_bounds offset size s.credits l z t v in
    let (k1, e, adopts) = obtain-Adopts obj vpe dst item c k d r.0 free local r.1 r.2 plain x in
    let objects = obtain-objects obj vpe dst source i ep c _ k k1 b e in
    let counted = ap (λ (w : Objects). w.msgs source) objects ∙ if_equal source _ _ in
    let made = part-made offset size perms s (k1.objects.msgs source) counted p a (omega arith) in
    let found = derive-found vpe dst offset size perms new source c _ k k1 _ e made in
    let o = record (part_object offset size perms s) { derived = false } in
    let placed = copy-at vpe dst c _ k k1 (apart_place src dst c k obj vpe sel g free) adopts in
    let ready = Adopts-IsReady obj vpe dst c _ k k1 r adopts in
    (
      finished vpe dst new source o k1,
      _,
      derivemem-derive vpe src dst offset size perms new source i ep c k _ g b u v p found,
      finished-at vpe dst new source o _ k1 ready placed,
      ground (arith, b),
      subst (IsPart offset size perms s) (sym (finished-object vpe dst new source o k1))
          (part_object-IsPart offset size perms s p a bound),
    )
