-- ===== src/Sys/Buffers/Beyond.antt =====
-- An endpoint beyond those of a PE.
use semper_os.Base.{
  ℕ, zero, suc, ◌+◌, ◌*◌, ◌^◌, ◌≤◌, ◌<◌, true, false, List, ◌∷◌, ◌++◌, some, ◌≡◌, refl, ◌∙◌, arith,
  length,
}
use semper_os.Base.Errors.{no_error}
use semper_os.Cap.Capability.{obj, Capability, vpe_type}
use semper_os.Cap.Table.{get_typed}
use semper_os.Cap.Kernel.{Kernel, table_of}
use semper_os.Com.RecvBufs.{
  RBuf, RecvBufs, get, put, attach, is_in_way, find_overlap, has_attached, attached_buf, configure,
  notify,
}
use semper_os.Com.RecvBufs.Access.{get_inside, get_plain, get-put_self, get-put_other}
use semper_os.Sys.Exchange.{vpe_of}
use semper_os.Sys.Buffers.{PeDesc, Vpes, in_space, attachrb}

-- No endpoint of a PE has a buffer.
abbrev pub IsFree : ℕ → List RBuf → Type 0
IsFree core bufs =
    (i : ℕ) (b : RBuf) → i < 16 → get core i bufs ≡ some b → has_attached b.flags ≡ false

find_overlap-IsFree :
    (core epid addr order i left : ℕ) (bufs : List RBuf)
    → core < 2 ^ 32
    → i + left ≤ 16
    → core * 16 + 16 ≤ length bufs
    → IsFree core bufs
    → find_overlap core epid addr order i left bufs ≡ some false
unfolding find_overlap is_in_way
find_overlap-IsFree core epid addr order i zero bufs l m n f = refl
find_overlap-IsFree core epid addr order i (suc left) bufs l m n f =
    let (r, e) = get_inside core i bufs l (omega arith) (omega arith) in
    ground (
      arith,
      find_overlap-IsFree core epid addr order (i + 1) left bufs l (omega arith) n f,
      e,
      f i r (omega arith) e,
    )

-- Endpoint `16 + ep` of a PE is the place of endpoint `ep` of the next PE.
get_next :
    (core ep : ℕ) (bufs : List RBuf)
    → core + 1 < 2 ^ 32
    → ep < 16
    → get core (16 + ep) bufs ≡ get (core + 1) ep bufs
get_next core ep bufs l m = ground (
  arith,
  get_plain core (16 + ep) bufs (omega arith) (omega arith),
  get_plain (core + 1) ep bufs l (omega arith),
)

-- A VPE attaches a buffer to a VPE that it controls, on a PE none of whose endpoints has a buffer, in
-- the space for buffers, but at endpoint `16 + ep`, where a PE has 16 endpoints. The call succeeds:
-- it attaches the buffer at endpoint `ep` of the next PE, if that has none, and no endpoint of the
-- VPE's own PE changes.
pub attachrb_next_pe :
    (vpe tcap target ep addr order msgorder flags : ℕ) (pes : ℕ → PeDesc) (vpes : Vpes)
    (c : Capability) (r : RBuf) (k : Kernel) (s : RecvBufs)
    → get_typed tcap vpe_type (table_of obj vpe k) ≡ some c
    → vpe_of c ≡ some target
    → let core = vpes.core_of target in
      core + 1 < 2 ^ 32
      → ep < 16
      → core * 16 + 16 ≤ length s.bufs
      → get (core + 1) ep s.bufs ≡ some r
      → has_attached r.flags ≡ false
      → IsFree core s.bufs
      → in_space (pes core) (vpes.is_loadgen vpe) addr order msgorder ≡ true
      → (s' : RecvBufs) × (attachrb vpe tcap (16 + ep) addr order msgorder flags pes vpes k s
          ≡ some (no_error, s'))
        × (get (core + 1) ep s'.bufs ≡ some (attached_buf addr order msgorder flags r))
        × ((i : ℕ) → i < 16 → get core i s'.bufs ≡ get core i s.bufs)
unfolding attachrb attach
attachrb_next_pe vpe tcap target ep addr order msgorder flags pes vpes c r k s g v l m n e h f a =
    let here = vpes.core_of target in
    let there : get here (16 + ep) s.bufs ≡ some r = get_next here ep s.bufs l m ∙ e in
    let new : RBuf = attached_buf addr order msgorder flags r in
    (
      record {
        bufs = put here (16 + ep) new s.bufs;
        done = s.done ++ configure here (16 + ep) new ∷ notify r true;
      },
      ground (
        arith,
        g,
        v,
        a,
        there,
        h,
        find_overlap-IsFree here (16 + ep) addr order 0 16 s.bufs (omega arith) (omega arith) n f,
      ),
      get-put_self here (16 + ep) (here + 1) ep new r s.bufs (omega arith) (omega arith) l
          (omega arith) (omega arith) there,
      λ i o.
          get-put_other here (16 + ep) here i new s.bufs (omega arith) (omega arith) (omega arith)
            (omega arith) (omega arith),
    )
