-- ===== src/Sys/Exchange/Rounds.antt =====
-- One round of the loop of an exchange.
use semper_os.Base.{
  ℕ, suc, ◌+◌, ◌%◌, ◌^◌, ◌<◌, ◌≡◌, ◌≢◌, refl, ap, sym, ◌∙◌, true, false, Option, none, some,
  if◌then◌else◌, arith, subst, if_true, if_false, ℕ_discrete,
}
use semper_os.Cap.Capability.{TableType, obj, map, Capability, cap_type_to_item_type}
use semper_os.Cap.Kernel.{Kernel}
use semper_os.Cap.Obtain.{obtain}
use semper_os.Cap.Obtain.Linked.{at}
use semper_os.Cap.Obtain.Frame.{Adopts, same_place}
use semper_os.Cap.Obtain.Copy.{copied}
use semper_os.Sys.Exchange.{obtain_at, copy_range}
use semper_os.Sys.Exchange.Sources.{
  trimmed, copy_of, IsSource, IfSome, AreSources, AreFree, or_zero, item_of, inside, Copied,
  trimmed-map_at, copy_of-trimmed, to_trimmed, from_trimmed, trimmed-none,
}

-- A step leaves all but its slot as it was, but for children.
pub Adopts-trimmed :
    (type : TableType) (vpe dst : ℕ) (p c : Capability) (k k' : Kernel)
    → Adopts type vpe dst p c k k'
    → (type' : TableType) (vpe' sel : ℕ)
    → trimmed (at k' type' vpe' sel)
      ≡ trimmed (if same_place type vpe dst type' vpe' sel then some c else at k type' vpe' sel)
Adopts-trimmed type vpe dst p c k k' (m, v, n, f) type' vpe' sel =
    ap trimmed (f type' vpe' sel) ∙ trimmed-map_at k.members c.id _ _

pub other_vpe :
    (type : TableType) (src dst to s : ℕ) → src ≢ dst → same_place type dst to type src s ≡ false
other_vpe obj src dst to s n = ground arith
other_vpe map src dst to s n = ground arith

pub not_here :
    (type : TableType) (dst to t : ℕ) → to < t → same_place type dst to type dst t ≡ false
not_here obj dst to t h = ground arith
not_here map dst to t h = ground arith

pub same_here : (type : TableType) (dst to : ℕ) → same_place type dst to type dst to ≡ true
same_here obj dst to = ground arith
same_here map dst to = ground arith

pub other_slot :
    (type type' : TableType) (vpe vpe' to count sel : ℕ)
    → inside type vpe to (suc count) type' vpe' sel ≡ false
    → (same_place type vpe to type' vpe' sel ≡ false)
      × (inside type vpe (suc to) count type' vpe' sel ≡ false)
other_slot type type' vpe vpe' to count sel h = ground arith

pub step_none :
    (type : TableType) (src dst from to count : ℕ) (k : Kernel)
    → at k type dst to ≡ none
    → at k type src from ≡ none
    → copy_range type src dst from to (suc count) k
      ≡ copy_range type src dst ((from + 1) % 2 ^ 32) ((to + 1) % 2 ^ 32) count k
unfolding copy_range obtain_at
step_none type src dst from to count k e f = ground (arith, e, f)

pub step_some :
    (type : TableType) (src dst from to count : ℕ) (c nc : Capability) (k k' : Kernel)
    → at k type dst to ≡ none
    → at k type src from ≡ some c
    → obtain type dst to c k ≡ some (some nc, k')
    → copy_range type src dst from to (suc count) k
      ≡ copy_range type src dst ((from + 1) % 2 ^ 32) ((to + 1) % 2 ^ 32) count k'
unfolding copy_range obtain_at
step_some type src dst from to count c nc k k' e f g = ground (arith, e, f, g)

-- One round: the copy is there, and all other slots are the same but for children.
abbrev pub Round : TableType → (src dst from to : ℕ) → Kernel → Kernel → Type 0
Round type src dst from to k k1 =
    (k1.members ≡ k.members)
    × (trimmed (at k1 type dst to)
        ≡ copy_of type dst to (item_of (at k type src from)) (at k type src from))
    × ((type' : TableType) (vpe' sel : ℕ)
        → same_place type dst to type' vpe' sel ≡ false
        → trimmed (at k1 type' vpe' sel) ≡ trimmed (at k type' vpe' sel))

pub source_same :
    (type : TableType) (dst t : ℕ) (o o' : Option Capability)
    → trimmed o' ≡ trimmed o
    → copy_of type dst t (item_of o') o' ≡ copy_of type dst t (item_of o) o
source_same type dst t o o' e =
    sym (copy_of-trimmed type dst t o')
    ∙ ap (λ x. copy_of type dst t (item_of x) x) e
    ∙ copy_of-trimmed type dst t o

pub not_inside :
    (type : TableType) (dst to count : ℕ) → inside type dst (suc to) count type dst to ≡ false
not_inside obj dst to count = ground arith
not_inside map dst to count = ground arith

pub Round-Copied :
    (type : TableType) (src dst from to count : ℕ) (k k1 k' : Kernel)
    → src ≢ dst
    → Round type src dst from to k k1
    → Copied type src dst (suc from) (suc to) count k1 k'
    → Copied type src dst from to (suc count) k k'
Round-Copied type src dst from to count k k1 k' n (m, here, others) (f, g) = (
  (λ s t h l e. elim (ℕ_discrete s from) [
    | yes q ↦
        let at_to = g type dst to (not_inside type dst to count) ∙ here in
        subst
          (λ t.
            trimmed (at k' type dst t)
            ≡ copy_of type dst t (item_of (at k type src s)) (at k type src s))
          {x = to} (omega arith)
          (subst
            (λ s.
              trimmed (at k' type dst to)
              ≡ copy_of type dst to (item_of (at k type src s)) (at k type src s))
            (sym q) at_to)
    | no q ↦
        f s t (omega arith) (omega arith) (omega arith)
        ∙ source_same type dst t (at k type src s) (at k1 type src s)
            (others type src s (other_vpe type src dst to s n))
  ]),
  (λ type' vpe' sel h.
      let (apart, out) = other_slot type type' dst vpe' to count sel h in
      g type' vpe' sel out ∙ others type' vpe' sel apart),
)

pub Round-AreSources :
    (type : TableType) (src dst from to count : ℕ) (k k1 : Kernel)
    → src ≢ dst
    → Round type src dst from to k k1
    → AreSources k type src from (suc count)
    → AreSources k1 type src (suc from) count
Round-AreSources type src dst from to count k k1 n (m, here, others) u s h l =
    let same = others type src s (other_vpe type src dst to s n) in
    let source = to_trimmed k.members type src s _ (u s (omega arith) (omega arith)) in
    subst (λ m. IfSome (IsSource m type src s) (at k1 type src s)) (sym m)
      (from_trimmed k.members type src s _
        (subst (IfSome (IsSource k.members type src s)) (sym same) source))

pub Round-AreFree :
    (type : TableType) (src dst from to count : ℕ) (k k1 : Kernel)
    → Round type src dst from to k k1
    → AreFree k type dst to (suc count)
    → AreFree k1 type dst (suc to) count
Round-AreFree type src dst from to count k k1 (m, here, others) v t h l =
    trimmed-none _
      (others type dst t (not_here type dst to t h) ∙ ap trimmed (v t (omega arith) (omega arith)))

-- The round of a source that is not there changes nothing.
pub nothing-Round :
    (type : TableType) (src dst from to : ℕ) (k : Kernel)
    → at k type dst to ≡ none
    → at k type src from ≡ none
    → Round type src dst from to k k
nothing-Round type src dst from to k e f = (
  refl,
  ap trimmed e ∙ sym (ap (λ o. copy_of type dst to (item_of o) o) f),
  λ type' vpe' sel h. refl,
)

pub Adopts-Round :
    (type : TableType) (src dst from to item : ℕ) (c : Capability) (k k1 : Kernel)
    → at k type src from ≡ some c
    → cap_type_to_item_type c.type ≡ some item
    → Adopts type dst to c (copied type dst to item c) k k1
    → Round type src dst from to k k1
Adopts-Round type src dst from to item c k k1 e i a = (
  a.0,
  Adopts-trimmed type dst to c _ k k1 a type dst to
      ∙ ap trimmed (if_true _ _ (same_here type dst to))
      ∙ sym (ap (λ x. some (copied type dst to (or_zero x) c)) i)
      ∙ sym (ap (λ o. copy_of type dst to (item_of o) o) e),
  (λ type' vpe' sel h.
      Adopts-trimmed type dst to c _ k k1 a type' vpe' sel ∙ ap trimmed (if_false _ _ h)),
)
