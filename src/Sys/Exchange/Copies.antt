-- ===== src/Sys/Exchange/Copies.antt =====
-- What an exchange copies.
use semper_os.Base.{
  ℕ, zero, suc, ◌+◌, ◌-◌, ◌%◌, ◌^◌, ◌<◌, ◌≤◌, ◌≡◌, ◌≢◌, refl, ap, sym, ◌∙◌, Bool, true, false, some,
  if◌then◌else◌, arith, subst, Option-cases, inl, inr, if_true, if_false, Bool-cases,
}
use semper_os.Base.Errors.{no_error}
use semper_os.Cap.Capability.{TableType, obj, Capability}
use semper_os.Cap.Table.{get, range_unused, unused}
use semper_os.Cap.Table.Lookup.{range_used_iff}
use semper_os.Cap.Kernel.{Kernel, table_of}
use semper_os.Cap.Obtain.Linked.{at, same_table, same_table-equal}
use semper_os.Cap.Obtain.Frame.{Adopts}
use semper_os.Cap.Obtain.Copy.{obtain-Adopts}
use semper_os.Sys.Exchange.{cap_range, copy_range, do_exchange}
use semper_os.Sys.Exchange.Sources.{
  trimmed, copy_of, IsSource, IfSome, IsReady, AreSources, AreFree, item_of, inside, Copied,
}
use semper_os.Sys.Exchange.Rounds.{
  step_none, step_some, Round, Round-Copied, Round-AreSources, Round-AreFree, nothing-Round,
  Adopts-Round,
}

-- The loop ends, and has copied.
abbrev Succeeds : ℕ → TableType → (src dst from to : ℕ) → Kernel → Type 0
Succeeds count type src dst from to k =
    (k' : Kernel) × (copy_range type src dst from to count k ≡ some k')
    × IsReady k' type dst
    × Copied type src dst from to count k k'

Round-Succeeds :
    (count : ℕ) (type : TableType) (src dst from to : ℕ) (k k1 : Kernel)
    → src ≢ dst
    → from + suc count < 2 ^ 32
    → to + suc count < 2 ^ 32
    → Round type src dst from to k k1
    → copy_range type src dst from to (suc count) k
      ≡ copy_range type src dst ((from + 1) % 2 ^ 32) ((to + 1) % 2 ^ 32) count k1
    → Succeeds count type src dst (suc from) (suc to) k1
    → Succeeds (suc count) type src dst from to k
Round-Succeeds count type src dst from to k k1 n p q round e (k', f, ready, rest) =
    let next : (from + 1) % 2 ^ 32 ≡ suc from = omega arith in
    let next_to : (to + 1) % 2 ^ 32 ≡ suc to = omega arith in
    (
      k',
      e
          ∙ ap (λ i. copy_range type src dst i ((to + 1) % 2 ^ 32) count k1) next
          ∙ ap (λ i. copy_range type src dst (suc from) i count k1) next_to
          ∙ f,
      ready,
      Round-Copied type src dst from to count k k1 k' n round rest,
    )

pub Adopts-IsReady :
    (type : TableType) (dst to : ℕ) (p c : Capability) (k k1 : Kernel)
    → IsReady k type dst
    → Adopts type dst to p c k k1
    → IsReady k1 type dst
Adopts-IsReady type dst to p c k k1 (v, i, t) (m, w, names, f) =
    (w, (names type dst).0 ∙ i, (names type dst).1 ∙ t)

copies :
    (count : ℕ) (type : TableType) (src dst from to : ℕ) (k : Kernel)
    → src ≢ dst
    → from + count < 2 ^ 32
    → to + count < 2 ^ 32
    → IsReady k type dst
    → AreSources k type src from count
    → AreFree k type dst to count
    → Succeeds count type src dst from to k
unfolding copy_range
copies zero type src dst from to k n p q r u v =
    (k, refl, r, ((λ s t h l e. absurd (omega arith)), (λ type' vpe' sel h. refl)))
copies (suc count) type src dst from to k n p q r u v =
    let free = v to (omega arith) (omega arith) in
    elim (Option-cases (at k type src from)) [
      | inl e ↦
          let round = nothing-Round type src dst from to k free e in
          Round-Succeeds count type src dst from to k k n p q round
            (step_none type src dst from to count k free e)
            (copies count type src dst (suc from) (suc to) k n (omega arith) (omega arith) r
              (Round-AreSources type src dst from to count k k n round u)
              (Round-AreFree type src dst from to count k k round v))
      | inr (c, e) ↦
          let (table, typed, sel, local, plain, (item, i)) =
            subst (IfSome (IsSource k.members type src from)) e
              (u from (omega arith) (omega arith)) in
          let (k1, g, a) =
            obtain-Adopts type dst to item c k (omega arith) r.0 free local r.1 r.2 plain i in
          let round = Adopts-Round type src dst from to item c k k1 e i a in
          Round-Succeeds count type src dst from to k k1 n p q round
            (step_some type src dst from to count c _ k k1 free e g)
            (copies count type src dst (suc from) (suc to) k1 n (omega arith) (omega arith)
              (Adopts-IsReady type dst to c _ k k1 r a)
              (Round-AreSources type src dst from to count k k1 n round u)
              (Round-AreFree type src dst from to count k k1 round v))
    ]

AreFree-of_unused :
    (vpe to count to_count : ℕ) (k : Kernel)
    → to < 2 ^ 32
    → to_count < 2 ^ 32
    → count ≤ to_count
    → range_unused to to_count (table_of obj vpe k) ≡ true
    → (to + count < 2 ^ 32) × AreFree k obj vpe to count
unfolding unused
AreFree-of_unused vpe to count to_count k b c l e =
    let (bound, free) = (range_used_iff to to_count (table_of obj vpe k) b c).1.0 e in
    (omega arith, λ t h g. ground (arith, free t h (omega arith)))

-- Every slot afterwards, but for children: those of the destination's range hold the copies.
abbrev pub IsExchanged : (src dst from to count : ℕ) → Kernel → Kernel → Type 0
IsExchanged src dst from to count k k' =
    (type : TableType) (vpe sel : ℕ)
    → let o = at k obj src (from + (sel - to)) in
      trimmed (at k' type vpe sel) ≡ (
        if inside obj dst to count type vpe sel
        then copy_of obj dst sel (item_of o) o
        else trimmed (at k type vpe sel))

inside_table :
    (type : TableType) (dst to count vpe sel : ℕ)
    → inside obj dst to count type vpe sel ≡ true
    → (same_table obj dst type vpe ≡ true) × (to ≤ sel) × (sel < to + count)
inside_table type dst to count vpe sel h = ground arith

Copied-IsExchanged :
    (src dst from to count : ℕ) (k k' : Kernel)
    → Copied obj src dst from to count k k'
    → IsExchanged src dst from to count k k'
Copied-IsExchanged src dst from to count k k' (f, g) type vpe sel =
    elim (Bool-cases (inside obj dst to count type vpe sel)) [
      | inl e ↦
          let (t, l, h) = inside_table type dst to count vpe sel e in
          sym (ap (λ x. trimmed (get sel x)) (same_table-equal obj type dst vpe k' t))
          ∙ f (from + (sel - to)) sel (omega arith) (omega arith) (omega arith)
          ∙ sym (if_true _ _ e)
      | inr e ↦ g type vpe sel e ∙ sym (if_false _ _ e)
    ]

-- Two VPEs of a kernel exchange object capabilities, in either direction: `src` gives a range of
-- `count` selectors, and `dst` takes them at the start of a range that is free and has that size, or
-- at least that size if `dst` obtains. The source range does not wrap around. Each
-- capability of it is no service, and its key is with this kernel. Then the exchange succeeds;
-- the destination has a copy of each capability of the source at the same place of its range,
-- with its own key and with the source as its parent, at no endpoint and, for a VPE, without an
-- initialised `vpe_id`, and nothing where the source has nothing; and every other capability is the
-- same but for its children.
pub do_exchange-copies :
    (is_obtain : Bool) (src dst from to count to_count : ℕ) (k : Kernel)
    → src ≢ dst
    → from + count < 2 ^ 32
    → to < 2 ^ 32
    → to_count < 2 ^ 32
    → count ≤ to_count
    → (is_obtain ≡ false → to_count ≡ count)
    → IsReady k obj dst
    → AreSources k obj src from count
    → range_unused to to_count (table_of obj dst k) ≡ true
    → let v1 = if is_obtain then dst else src in
      let v2 = if is_obtain then src else dst in
      let taken = cap_range obj to to_count in
      let given = cap_range obj from count in
      let c1 = if is_obtain then taken else given in
      let c2 = if is_obtain then given else taken in
      (k' : Kernel) × (do_exchange v1 v2 c1 c2 is_obtain k ≡ some (no_error, k'))
      × IsExchanged src dst from to count k k'
unfolding do_exchange
do_exchange-copies true src dst from to count to_count k n p b c l same r u free =
    let (bound, v) = AreFree-of_unused dst to count to_count k b c l free in
    let (k', e, ready, done) = copies count obj src dst from to k n p bound r u v in
    (k', ground (arith, e, free), Copied-IsExchanged src dst from to count k k' done)
do_exchange-copies false src dst from to count to_count k n p b c l same r u free =
    let (bound, v) = AreFree-of_unused dst to count to_count k b c l free in
    let (k', e, ready, done) = copies count obj src dst from to k n p bound r u v in
    (k', ground (arith, e, free, same refl), Copied-IsExchanged src dst from to count k k' done)
