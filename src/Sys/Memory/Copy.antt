-- ===== src/Sys/Memory/Copy.antt =====
-- The copy that `derivemem` starts from.
use semper_os.Base.{
  ℕ, ◌≡◌, ◌≢◌, refl, ap, sym, ◌∙◌, Bool, false, ◌&&◌, Option, none, [], some, ◌==◌, if◌then◌else◌,
  arith, Option-cases, Bool-cases, inl, inr, if_true, if_false,
}
use semper_os.Ddl.Members.{key_locality}
use semper_os.Cap.Capability.{
  TableType, obj, map, mem, Capability, Objects, mem_type, clone, clone_body, copied_parent,
  inc_ref,
}
use semper_os.Cap.Table.{CapTable, get, get_typed, set}
use semper_os.Cap.Table.Lookup.{map_at}
use semper_os.Cap.Kernel.{Kernel, table_of, put_table}
use semper_os.Cap.Obtain.{obtain, inherit_and_set, setparent_and_set, link_child}
use semper_os.Cap.Obtain.Linked.{at, same_table, map_at-false, with_child, same_slot}
use semper_os.Cap.Obtain.Frame.{Adopts, same_place}
use semper_os.Sys.Memory.{with_msg}

pub put_table-objects :
    (type : TableType) (vpe : ℕ) (t : CapTable) (k : Kernel)
    → (put_table type vpe t k).objects ≡ k.objects
unfolding put_table
put_table-objects obj vpe t k = refl
put_table-objects map vpe t k = refl

pub link_child-objects :
    (p : Capability) (child : ℕ) (k : Kernel) → (link_child p child k).objects ≡ k.objects
unfolding link_child
link_child-objects p child k = elim (Bool-cases (key_locality k.members p.id)) [
  | inl e ↦
      ap (λ (x : Kernel). x.objects) (if_true _ _ e) ∙ put_table-objects p.table_type p.table _ k
  | inr e ↦ ap (λ (x : Kernel). x.objects) (if_false _ _ e)
]

pub inherit_and_set-objects :
    (type : TableType) (vpe dst : ℕ) (p child c : Capability) (k k' : Kernel)
    → inherit_and_set type vpe p child dst k ≡ some (c, k')
    → k'.objects ≡ k.objects
unfolding inherit_and_set setparent_and_set
inherit_and_set-objects type vpe dst p child c k k' e =
    elim (Option-cases (set dst (record child { parent = p.id }) (table_of type vpe k))) [
      | inl q ↦ ground (arith, e, q)
      | inr (r, q) ↦ ground (
        arith,
        e,
        q,
        put_table-objects type vpe r.1 k,
        link_child-objects p r.0.id (put_table type vpe r.1 k),
      )
    ]

pub clone-memory :
    (type : TableType) (vpe dst source i : ℕ) (ep : Option ℕ) (c : Capability) (w : Objects)
    → c.body ≡ mem ep source i
    → let r = w.msgs source in
      (child : Capability) × (clone c type vpe dst w
        ≡ some (child, with_msg source (record r { refs = inc_ref r.refs }) w))
unfolding clone clone_body
clone-memory type vpe dst source i ep c w b = (
  record {
    type = c.type;
    id = 0;
    table = vpe;
    table_type = type;
    sel = dst;
    parent = copied_parent c.body c.parent;
    children = [];
    body = mem none source i;
  },
  ground (arith, b),
)

-- A copy of a memory capability counts as a reference to its object.
pub obtain-objects :
    (type : TableType) (vpe dst source i : ℕ) (ep : Option ℕ) (c nc : Capability) (k k' : Kernel)
    → c.body ≡ mem ep source i
    → obtain type vpe dst c k ≡ some (some nc, k')
    → let r = k.objects.msgs source in
      k'.objects ≡ with_msg source (record r { refs = inc_ref r.refs }) k.objects
unfolding obtain clone
obtain-objects type vpe dst source i ep c nc k k' b e =
    let r = k.objects.msgs source in
    let w = with_msg source (record r { refs = inc_ref r.refs }) k.objects in
    let (child, q) = clone-memory type vpe dst source i ep c k.objects b in
    elim (Option-cases (inherit_and_set type vpe c child dst (record k { objects = w }))) [
      | inl x ↦ ground (arith, e, q, x)
      | inr (y, x) ↦
          let same =
            inherit_and_set-objects type vpe dst c child y.0 (record k { objects = w }) y.1 x in
          ground (arith, e, q, x, same)
    ]

pub apart_sel : (b : Bool) (m n : ℕ) → m ≢ n → b && (m == n) ≡ false
apart_sel b m n h = ground arith

-- The source and the destination are different slots.
pub apart_place :
    (src dst : ℕ) (c : Capability) (k : Kernel) (type : TableType) (vpe : ℕ)
    → c.sel ≡ src
    → get_typed src mem_type (table_of type vpe k) ≡ some c
    → at k type vpe dst ≡ none
    → same_place c.table_type c.table c.sel type vpe dst ≡ false
unfolding get_typed
apart_place src dst c k type vpe e g f =
    apart_sel (same_table c.table_type c.table type vpe) c.sel dst
      (λ q. ground (arith, g, ap (λ i. get i (table_of type vpe k)) (sym e ∙ q), f))

-- The copy is in its slot, with no child yet.
pub copy-at :
    (vpe dst : ℕ) (c nc : Capability) (k k1 : Kernel)
    → same_place c.table_type c.table c.sel obj vpe dst ≡ false
    → Adopts obj vpe dst c nc k k1
    → at k1 obj vpe dst ≡ some nc
copy-at vpe dst c nc k k1 n (m, v, names, f) =
    f obj vpe dst
    ∙ ap
        (λ b.
          map_at (with_child k.members nc.id) b
            (if same_place obj vpe dst obj vpe dst then some nc else at k obj vpe dst))
        n
    ∙ map_at-false (with_child k.members nc.id) _
    ∙ if_true (some nc) (at k obj vpe dst) (same_slot obj vpe dst)
