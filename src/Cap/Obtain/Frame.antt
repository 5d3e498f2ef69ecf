-- ===== src/Cap/Obtain/Frame.antt =====
-- What `inherit_and_set` changes, and what it leaves alone.
use semper_os.Base.{
  ℕ, ◌<◌, ◌^◌, ◌≡◌, refl, ap, sym, ◌∙◌, Bool, true, false, ◌&&◌, none, some, ◌==◌, if◌then◌else◌,
  if_true, subst, arith,
}
use semper_os.Ddl.Members.{key_locality}
use semper_os.Cap.Capability.{TableType, Capability, cap_type_to_item_type}
use semper_os.Cap.Table.{CapTable, set, modify}
use semper_os.Cap.Table.Lookup.{IsValid, IsValid-if, get-set, get-modify, map_at}
use semper_os.Cap.Kernel.{Kernel, table_of, put_table}
use semper_os.Cap.Obtain.{link_child, inherit_and_set}
use semper_os.Cap.Obtain.Linked.{
  at, same_table, same_table-equal, table_of-put_table, at-set, with_child, link_child-at,
  inherit_and_set-found, adopted, AllTablesValid, put_table-members,
}

-- Is a slot the one at `sel` of a table?
abbrev pub same_place : TableType → ℕ → ℕ → TableType → ℕ → ℕ → Bool
same_place type vpe sel type' vpe' sel' = same_table type vpe type' vpe' && (sel == sel')

set-keeps :
    (sel : ℕ) (c c' : Capability) (t t' : CapTable)
    → set sel c t ≡ some (c', t')
    → (t'.id ≡ t.id) × (t'.type ≡ t.type)
unfolding set
set-keeps sel c c' t t' e = ground arith

pub put_table-AllTablesValid :
    (type : TableType) (vpe : ℕ) (t : CapTable) (k : Kernel)
    → AllTablesValid k
    → IsValid t
    → AllTablesValid (put_table type vpe t k)
put_table-AllTablesValid type vpe t k v w type' vpe' =
    subst IsValid (sym (table_of-put_table type type' vpe vpe' t k))
      (IsValid-if _ _ _ w (v type' vpe'))

-- A table with the id and the type of the one that it replaces.
abbrev pub SameNames : Kernel → Kernel → Type 0
SameNames k k' =
    (type : TableType) (vpe : ℕ)
    → ((table_of type vpe k').id ≡ (table_of type vpe k).id)
      × ((table_of type vpe k').type ≡ (table_of type vpe k).type)

named_if :
    (b : Bool) (t u w : CapTable)
    → (t.id ≡ w.id) × (t.type ≡ w.type)
    → (b ≡ true → w ≡ u)
    → ((if b then t else u).id ≡ u.id) × ((if b then t else u).type ≡ u.type)
named_if true t u w n e = (n.0 ∙ ap (λ x. x.id) (e refl), n.1 ∙ ap (λ x. x.type) (e refl))
named_if false t u w n e = (refl, refl)

put_table-SameNames :
    (type : TableType) (vpe : ℕ) (t : CapTable) (k : Kernel)
    → (t.id ≡ (table_of type vpe k).id) × (t.type ≡ (table_of type vpe k).type)
    → SameNames k (put_table type vpe t k)
put_table-SameNames type vpe t k n type' vpe' =
    let named =
      named_if (same_table type vpe type' vpe') t (table_of type' vpe' k) (table_of type vpe k) n
        (same_table-equal type type' vpe vpe' k) in
    let e = table_of-put_table type type' vpe vpe' t k in
    (ap (λ x. x.id) e ∙ named.0, ap (λ x. x.type) e ∙ named.1)

SameNames-trans : (a b c : Kernel) → SameNames a b → SameNames b c → SameNames a c
SameNames-trans a b c f g type vpe =
    ((g type vpe).0 ∙ (f type vpe).0, (g type vpe).1 ∙ (f type vpe).1)

-- The parent's table with its new child.
abbrev grown : Capability → ℕ → Kernel → CapTable
grown p child k = modify (with_child k.members child) p.sel (table_of p.table_type p.table k)

link_child-local :
    (p : Capability) (child : ℕ) (k : Kernel)
    → key_locality k.members p.id ≡ true
    → link_child p child k ≡ put_table p.table_type p.table (grown p child k) k
unfolding link_child
link_child-local p child k h = if_true _ _ h

grown-names :
    (p : Capability) (child : ℕ) (k : Kernel)
    → ((grown p child k).id ≡ (table_of p.table_type p.table k).id)
      × ((grown p child k).type ≡ (table_of p.table_type p.table k).type)
unfolding modify
grown-names p child k = (refl, refl)

-- What is known of a kernel after a capability was set as a child of `p`: the child is in its slot,
-- the parent has it in its list, and nothing else changed.
abbrev pub Adopts : TableType → ℕ → ℕ → Capability → Capability → Kernel → Kernel → Type 0
Adopts type vpe dst p c k k' =
    (k'.members ≡ k.members)
    × AllTablesValid k'
    × SameNames k k'
    × ((type' : TableType) (vpe' sel : ℕ)
        → at k' type' vpe' sel
          ≡ map_at (with_child k.members c.id)
              (same_place p.table_type p.table p.sel type' vpe' sel)
              (if same_place type vpe dst type' vpe' sel then some c else at k type' vpe' sel))

pub inherit_and_set-Adopts :
    (type : TableType) (vpe dst item : ℕ) (p child : Capability) (k : Kernel)
    → dst < 2 ^ 32
    → AllTablesValid k
    → at k type vpe dst ≡ none
    → key_locality k.members p.id ≡ true
    → child.table ≡ (table_of type vpe k).id
    → child.table_type ≡ (table_of type vpe k).type
    → child.sel ≡ dst
    → cap_type_to_item_type child.type ≡ some item
    → let c = adopted type vpe dst item p child k in
      (k' : Kernel) × (inherit_and_set type vpe p child dst k ≡ some (c, k'))
      × Adopts type vpe dst p c k k'
inherit_and_set-Adopts type vpe dst item p child k b v free local e0 e1 e2 e3 =
    let c = adopted type vpe dst item p child k in
    let (t, e, vt, g) =
      get-set dst item (record child { parent = p.id }) (table_of type vpe k) b (v type vpe) free e0
        e1 e2 e3 in
    let k1 = put_table type vpe t k in
    let members = put_table-members type vpe t k in
    let here = ap (λ m. key_locality m p.id) members ∙ local in
    let v1 = put_table-AllTablesValid type vpe t k v vt in
    let linked = link_child-local p c.id k1 here in
    let grown1 = grown p c.id k1 in
    let names1 = put_table-SameNames type vpe t k (set-keeps dst _ _ _ _ e) in
    (
      link_child p c.id k1,
      inherit_and_set-found type vpe dst p child c t k e,
      (
        ap (λ x. x.members) linked ∙ put_table-members p.table_type p.table grown1 k1 ∙ members,
        subst AllTablesValid (sym linked) (
            put_table-AllTablesValid p.table_type p.table grown1 k1 v1
              (get-modify p.sel 0 (with_child k1.members c.id) (table_of p.table_type p.table k1)
                (v1 p.table_type p.table)).0),
        SameNames-trans k k1 (link_child p c.id k1) names1 (
            subst (SameNames k1) (sym linked)
              (put_table-SameNames p.table_type p.table grown1 k1 (grown-names p c.id k1))),
        (λ type' vpe' sel.
            link_child-at p c.id k1 type' vpe' sel here (v1 p.table_type p.table)
            ∙ ap
                (λ m.
                  map_at (with_child m c.id) (same_place p.table_type p.table p.sel type' vpe' sel)
                    (at k1 type' vpe' sel))
                members
            ∙ ap
                (map_at (with_child k.members c.id)
                  (same_place p.table_type p.table p.sel type' vpe' sel))
                (at-set type type' vpe vpe' dst sel c t k (g sel))),
      ),
    )
