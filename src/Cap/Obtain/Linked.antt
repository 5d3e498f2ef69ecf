-- ===== src/Cap/Obtain/Linked.antt =====
-- A child and its parent after `inherit_and_set`.
use semper_os.Base.{
  ℕ, ◌<◌, ◌^◌, ◌≡◌, refl, ap, sym, ◌∙◌, Bool, true, false, ◌&&◌, Option, none, some, ◌==◌,
  if◌then◌else◌, is_equal, if_true, if_false, subst, ◌≢◌, arith,
}
use semper_os.Ddl.Members.{Members, key_locality}
use semper_os.Cap.Capability.{TableType, obj, map, Capability, cap_type_to_item_type}
use semper_os.Cap.Children.{add_child}
use semper_os.Cap.Table.{CapTable, get, set, modify, cap_key, same_type}
use semper_os.Cap.Table.Lookup.{IsValid, IsValid-if, get-set, get-modify, map_at}
use semper_os.Cap.Kernel.{Kernel, table_of, put_table}
use semper_os.Cap.Obtain.{setparent_and_set, link_child, inherit_and_set}

-- The capability at a selector of the table of a type and a VPE.
abbrev pub at : Kernel → TableType → ℕ → ℕ → Option Capability
at k type vpe sel = get sel (table_of type vpe k)

abbrev pub same_table : TableType → ℕ → TableType → ℕ → Bool
same_table type vpe type' vpe' = same_type type type' && (vpe == vpe')

pub table_of-put_table :
    (type type' : TableType) (vpe vpe' : ℕ) (t : CapTable) (k : Kernel)
    → table_of type' vpe' (put_table type vpe t k)
      ≡ (if same_table type vpe type' vpe' then t else table_of type' vpe' k)
unfolding table_of put_table
table_of-put_table obj obj vpe vpe' t k = refl
table_of-put_table obj map vpe vpe' t k = refl
table_of-put_table map obj vpe vpe' t k = refl
table_of-put_table map map vpe vpe' t k = refl

pub same_table-equal :
    (type type' : TableType) (vpe vpe' : ℕ) (k : Kernel)
    → same_table type vpe type' vpe' ≡ true
    → table_of type vpe k ≡ table_of type' vpe' k
same_table-equal obj obj vpe vpe' k h = ap (λ v. table_of obj v k) (is_equal vpe vpe' h)
same_table-equal obj map vpe vpe' k h = ground arith
same_table-equal map obj vpe vpe' k h = ground arith
same_table-equal map map vpe vpe' k h = ap (λ v. table_of map v k) (is_equal vpe vpe' h)

get-if_some :
    (b d : Bool) (sel : ℕ) (t u : CapTable) (c : Capability)
    → (b ≡ true → get sel t ≡ (if d then some c else get sel u))
    → get sel (if b then t else u) ≡ (if b && d then some c else get sel u)
get-if_some true d sel t u c h = h refl
get-if_some false d sel t u c h = refl

-- A table with one more capability is put back.
pub at-set :
    (type type' : TableType) (vpe vpe' dst sel : ℕ) (c : Capability) (t : CapTable) (k : Kernel)
    → get sel t ≡ (if dst == sel then some c else at k type vpe sel)
    → at (put_table type vpe t k) type' vpe' sel
      ≡ (if same_table type vpe type' vpe' && (dst == sel) then some c else at k type' vpe' sel)
at-set type type' vpe vpe' dst sel c t k h =
    ap (get sel) (table_of-put_table type type' vpe vpe' t k)
    ∙ get-if_some (same_table type vpe type' vpe') (dst == sel) sel t (table_of type' vpe' k) c
        (λ e.
          h
          ∙ ap (λ u. if dst == sel then some c else get sel u)
              (same_table-equal type type' vpe vpe' k e))

pub map_at-false : (f : Capability → Capability) (o : Option Capability) → map_at f false o ≡ o
map_at-false f none = refl
map_at-false f (some c) = refl

map_at-if :
    (f : Capability → Capability) (b d : Bool) (sel : ℕ) (t u : CapTable)
    → (b ≡ true → get sel t ≡ map_at f d (get sel u))
    → get sel (if b then t else u) ≡ map_at f (b && d) (get sel u)
map_at-if f true d sel t u h = h refl
map_at-if f false d sel t u h = sym (map_at-false f (get sel u))

-- A table with one capability changed is put back.
pub at-modify :
    (f : Capability → Capability) (type type' : TableType) (vpe vpe' sel sel' : ℕ) (k : Kernel)
    → IsValid (table_of type vpe k)
    → at (put_table type vpe (modify f sel (table_of type vpe k)) k) type' vpe' sel'
      ≡ map_at f (same_table type vpe type' vpe' && (sel == sel')) (at k type' vpe' sel')
at-modify f type type' vpe vpe' sel sel' k v =
    ap (get sel') (table_of-put_table type type' vpe vpe' _ k)
    ∙ map_at-if f (same_table type vpe type' vpe') (sel == sel') sel' _ (table_of type' vpe' k)
        (λ e.
          (get-modify sel sel' f (table_of type vpe k) v).1
          ∙ ap (λ u. map_at f (sel == sel') (get sel' u))
              (same_table-equal type type' vpe vpe' k e))

not_both :
    (b d : Bool) (x y : Option Capability) → x ≢ y → (b ≡ true → d ≡ true → x ≡ y) → b && d ≡ false
not_both true true x y n h = absurd (n (h refl refl))
not_both true false x y n h = refl
not_both false d x y n h = refl

-- Slots with different contents.
apart_slots :
    (type type' : TableType) (vpe vpe' sel sel' : ℕ) (x y : Option Capability) (k : Kernel)
    → x ≢ y
    → at k type vpe sel ≡ x
    → at k type' vpe' sel' ≡ y
    → same_table type vpe type' vpe' && (sel == sel') ≡ false
apart_slots type type' vpe vpe' sel sel' x y k n e f =
    not_both (same_table type vpe type' vpe') (sel == sel') x y n (λ b d.
      sym e
      ∙ ap (get sel) (same_table-equal type type' vpe vpe' k b)
      ∙ ap (λ s. at k type' vpe' s) (is_equal sel sel' d)
      ∙ f)

pub same_slot :
    (type : TableType) (vpe sel : ℕ) → same_table type vpe type vpe && (sel == sel) ≡ true
same_slot obj vpe sel = ground arith
same_slot map vpe sel = ground arith

pub put_table-members :
    (type : TableType) (vpe : ℕ) (t : CapTable) (k : Kernel)
    → (put_table type vpe t k).members ≡ k.members
unfolding put_table
put_table-members obj vpe t k = refl
put_table-members map vpe t k = refl

abbrev pub with_child : Members → ℕ → Capability → Capability
with_child m child c = record c { children = add_child m child c.children }

-- The parent's new child list, in a kernel that holds the parent.
pub link_child-at :
    (p : Capability) (child : ℕ) (k : Kernel) (type : TableType) (vpe sel : ℕ)
    → key_locality k.members p.id ≡ true
    → IsValid (table_of p.table_type p.table k)
    → at (link_child p child k) type vpe sel
      ≡ map_at
          (with_child k.members child)
          (same_table p.table_type p.table type vpe && (p.sel == sel))
          (at k type vpe sel)
unfolding link_child
link_child-at p child k type vpe sel h v =
    ap (λ k'. at k' type vpe sel) (if_true _ _ h)
    ∙ at-modify _ p.table_type type p.table vpe p.sel sel k v

pub inherit_and_set-found :
    (type : TableType) (vpe dst : ℕ) (p child c : Capability) (t : CapTable) (k : Kernel)
    → set dst (record child { parent = p.id }) (table_of type vpe k) ≡ some (c, t)
    → inherit_and_set type vpe p child dst k ≡ some (c, link_child p c.id (put_table type vpe t k))
unfolding inherit_and_set setparent_and_set
inherit_and_set-found type vpe dst p child c t k e = rw (e, inherit_and_set, setparent_and_set) refl

-- The child as it is in the table.
abbrev pub adopted : TableType → ℕ → ℕ → ℕ → Capability → Capability → Kernel → Capability
adopted type vpe dst item p child k = record child {
  parent = p.id;
  id = cap_key (table_of type vpe k) item dst;
}

abbrev pub AllTablesValid : Kernel → Type 0
AllTablesValid k = (type : TableType) (vpe : ℕ) → IsValid (table_of type vpe k)

-- A capability whose parent stands in a table of this kernel is set at a free selector. It is found
-- there, under its key and with the parent's id, and the parent is found with the new child in its
-- list, also where the two are in one table.
pub inherit_and_set_lem :
    (type : TableType) (vpe dst item : ℕ) (p child : Capability) (k : Kernel)
    → dst < 2 ^ 32
    → AllTablesValid k
    → at k type vpe dst ≡ none
    → at k p.table_type p.table p.sel ≡ some p
    → key_locality k.members p.id ≡ true
    → child.table ≡ (table_of type vpe k).id
    → child.table_type ≡ (table_of type vpe k).type
    → child.sel ≡ dst
    → cap_type_to_item_type child.type ≡ some item
    → (k' : Kernel) × (inherit_and_set type vpe p child dst k
        ≡ some (adopted type vpe dst item p child k, k'))
      × (at k' type vpe dst ≡ some (adopted type vpe dst item p child k))
      × (at k' p.table_type p.table p.sel
          ≡ some (with_child k.members (adopted type vpe dst item p child k).id p))
inherit_and_set_lem type vpe dst item p child k b v free there local e0 e1 e2 e3 =
    let c = adopted type vpe dst item p child k in
    let (t, e, vt, g) =
      get-set dst item (record child { parent = p.id }) (table_of type vpe k) b (v type vpe) free e0
        e1 e2 e3 in
    let k1 = put_table type vpe t k in
    let members = put_table-members type vpe t k in
    let valid =
      subst IsValid (sym (table_of-put_table type p.table_type vpe p.table t k))
        (IsValid-if _ _ _ vt (v p.table_type p.table)) in
    let here = ap (λ m. key_locality m p.id) members ∙ local in
    let differ : ◌≢◌ {A = Option Capability} none (some p) = λ h. ground (arith, h) in
    let at_parent =
      at-set type p.table_type vpe p.table dst p.sel c t k (g p.sel)
      ∙ if_false _ _
          (apart_slots type p.table_type vpe p.table dst p.sel none (some p) k differ free there)
      ∙ there in
    (
      link_child p c.id k1,
      inherit_and_set-found type vpe dst p child c t k e,
      link_child-at p c.id k1 type vpe dst here valid
          ∙ ap (λ b. map_at (with_child k1.members c.id) b (at k1 type vpe dst))
              (apart_slots p.table_type type p.table vpe p.sel dst (some p) none k
                (λ h. differ (sym h)) there free)
          ∙ map_at-false (with_child k1.members c.id) _
          ∙ at-set type type vpe vpe dst dst c t k (g dst)
          ∙ if_true _ _ (same_slot type vpe dst),
      link_child-at p c.id k1 p.table_type p.table p.sel here valid
          ∙ ap (λ b. map_at (with_child k1.members c.id) b (at k1 p.table_type p.table p.sel))
              (same_slot p.table_type p.table p.sel)
          ∙ ap (map_at (with_child k1.members c.id) true) at_parent
          ∙ ap (λ m. some (with_child m c.id p)) members,
    )
