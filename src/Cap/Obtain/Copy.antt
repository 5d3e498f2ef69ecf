-- ===== src/Cap/Obtain/Copy.antt =====
-- What `obtain` puts into a table.
use semper_os.Base.{
  ℕ, ◌<◌, ◌^◌, ◌≡◌, refl, ap, sym, ◌∙◌, Bool, true, false, [], none, some, arith, if◌then◌else◌,
  subst,
}
use semper_os.Ddl.Hash.{structured_hash}
use semper_os.Ddl.Members.{key_locality}
use semper_os.Cap.Capability.{
  TableType, obj, map, Body, msg, mem, page, service, session, virt_pe, Capability, Objects, clone,
  clone_body, cap_type_to_item_type, copied_parent,
}
use semper_os.Cap.Table.{cap_key}
use semper_os.Cap.Table.Lookup.{IsValid, map_at}
use semper_os.Cap.Kernel.{Kernel, table_of}
use semper_os.Cap.Obtain.{inherit_and_set, obtain}
use semper_os.Cap.Obtain.Linked.{at, adopted, with_child, AllTablesValid}
use semper_os.Cap.Obtain.Frame.{Adopts, same_place, inherit_and_set-Adopts}

abbrev pub is_service : Body → Bool
is_service (service inst) = true
is_service _ = false

-- A copy is not at an endpoint, and one for a VPE has no initialised `vpe_id`.
abbrev pub fresh_body : Body → Body
fresh_body (msg ep o i) = msg none o i
fresh_body (mem ep o i) = mem none o i
fresh_body (virt_pe v i) = virt_pe v none
fresh_body b = b

-- The copy of `c` at a selector of the table of a type and a VPE.
abbrev pub copied : TableType → ℕ → ℕ → ℕ → Capability → Capability
copied type vpe dst item c = record {
  type = c.type;
  id = structured_hash vpe vpe item dst;
  table = vpe;
  table_type = type;
  sel = dst;
  parent = c.id;
  children = [];
  body = fresh_body c.body;
}

clone_body-fresh :
    (b : Body) (vpe sel : ℕ) (w : Objects)
    → is_service b ≡ false
    → (w' : Objects) × (clone_body b vpe sel w ≡ some (fresh_body b, w'))
unfolding clone_body
clone_body-fresh (msg ep o i) vpe sel w h = (_, refl)
clone_body-fresh (mem ep o i) vpe sel w h = (_, refl)
clone_body-fresh (page phys attr) vpe sel w h = (_, refl)
clone_body-fresh (service inst) vpe sel w h = ground (arith, h)
clone_body-fresh (session o) vpe sel w h = (_, refl)
clone_body-fresh (virt_pe v i) vpe sel w h = (_, refl)

-- The objects are no part of the tables.
at-objects :
    (k : Kernel) (w : Objects) (type : TableType) (vpe sel : ℕ)
    → at (record k { objects = w }) type vpe sel ≡ at k type vpe sel
unfolding table_of
at-objects k w obj vpe sel = refl
at-objects k w map vpe sel = refl

table_of-objects :
    (k : Kernel) (w : Objects) (type : TableType) (vpe : ℕ)
    → table_of type vpe (record k { objects = w }) ≡ table_of type vpe k
unfolding table_of
table_of-objects k w obj vpe = refl
table_of-objects k w map vpe = refl

Adopts-objects :
    (type : TableType) (vpe dst : ℕ) (p c : Capability) (k k' : Kernel) (w : Objects)
    → Adopts type vpe dst p c (record k { objects = w }) k'
    → Adopts type vpe dst p c k k'
Adopts-objects type vpe dst p c k k' w (m, v, n, f) = (
  m,
  v,
  (λ type' vpe'. (
    (n type' vpe').0 ∙ ap (λ t. t.id) (table_of-objects k w type' vpe'),
    (n type' vpe').1 ∙ ap (λ t. t.type) (table_of-objects k w type' vpe'),
  )),
  (λ type' vpe' sel.
      f type' vpe' sel
      ∙ ap
          (λ o.
            map_at (with_child k.members c.id)
              (same_place p.table_type p.table p.sel type' vpe' sel)
              (if same_place type vpe dst type' vpe' sel then some c else o))
          (at-objects k w type' vpe' sel)),
)

obtain-found :
    (type : TableType) (vpe dst : ℕ) (c child nc : Capability) (w : Objects) (k k' : Kernel)
    → clone c type vpe dst k.objects ≡ some (child, w)
    → inherit_and_set type vpe c child dst (record k { objects = w }) ≡ some (nc, k')
    → obtain type vpe dst c k ≡ some (some nc, k')
unfolding obtain
obtain-found type vpe dst c child nc w k k' e f = rw (obtain, e, f) refl

clone-fresh :
    (type : TableType) (vpe dst : ℕ) (c : Capability) (w : Objects)
    → is_service c.body ≡ false
    → (p : ℕ) × (w' : Objects) × (clone c type vpe dst w
        ≡ some (record (copied type vpe dst 0 c) { id = 0; parent = p }, w'))
unfolding clone
clone-fresh type vpe dst c w h =
    let (w', e) = clone_body-fresh c.body vpe dst w h in
    (copied_parent c.body c.parent, w', rw (clone, e) refl)

pub obtain-Adopts :
    (type : TableType) (vpe dst item : ℕ) (c : Capability) (k : Kernel)
    → dst < 2 ^ 32
    → AllTablesValid k
    → at k type vpe dst ≡ none
    → key_locality k.members c.id ≡ true
    → (table_of type vpe k).id ≡ vpe
    → (table_of type vpe k).type ≡ type
    → is_service c.body ≡ false
    → cap_type_to_item_type c.type ≡ some item
    → let nc = copied type vpe dst item c in
      (k' : Kernel) × (obtain type vpe dst c k ≡ some (some nc, k')) × Adopts type vpe dst c nc k k'
unfolding cap_key
obtain-Adopts type vpe dst item c k b v free local named typed plain e =
    let (p, w, x) = clone-fresh type vpe dst c k.objects plain in
    let k0 = record k { objects = w } in
    let t = table_of-objects k w type vpe in
    let child = record (copied type vpe dst 0 c) { id = 0; parent = p } in
    let valid : AllTablesValid k0 =
      (λ type' vpe'. subst IsValid (sym (table_of-objects k w type' vpe')) (v type' vpe')) in
    let (k', y, a) =
      inherit_and_set-Adopts type vpe dst item c child k0 b valid
        (at-objects k w type vpe dst ∙ free) local (sym (ap (λ t. t.id) t ∙ named))
        (sym (ap (λ t. t.type) t ∙ typed)) refl e in
    let same : adopted type vpe dst item c child k0 ≡ copied type vpe dst item c =
      ap (λ i. record (copied type vpe dst item c) { id = structured_hash i i item dst })
        (ap (λ t. t.id) t ∙ named) in
    (
      k',
      subst (λ nc. obtain type vpe dst c k ≡ some (some nc, k')) same
          (obtain-found type vpe dst c child _ w k k' x y),
      Adopts-objects type vpe dst c _ k k' w (subst (λ nc. Adopts type vpe dst c nc k0 k') same a),
    )
