-- ===== src/Cap/Revoke/Local.antt =====
-- The revocation of a tree of capabilities that are all with one kernel.
use semper_os.Base.{
  ℕ, zero, suc, ◌≤◌, ◌≡◌, ◌≢◌, refl, ap, ◌∙◌, Bool, true, false, ◌||◌, List, ◌∷◌, some, ◌==◌, ◌/◌,
  ◌%◌, not, if_apart, equal_test, if_equal, if_true, if_false, arith,
}
use semper_os.Ddl.Hash.{hash_to_type, hash_to_obj_id, as_ocap}
use semper_os.Cap.Capability.{obj, Capability}
use semper_os.Cap.Table.{get}
use semper_os.Cap.Kernel.{Kernel}
use semper_os.Cap.Item.{Run, done, and_then, check_type, is_empty, item_data, get_data, as_generic}
use semper_os.Cap.Revoke.{
  Ids, ids, own_revoke, revoke_local, revoke_children, tell_parent, finish_root, finish_cap,
  revoke_rec,
}
use semper_os.Cap.Revoke.Frees.{
  look, AllValid, Frees, Frees-nothing, Frees-then, slot, is_special, revoke_self-Frees,
}
use semper_os.Cap.Revoke.Remote.{revoke_rec-own}
use semper_os.Cap.Revoke.Forest.{
  Forest, no_tree, grow, roots, within, height, Apart, IsLocal, IsStored, IsStored-after,
}

pub check_type-cap : (type : ℕ) → check_type type ≡ true → not (type / 2 % 8 == 0) ≡ true
check_type-cap type h = ground arith

pub get_data-IsLocal :
    (c : Capability) (k : Kernel)
    → IsLocal k.members c
    → look k c.table c.sel ≡ some c
    → get_data c.id k ≡ some c
unfolding get_data item_data
get_data-IsLocal c k l e =
    if_true _ _ l.3
    ∙ if_true _ _ (check_type-cap (hash_to_type c.id) l.3)
    ∙ ap (λ vpe. get (hash_to_obj_id c.id) (k.objcaps vpe)) l.1
    ∙ ap (λ sel. get sel (k.objcaps c.table)) l.2
    ∙ e

pub is_empty-cap : (key : ℕ) → check_type (hash_to_type key) ≡ true → is_empty key ≡ false
is_empty-cap key h = ground (arith, check_type-cap (hash_to_type key) h)

module _ (rec : Capability → Kernel → Run ℕ) (i : Ids) (c : Capability) (k : Kernel) where
  revoke_local-done :
      (k' : Kernel)
      → IsLocal k.members c
      → look k c.table c.sel ≡ some c
      → rec c k ≡ done 0 k'
      → revoke_local rec i c.id false k ≡ done false k'
  unfolding revoke_local and_then
  revoke_local-done k' l e done_here =
      if_false _ _ (is_empty-cap c.id l.3)
      ∙ rw (get_data-IsLocal c k l e, done_here, revoke_local) refl

  -- One round of the loop, for a child with this kernel that waits for no answers.
  revoke_children-local :
      (rest : List ℕ) (k' : Kernel)
      → IsLocal k.members c
      → look k c.table c.sel ≡ some c
      → rec c k ≡ done 0 k'
      → revoke_children rec i (c.id ∷ rest) false k ≡ revoke_children rec i rest false k'
  unfolding revoke_children and_then
  revoke_children-local rest k' l e done_here =
      ap (λ r. and_then r (revoke_children rec i rest))
        (if_true _ _ (equal_test _ _ l.0) ∙ revoke_local-done k' l e done_here)

pub revoke_rec-inner :
    (fuel origin : ℕ) (c : Capability) (k k' k'' : Kernel)
    → own_revoke fuel c k ≡ done 0 k'
    → revoke_children (revoke_rec fuel origin obj) (ids obj origin c) c.children false k'
      ≡ done false k''
    → as_ocap c.id ≢ origin
    → revoke_rec (suc fuel) origin obj c k ≡ done 0 k''
unfolding and_then finish_cap as_generic
revoke_rec-inner fuel origin c k k' k'' own loop inner =
    revoke_rec-own fuel origin obj c k k' own
    ∙ ap (λ r. and_then r (finish_cap (ids obj origin c))) loop
    ∙ if_apart _ _ inner

revoke_rec-root :
    (fuel : ℕ) (c : Capability) (k k' k'' : Kernel)
    → own_revoke fuel c k ≡ done 0 k'
    → revoke_children
        (revoke_rec fuel (as_ocap c.id) obj)
        (ids obj (as_ocap c.id) c)
        c.children
        false
        k'
      ≡ done false k''
    → revoke_rec (suc fuel) (as_ocap c.id) obj c k ≡ tell_parent (ids obj (as_ocap c.id) c) k''
unfolding and_then finish_cap finish_root as_generic
revoke_rec-root fuel c k k' k'' own loop =
    revoke_rec-own fuel (as_ocap c.id) obj c k k' own
    ∙ ap (λ r. and_then r (finish_cap (ids obj (as_ocap c.id) c))) loop
    ∙ if_equal (as_ocap c.id) _ _

unfoldable pub Outcome : Forest → Kernel → Run Bool → Type 0
Outcome f k r = (k' : Kernel) × (r ≡ done false k') × Frees (within f) k k'

-- The loop over the roots of a stored forest, with fuel for its height, frees its slots.
pub revoke_forest :
    (f : Forest) (fuel origin : ℕ) (i : Ids) (k : Kernel)
    → height f ≤ fuel
    → AllValid k
    → IsStored origin k.members (look k) f
    → Outcome f k (revoke_children (revoke_rec fuel origin obj) i (roots f) false k)
unfolding Outcome revoke_children
revoke_forest no_tree fuel origin i k h v s = (k, refl, Frees-nothing k v)
revoke_forest (grow c below rest) zero origin i k h v s = absurd (omega arith)
revoke_forest (grow c below rest) (suc fuel) origin i k h v s =
    let (k1, e1, f1) = revoke_self-Frees fuel c k s.0.4 s.0.5 v in
    let (k2, e2, f2) =
      revoke_forest below fuel origin (ids obj origin c) k1 (omega arith) f1.3
        (IsStored-after origin (slot c) k k1 below f1 s.4 s.6) in
    let f12 = Frees-then (slot c) (within below) k k1 k2 f1 f2 in
    let inner =
      revoke_rec-inner fuel origin c k k1 k2 e1
        (ap (λ cs. revoke_children (revoke_rec fuel origin obj) (ids obj origin c) cs false k1) s.3
          ∙ e2)
        s.1 in
    let (k3, e3, f3) =
      revoke_forest rest (suc fuel) origin i k2 (omega arith) f2.3
        (IsStored-after origin _ k k2 rest f12 s.5 s.7) in
    (
      k3,
      revoke_children-local (revoke_rec (suc fuel) origin obj) i c k (roots rest) k2 s.0 s.2 inner
          ∙ e3,
      Frees-then _ (within rest) k k2 k3 f12 f3,
    )

-- A revocation that starts at an object capability, where it and all of its descendants are with
-- this kernel, each in a slot of its own, and none is a service or stands for a VPE, succeeds with
-- fuel for the height of the tree. It frees the slots of the capability and its descendants and no other, sends no call
-- and leaves no entry; then the parent is told.
pub revoke_rec-local :
    (fuel : ℕ) (c : Capability) (below : Forest) (k : Kernel)
    → c.table_type ≡ obj
    → is_special c.body ≡ false
    → c.children ≡ roots below
    → height below ≤ fuel
    → AllValid k
    → Apart (slot c) (within below)
    → IsStored (as_ocap c.id) k.members (look k) below
    → (k' : Kernel) × (revoke_rec (suc fuel) (as_ocap c.id) obj c k
        ≡ tell_parent (ids obj (as_ocap c.id) c) k')
      × Frees (λ vpe sel. slot c vpe sel || within below vpe sel) k k'
unfolding Outcome
revoke_rec-local fuel c below k t n ch h v apart s =
    let i = ids obj (as_ocap c.id) c in
    let (k1, e1, f1) = revoke_self-Frees fuel c k t n v in
    let (k2, e2, f2) =
      revoke_forest below fuel (as_ocap c.id) i k1 h f1.3
        (IsStored-after (as_ocap c.id) (slot c) k k1 below f1 apart s) in
    (
      k2,
      revoke_rec-root fuel c k k1 k2 e1
          (ap (λ cs. revoke_children (revoke_rec fuel (as_ocap c.id) obj) i cs false k1) ch ∙ e2),
      Frees-then (slot c) (within below) k k1 k2 f1 f2,
    )
