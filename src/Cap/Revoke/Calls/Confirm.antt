-- ===== src/Cap/Revoke/Calls/Confirm.antt =====
-- The kernel call `revoke` for a tree that is all with the kernel that is called.
use semper_os.Base.{ℕ, suc, ◌≤◌, ◌≡◌, ap, ◌∙◌, true, false, ◌||◌, some, if_false}
use semper_os.Ddl.Hash.{as_ocap}
use semper_os.Cap.Capability.{obj, Capability}
use semper_os.Cap.Kernel.{Kernel, revoke_finish, send, minus_one}
use semper_os.Cap.Item.{done, and_then, as_generic, is_empty, get_data}
use semper_os.Cap.Revoke.{ids, revoke_children, revoke_rec}
use semper_os.Cap.Revoke.Frees.{look, AllValid, Frees, Frees-then, slot, revoke_self-Frees}
use semper_os.Cap.Revoke.Forest.{Forest, grow, no_tree, within, height, IsStored, IsStored-after}
use semper_os.Cap.Revoke.Local.{
  Outcome, get_data-IsLocal, is_empty-cap, revoke_rec-inner, revoke_forest,
}
use semper_os.Cap.Revoke.Calls.{revoke, revoke_found, answer_revoke, handle_revoke}

-- Below the root of a revocation, a stored tree goes and nothing is awaited.
revoke_rec-stored :
    (fuel origin : ℕ) (c : Capability) (below : Forest) (k : Kernel)
    → height below ≤ fuel
    → AllValid k
    → IsStored origin k.members (look k) (grow c below no_tree)
    → (k' : Kernel) × (revoke_rec (suc fuel) origin obj c k ≡ done 0 k')
      × Frees (λ vpe sel. slot c vpe sel || within below vpe sel) k k'
unfolding Outcome
revoke_rec-stored fuel origin c below k h v s =
    let (k1, e1, f1) = revoke_self-Frees fuel c k s.0.4 s.0.5 v in
    let (k2, e2, f2) =
      revoke_forest below fuel origin (ids obj origin c) k1 h f1.3
        (IsStored-after origin (slot c) k k1 below f1 s.4 s.6) in
    (
      k2,
      revoke_rec-inner fuel origin c k k1 k2 e1
          (ap (λ cs. revoke_children (revoke_rec fuel origin obj) (ids obj origin c) cs false k1)
              s.3
            ∙ e2)
          s.1,
      Frees-then (slot c) (within below) k k1 k2 f1 f2,
    )

handle_revoke-found :
    (fuel sender parent origin : ℕ) (c : Capability) (k k' : Kernel)
    → is_empty c.id ≡ false
    → get_data c.id k ≡ some c
    → c.table_type ≡ obj
    → revoke_rec fuel (as_ocap origin) obj c k ≡ done 0 k'
    → handle_revoke fuel sender c.id parent origin k
      ≡ done 0 (send (revoke_finish sender parent minus_one true) k')
unfolding handle_revoke revoke_found revoke answer_revoke and_then as_generic
handle_revoke-found fuel sender parent origin c k k' filled found type e =
    ap (λ a. and_then a (answer_revoke sender parent))
      (if_false _ _ filled
        ∙ ap (λ o. revoke_found fuel o c.id origin k) found
        ∙ ap (λ t. revoke fuel t (some c) c.id origin k) type
        ∙ e)

-- The call to revoke a capability whose tree is stored at the called kernel, each capability in a
-- slot of its own and none a service, a VPE or the origin of the revocation: with fuel for the height of
-- the tree, the kernel frees the slots of the tree, and no other, and at once tells the caller that
-- one answer less is awaited for the parent, with the reply included.
pub handle_revoke-confirms :
    (fuel sender parent origin : ℕ) (c : Capability) (below : Forest) (k : Kernel)
    → height below ≤ fuel
    → AllValid k
    → IsStored (as_ocap origin) k.members (look k) (grow c below no_tree)
    → (k' : Kernel) × (handle_revoke (suc fuel) sender c.id parent origin k
        ≡ done 0 (send (revoke_finish sender parent minus_one true) k'))
      × Frees (λ vpe sel. slot c vpe sel || within below vpe sel) k k'
handle_revoke-confirms fuel sender parent origin c below k h v s =
    let (k', e, f) = revoke_rec-stored fuel (as_ocap origin) c below k h v s in
    (
      k',
      handle_revoke-found (suc fuel) sender parent origin c k k' (is_empty-cap c.id s.0.3)
          (get_data-IsLocal c k s.0 s.2) s.0.4 e,
      f,
    )
