-- ===== src/Cap/Revoke/Protocol.antt =====
-- A revocation that spans two kernels, message by message.
use semper_os.Base.{
  ℕ, suc, ◌≤◌, ◌<◌, ◌≡◌, ◌≢◌, refl, ap, sym, subst, ◌^◌, if_equal, ◌∙◌, true, ◌||◌, [], ◌∷◌, none,
  some, length, arith,
}
use semper_os.Ddl.Hash.{as_ocap}
use semper_os.Ddl.Members.{responsible_member}
use semper_os.Cap.Capability.{obj, Capability}
use semper_os.Cap.Kernel.{
  Kernel, revoke_call, revoke_finish, reply, send, minus_one, generic_id, find_entry,
}
use semper_os.Cap.Revocations.{handle_revoke_finish}
use semper_os.Cap.Item.{waits, done}
use semper_os.Cap.Revoke.{own_revoke, tell_parent, resume_root, revoke_rec}
use semper_os.Cap.Revoke.Remote.{AllRemote, calls, with_entry, revoke_rec-remote}
use semper_os.Cap.Revoke.Answers.{root_ids, Answer, after_credits, woken_root, resume_root-woken}
use semper_os.Cap.Revoke.Answers.All.{answer_last}
use semper_os.Cap.Revoke.Frees.{look, AllValid, Frees, slot}
use semper_os.Cap.Revoke.Forest.{Forest, grow, no_tree, within, height, IsStored}
use semper_os.Cap.Revoke.Calls.{handle_revoke}
use semper_os.Cap.Revoke.Calls.Confirm.{handle_revoke-confirms}

-- The start at a root with one child, which is with another kernel.
revoke_rec-one :
    (fuel : ℕ) (c : Capability) (key kernel : ℕ) (k k' : Kernel)
    → own_revoke fuel c k ≡ done 0 k'
    → c.children ≡ key ∷ []
    → responsible_member k'.members key ≡ kernel
    → kernel ≢ k'.members.kid
    → find_entry (root_ids obj c).id k'.revs ≡ none
    → (let i = root_ids obj c in
        revoke_rec (suc fuel) i.id obj c k
        ≡ waits (with_entry i 1 (revoke_call kernel key i.id i.origin ∷ k'.sent) k'))
revoke_rec-one fuel c key kernel k k' own one home away fresh =
    let i = root_ids obj c in
    let remote : AllRemote k'.members (key ∷ []) = (λ e. away (sym home ∙ e), tt) in
    revoke_rec-remote fuel i.id obj c k k' own (subst (λ cs. 0 < length cs) (sym one) (omega arith))
      (subst (λ cs. length cs < 2 ^ 31) (sym one) (omega arith))
      (subst (AllRemote k'.members) (sym one) remote) fresh
    ∙ if_equal i.id _ _
    ∙ ap (λ cs. waits (with_entry i (length cs) (calls k'.members i cs k'.sent) k')) one
    ∙ ap (λ m. waits (with_entry i 1 (revoke_call m key i.id i.origin ∷ k'.sent) k')) home

-- An object capability of kernel `a` with one child, which is with another kernel `b`. The child's
-- tree is stored at `b`, each capability in a slot of its own and none a service or for a VPE, and
-- the capability itself can be revoked and has no entry yet. `a` starts the revocation: it sends one
-- call to `b` and waits. `b`, with fuel for the height of the tree, handles the call: it frees the
-- slots of the child's tree, and no other, and answers. `a` handles the answer: its thread is
-- woken, and what it does then removes the entry, so that the list of revocations is as before, and
-- tells the parent.
pub revoke-two_kernels :
    (own_fuel fuel : ℕ) (c d : Capability) (below : Forest) (a a' b : Kernel)
    → own_revoke own_fuel c a ≡ done 0 a'
    → c.children ≡ d.id ∷ []
    → responsible_member a'.members d.id ≡ b.members.kid
    → b.members.kid ≢ a'.members.kid
    → find_entry (root_ids obj c).id a'.revs ≡ none
    → generic_id (root_ids obj c).id ≡ (root_ids obj c).id
    → height below ≤ fuel
    → AllValid b
    → IsStored (as_ocap (root_ids obj c).origin) b.members (look b) (grow d below no_tree)
    → (let i = root_ids obj c in
        (waiting : Kernel) × (b' : Kernel) × (woken : Kernel) × (revoke_rec
            (suc own_fuel)
            i.id
            obj
            c
            a
          ≡ waits waiting)
        × (waiting.sent ≡ revoke_call b.members.kid d.id i.id i.origin ∷ a'.sent)
        × (handle_revoke (suc fuel) a'.members.kid d.id i.id i.origin b
            ≡ done 0 (send (revoke_finish a'.members.kid i.id minus_one true) b'))
        × Frees (λ vpe sel. slot d vpe sel || within below vpe sel) b b'
        × (handle_revoke_finish 2 b.members.kid i.id minus_one true waiting ≡ some woken)
        × (resume_root i woken
            ≡ tell_parent i (record a' {
              sent = reply b.members.kid ∷ revoke_call b.members.kid d.id i.id i.origin ∷ a'.sent;
              woken = a'.thread ∷ a'.woken;
              credited = b.members.kid ∷ a'.credited;
            })))
revoke-two_kernels own_fuel fuel c d below a a' b own one home away fresh generic h v s =
    let i = root_ids obj c in
    let sent = revoke_call b.members.kid d.id i.id i.origin ∷ a'.sent in
    let answer : Answer = record { sender = b.members.kid; with_reply = true } in
    let (b', e, f) = handle_revoke-confirms fuel a'.members.kid i.id i.origin d below b h v s in
    (
      with_entry i 1 sent a',
      b',
      woken_root i (after_credits (answer ∷ []) a') (reply b.members.kid ∷ sent),
      revoke_rec-one own_fuel c d.id b.members.kid a a' own one home away fresh,
      refl,
      e,
      f,
      answer_last i a' answer sent refl generic fresh,
      resume_root-woken i (after_credits (answer ∷ []) a') (reply b.members.kid ∷ sent) fresh,
    )
