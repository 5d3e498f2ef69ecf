-- ===== src/Cap/Revoke/Answers/All.antt =====
-- All answers that the root of a revocation waits for.
use semper_os.Base.{
  ℕ, suc, ◌+◌, ◌^◌, ◌<◌, ◌≡◌, refl, ap, sym, ◌∙◌, Bool, true, false, List, [], ◌∷◌, if◌then◌else◌,
  none, some, length, if_equal, arith,
}
use semper_os.Cap.Capability.{TableType, Capability}
use semper_os.Cap.Kernel.{
  Revocation, msg_received, Call, Kernel, reply, send, minus_one, generic_id, find_entry,
  find_revocation,
}
use semper_os.Cap.Revocations.{credit_if, handle_revoke_finish, count_finish, reply_to}
use semper_os.Cap.Item.{waits, done}
use semper_os.Cap.Revoke.{Ids, own_revoke, tell_parent, resume_root, revoke_rec}
use semper_os.Cap.Revoke.Remote.{AllRemote, calls, with_entry, revoke_rec-remote}
use semper_os.Cap.Revoke.Answers.{
  root_ids, is_above, Answer, finish_all, replies_to, after_credits, woken_root, find_root,
  count_last, count_more, resume_root-woken,
}

credit_if-credits :
    (a : Answer) (k : Kernel) (b : Bool)
    → credit_if b a.sender k
      ≡ record k { credited = if b then a.sender ∷ k.credited else k.credited }
unfolding credit_if msg_received
credit_if-credits a k true = refl
credit_if-credits a k false = refl

handle_found :
    (a : Answer) (cap : ℕ) (k : Kernel) {r : Revocation}
    → find_revocation cap k.revs ≡ some r
    → handle_revoke_finish 2 a.sender cap minus_one a.with_reply k
      ≡ reply_to a.sender (count_finish 2 minus_one r (after_credits (a ∷ []) k))
unfolding handle_revoke_finish
handle_found a cap k {r} e =
    rw (e, handle_revoke_finish)
      (ap (λ k'. reply_to a.sender (count_finish 2 minus_one r k'))
        (credit_if-credits a k a.with_reply))

pub answer_last :
    (i : Ids) (k : Kernel) (a : Answer) (sent : List Call)
    → i.id ≡ i.origin
    → generic_id i.id ≡ i.id
    → find_entry i.id k.revs ≡ none
    → handle_revoke_finish 2 a.sender i.id minus_one a.with_reply (with_entry i 1 sent k)
      ≡ some (woken_root i (after_credits (a ∷ []) k) (reply a.sender ∷ sent))
unfolding send
answer_last i k a sent root generic fresh =
    handle_found a i.id (with_entry i 1 sent k) (find_root i k root generic fresh 1 sent)
    ∙ ap (reply_to a.sender) (count_last i (after_credits (a ∷ []) k) root generic fresh sent)

answer_more :
    (i : Ids) (k : Kernel) (a : Answer) (n : ℕ) (sent : List Call)
    → i.id ≡ i.origin
    → generic_id i.id ≡ i.id
    → find_entry i.id k.revs ≡ none
    → suc n < 2 ^ 31
    → handle_revoke_finish 2 a.sender i.id minus_one a.with_reply
        (with_entry i (suc (suc n)) sent k)
      ≡ some (with_entry i (suc n) (reply a.sender ∷ sent) (after_credits (a ∷ []) k))
unfolding send
answer_more i k a n sent root generic fresh h =
    handle_found a i.id (with_entry i (suc (suc n)) sent k)
      (find_root i k root generic fresh (suc (suc n)) sent)
    ∙ ap (reply_to a.sender) (count_more i (after_credits (a ∷ []) k) root generic fresh n sent h)

finish_all-last :
    (i : Ids) (k : Kernel) (answers : List Answer) (sent : List Call)
    → i.id ≡ i.origin
    → generic_id i.id ≡ i.id
    → find_entry i.id k.revs ≡ none
    → 0 < length answers
    → length answers < 2 ^ 31
    → finish_all answers i.id (with_entry i (length answers) sent k)
      ≡ some (woken_root i (after_credits answers k) (replies_to answers sent))
unfolding finish_all
finish_all-last i k [] sent root generic fresh p h = absurd (omega arith)
finish_all-last i k (a ∷ []) sent root generic fresh p h =
    rw (answer_last i k a sent root generic fresh, finish_all) refl
finish_all-last i k (a ∷ b ∷ answers) sent root generic fresh p h =
    rw (answer_more i k a (length answers) sent root generic fresh (omega arith), finish_all)
      (finish_all-last i (after_credits (a ∷ []) k) (b ∷ answers) (reply a.sender ∷ sent) root
        generic fresh (omega arith) (omega arith))

finish_all-some :
    (i : Ids) (k : Kernel) (answers : List Answer) (j n : ℕ) (sent : List Call)
    → i.id ≡ i.origin
    → generic_id i.id ≡ i.id
    → find_entry i.id k.revs ≡ none
    → n ≡ length answers + suc j
    → n < 2 ^ 31
    → finish_all answers i.id (with_entry i n sent k)
      ≡ some (with_entry i (suc j) (replies_to answers sent) (after_credits answers k))
unfolding finish_all
finish_all-some i k [] j n sent root generic fresh e h =
    ap (λ a. some (with_entry i a sent k)) (omega arith)
finish_all-some i k (a ∷ answers) j n sent root generic fresh e h =
    ap (λ m. finish_all (a ∷ answers) i.id (with_entry i m sent k))
      (is_above (length answers) j n e)
    ∙ rw (answer_more i k a (length answers + j) sent root generic fresh (omega arith), finish_all)
        (finish_all-some i (after_credits (a ∷ []) k) answers j (suc (length answers + j))
          (reply a.sender ∷ sent) root generic fresh (omega arith) (omega arith))

-- A revocation that starts at a capability with at least one child, all of whose children are with
-- other kernels, comes to its end, if the capability itself can be revoked and has no entry yet: it
-- calls each child's kernel and waits; after as many answers as there are children, from any
-- kernels and all replied to, and not before the last one, its thread is woken; the thread then
-- removes the entry, so that the list of revocations is as it was, and tells the parent.
pub revoke_rec-answered :
    (fuel : ℕ) (type : TableType) (c : Capability) (k k' : Kernel)
    → own_revoke fuel c k ≡ done 0 k'
    → 0 < length c.children
    → length c.children < 2 ^ 31
    → AllRemote k'.members c.children
    → find_entry (root_ids type c).id k'.revs ≡ none
    → generic_id (root_ids type c).id ≡ (root_ids type c).id
    → (waiting : Kernel) × (revoke_rec (suc fuel) (root_ids type c).id type c k ≡ waits waiting)
      × ((early : List Answer) (j : ℕ)
          → length c.children ≡ length early + suc j
          → finish_all early (root_ids type c).id waiting
            ≡ some (
                with_entry
                  (root_ids type c)
                  (suc j)
                  (replies_to early (calls k'.members (root_ids type c) c.children k'.sent))
                  (after_credits early k')))
      × ((answers : List Answer)
          → length answers ≡ length c.children
          → (woken : Kernel) × (finish_all answers (root_ids type c).id waiting ≡ some woken)
            × (resume_root (root_ids type c) woken
                ≡ tell_parent (root_ids type c) (record (after_credits answers k') {
                  sent = replies_to answers (calls k'.members (root_ids type c) c.children k'.sent);
                  woken = k'.thread ∷ k'.woken;
                })))
revoke_rec-answered fuel type c k k' own p b away fresh generic =
    let i = root_ids type c in
    let sent = calls k'.members i c.children k'.sent in
    (
      with_entry i (length c.children) sent k',
      revoke_rec-remote fuel i.id type c k k' own p b away fresh ∙ if_equal i.id _ _,
      λ early j e. finish_all-some i k' early j (length c.children) sent refl generic fresh e b,
      λ answers e. (
        woken_root i (after_credits answers k') (replies_to answers sent),
        ap (λ n. finish_all answers i.id (with_entry i n sent k')) (sym e)
            ∙ finish_all-last i k' answers sent refl generic fresh (omega arith) (omega arith),
        resume_root-woken i (after_credits answers k') (replies_to answers sent) fresh,
      ),
    )
