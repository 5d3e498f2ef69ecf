-- ===== src/Cap/Revoke/Answers.antt =====
-- The answers that come to the root of a revocation, and the end of the revocation.
pub mod All
use semper_os.Base.{
  ℕ, zero, suc, ◌+◌, ◌^◌, ◌<◌, ◌≡◌, ◌≢◌, refl, ap, sym, ◌∙◌, Bool, true, false, List, [], ◌∷◌,
  Option, if◌then◌else◌, none, some, length, if_apart, if_equal, arith,
}
use semper_os.Cap.Capability.{TableType, Capability}
use semper_os.Cap.Kernel.{
  Revocation, msg_received, Call, Kernel, reply, send, notify_thread, add_int, minus_one,
  generic_id, find_entry, find_revocation,
}
use semper_os.Cap.Revocations.{
  credit_if, handle_revoke_finish, count_finish, finish_entry, notify_subscribers, notify_each,
  update_entry, reply_to,
}
use semper_os.Cap.Item.{waits, as_generic}
use semper_os.Cap.Revoke.{Ids, ids, tell_parent, resume_root, revoke_rec}
use semper_os.Cap.Revoke.Remote.{
  AllRemote, calls, entry, with_entry, find_entry-append, modify_entry-append, remove_entry-append,
  revoke_rec-remote,
}

add_int-minus_one : (n : ℕ) → n < 2 ^ 31 → add_int (suc n) minus_one ≡ n
add_int-minus_one n h = omega arith

add_int-answers : (n : ℕ) → suc n < 2 ^ 31 → add_int (suc (suc n)) minus_one ≢ 0
add_int-answers n h = omega arith

pub is_above : (m j n : ℕ) → n ≡ suc m + suc j → n ≡ suc (suc (m + j))
is_above m j n e = omega arith

-- The ids of a revocation that starts at `c`.
abbrev pub root_ids : TableType → Capability → Ids
root_ids type c = ids type (as_generic type c.id) c

-- An answer: the kernel call `revokeFinish` from a kernel, by which one answer less is awaited. It may
-- include the reply to the call that it answers.
pub record Answer : Type 0 where
  pub sender : ℕ
  pub with_reply : Bool

-- The kernel calls of the answers, one after the other.
unfoldable pub finish_all : List Answer → ℕ → Kernel → Option Kernel
unfolding handle_revoke_finish
finish_all [] cap k = some k
finish_all (a ∷ answers) cap k =
    elim (handle_revoke_finish 2 a.sender cap minus_one a.with_reply k) [
      | none ↦ none
      | some k' ↦ finish_all answers cap k'
    ]

abbrev pub replies_to : List Answer → List Call → List Call
replies_to [] sent = sent
replies_to (a ∷ answers) sent = replies_to answers (reply a.sender ∷ sent)

-- The kernels whose answers include replies.
abbrev pub credits : List Answer → List ℕ → List ℕ
credits [] credited = credited
credits (a ∷ answers) credited =
    credits answers (if a.with_reply then a.sender ∷ credited else credited)

abbrev pub after_credits : List Answer → Kernel → Kernel
after_credits answers k = record k { credited = credits answers k.credited }

-- The root's entry awaits no more answers, and its thread has been notified.
abbrev pub woken_root : Ids → Kernel → List Call → Kernel
woken_root i k sent = record (with_entry i 0 sent k) { woken = k.thread ∷ k.woken }

module _ (i : Ids) (k : Kernel) (root : i.id ≡ i.origin) (generic : generic_id i.id ≡ i.id)
    (fresh : find_entry i.id k.revs ≡ none) where
  pub find_root :
      (n : ℕ) (sent : List Call)
      → find_revocation i.id (with_entry i n sent k).revs ≡ some (entry i k.thread n)
  unfolding find_revocation
  find_root n sent =
      rw (generic, find_revocation) (find_entry-append i.id k.revs (entry i k.thread n) fresh refl)

  answer_update :
      (n : ℕ) (sent : List Call)
      → n < 2 ^ 31
      → update_entry i.id
          (λ e. record e { awaited = add_int e.awaited minus_one })
          (with_entry i (suc n) sent k)
        ≡ with_entry i n sent k
  unfolding update_entry
  answer_update n sent h =
      rw
        (modify_entry-append i.id (λ e. record e { awaited = add_int e.awaited minus_one }) k.revs
          (entry i k.thread (suc n)) fresh refl)
        (ap (λ a. with_entry i a sent k) (add_int-minus_one n h))

  finish_entry-root :
      (n : ℕ) (sent : List Call)
      → finish_entry 2 (entry i k.thread n) (with_entry i 0 sent k) ≡ some (woken_root i k sent)
  unfolding finish_entry notify_thread
  finish_entry-root n sent = ground (arith, root)

  pub count_last :
      (sent : List Call)
      → count_finish 2 minus_one (entry i k.thread 1) (with_entry i 1 sent k)
        ≡ some (woken_root i k sent)
  unfolding count_finish
  count_last sent =
      ap (finish_entry 2 (entry i k.thread 1)) (answer_update 0 sent (omega arith))
      ∙ finish_entry-root 1 sent

  pub count_more :
      (n : ℕ) (sent : List Call)
      → suc n < 2 ^ 31
      → count_finish 2 minus_one
          (entry i k.thread (suc (suc n)))
          (with_entry i (suc (suc n)) sent k)
        ≡ some (with_entry i (suc n) sent k)
  unfolding count_finish
  count_more n sent h = if_apart _ _ (add_int-answers n h) ∙ ap some (answer_update (suc n) sent h)

-- The root's entry has no subscribers.
notify_none :
    (i : Ids) (k : Kernel) (fuel : ℕ) (sent : List Call)
    → find_entry i.id k.revs ≡ none
    → notify_subscribers (suc fuel) i.id (woken_root i k sent) ≡ some (woken_root i k sent)
unfolding notify_subscribers notify_each
notify_none i k fuel sent fresh =
    rw
      (
        find_entry-append i.id k.revs (entry i k.thread 0) fresh refl,
        notify_subscribers,
        notify_each,
      )
      refl

pub resume_root-woken :
    (i : Ids) (k : Kernel) (sent : List Call)
    → find_entry i.id k.revs ≡ none
    → resume_root i (woken_root i k sent)
      ≡ tell_parent i (record k { sent = sent; woken = k.thread ∷ k.woken })
unfolding resume_root
resume_root-woken i k sent fresh =
    rw (notify_none i k (length (woken_root i k sent).revs) sent fresh, resume_root)
      (ap
        (λ revs. tell_parent i (record k { revs = revs; sent = sent; woken = k.thread ∷ k.woken }))
        (remove_entry-append i.id k.revs (entry i k.thread 0) fresh refl))
