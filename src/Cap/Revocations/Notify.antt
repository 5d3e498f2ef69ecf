-- ===== src/Cap/Revocations/Notify.antt =====
-- How the end of a revocation below a local parent reaches the thread that waits at the root.
use semper_os.Base.{
  ℕ, zero, suc, ◌-◌, ◌^◌, ◌<◌, ◌≡◌, ◌≢◌, ap, ◌∙◌, false, List, [], ◌∷◌, Option, none, some, ◌==◌,
  if◌then◌else◌, arith,
}
use semper_os.Ddl.Hash.{hash_to_pe_id}
use semper_os.Ddl.Members.{responsible_krnl}
use semper_os.Cap.Kernel.{
  Revocation, Call, Kernel, reply, send, minus_one, generic_id, find_revocation, modify_entry,
  remove_entry,
}
use semper_os.Cap.Revocations.{
  handle_revoke_finish, count_finish, finish_entry, notify_subscribers, reply_to, update_entry,
  tell_remote_parent,
}

-- The entry of a root, for whose answers `thread` waits.
abbrev pub root_entry : ℕ → ℕ → ℕ → ℕ → Revocation
root_entry cap parent thread awaited = record {
  cap_id = cap;
  parent = parent;
  origin = cap;
  awaited = awaited;
  tid = some thread;
  subscribers = [];
}

-- The entry of a child below it, to which the root's entry is subscribed.
abbrev pub child_entry : ℕ → ℕ → ℕ → Revocation
child_entry cap root awaited = record {
  cap_id = cap;
  parent = root;
  origin = root;
  awaited = awaited;
  tid = none;
  subscribers = root ∷ [];
}

-- `n` kernel calls from `sender`, each of which tells of one revoked child of `cap`.
unfoldable pub finish_times : ℕ → ℕ → ℕ → Kernel → Option Kernel
unfolding handle_revoke_finish
finish_times zero sender cap k = some k
finish_times (suc n) sender cap k = elim (handle_revoke_finish 2 sender cap minus_one false k) [
  | none ↦ none
  | some k' ↦ finish_times n sender cap k'
]

abbrev pub replies : ℕ → ℕ → List Call → List Call
replies zero sender calls = calls
replies (suc n) sender calls = replies n sender (reply sender ∷ calls)

pub handle_revoke_finish_found :
    (fuel sender initiator awaits : ℕ) (k : Kernel) {r : Revocation}
    → find_revocation initiator k.revs ≡ some r
    → handle_revoke_finish fuel sender initiator awaits false k
      ≡ reply_to sender (count_finish fuel awaits r k)
unfolding handle_revoke_finish
handle_revoke_finish_found fuel sender initiator awaits k e = rw (e, handle_revoke_finish)

module _ (k : Kernel) (sender root child parent thread : ℕ) (apart : root ≢ child)
    (generic : generic_id child ≡ child)
    (home : responsible_krnl k.members (hash_to_pe_id root) ≡ k.members.kid) where
  finish_more :
      (p m : ℕ)
      → m < 2 ^ 31
      → handle_revoke_finish 2 sender child minus_one false (record k {
        revs = root_entry root parent thread p ∷ child_entry child root (suc (suc m)) ∷ [];
      })
        ≡ some (record k {
          revs = root_entry root parent thread p ∷ child_entry child root (suc m) ∷ [];
          sent = reply sender ∷ k.sent;
        })
  unfolding handle_revoke_finish send
  finish_more p m h = ground (arith, generic)

  -- The root's entry hears of the child once, and its thread is woken if that was the last answer.
  notify_root :
      (p a : ℕ)
      → p < 2 ^ 31
      → notify_subscribers 2 child (record k {
        revs = root_entry root parent thread (suc p) ∷ child_entry child root a ∷ [];
      })
        ≡ some (record k {
          revs =
              root_entry root parent thread p
              ∷ record (child_entry child root a) { subscribers = [] }
              ∷ [];
          woken = if p == 0 then thread ∷ k.woken else k.woken;
        })
  unfolding notify_subscribers
  notify_root p a h = ground arith

  find_child :
      (p a : ℕ)
      → find_revocation child (root_entry root parent thread p ∷ child_entry child root a ∷ [])
        ≡ some (child_entry child root a)
  unfolding find_revocation
  find_child p a = ground (arith, generic)

  count_last :
      (p : ℕ)
      → p < 2 ^ 31
      → count_finish 2 minus_one (child_entry child root 1) (record k {
        revs = root_entry root parent thread (suc p) ∷ child_entry child root 1 ∷ [];
      })
        ≡ some (record k {
          revs = root_entry root parent thread p ∷ [];
          woken = if p == 0 then thread ∷ k.woken else k.woken;
        })
  unfolding count_finish finish_entry update_entry tell_remote_parent modify_entry remove_entry
  count_last p h = ground (arith, notify_root p 0 h, home)

  finish_last :
      (p : ℕ)
      → p < 2 ^ 31
      → handle_revoke_finish 2 sender child minus_one false (record k {
        revs = root_entry root parent thread (suc p) ∷ child_entry child root 1 ∷ [];
      })
        ≡ some (record k {
          revs = root_entry root parent thread p ∷ [];
          woken = if p == 0 then thread ∷ k.woken else k.woken;
          sent = reply sender ∷ k.sent;
        })
  unfolding send
  finish_last p h =
      handle_revoke_finish_found 2 sender child minus_one _ (find_child (suc p) 1)
      ∙ ap (reply_to sender) (count_last p h)

-- From the entry of the child, which awaits one answer more than `m`, to that of the root.
finish_times_child :
    (k : Kernel) (sender root child parent thread p m : ℕ)
    → root ≢ child
    → generic_id child ≡ child
    → responsible_krnl k.members (hash_to_pe_id root) ≡ k.members.kid
    → p < 2 ^ 31
    → m < 2 ^ 31
    → finish_times (suc m) sender child (record k {
      revs = root_entry root parent thread (suc p) ∷ child_entry child root (suc m) ∷ [];
    })
      ≡ some (record k {
        revs = root_entry root parent thread p ∷ [];
        woken = if p == 0 then thread ∷ k.woken else k.woken;
        sent = replies (suc m) sender k.sent;
      })
unfolding finish_times
finish_times_child k sender root child parent thread p zero apart generic home hp hm =
    rw (finish_last k sender root child parent thread apart generic home p hp, finish_times)
finish_times_child k sender root child parent thread p (suc m) apart generic home hp hm =
    rw
      (
        finish_more k sender root child parent thread apart generic home (suc p) m (omega arith),
        finish_times,
      )
      (finish_times_child (record k { sent = reply sender ∷ k.sent }) sender root child parent
        thread p m apart generic home hp (omega arith))

-- A revocation whose root waits only for a local child, and the child for `n` capabilities of other
-- kernels: the root counts those `n` answers as its own. When they have come, the child's entry is
-- gone and the root's is told of it once, so it goes on to await `n - 1` answers that nobody owes.
-- The waiting thread is woken exactly if `n` is 1.
pub answers_of_child :
    (k : Kernel) (sender root child parent thread n : ℕ)
    → 0 < n
    → n < 2 ^ 31
    → root ≢ child
    → generic_id child ≡ child
    → responsible_krnl k.members (hash_to_pe_id root) ≡ k.members.kid
    → finish_times n sender child
        (record k { revs = root_entry root parent thread n ∷ child_entry child root n ∷ [] })
      ≡ some (record k {
        revs = root_entry root parent thread (n - 1) ∷ [];
        woken = if n == 1 then thread ∷ k.woken else k.woken;
        sent = replies n sender k.sent;
      })
answers_of_child k sender root child parent thread zero h hn apart generic home =
    absurd (omega arith)
answers_of_child k sender root child parent thread (suc m) h hn apart generic home =
    ground (arith, finish_times_child k sender root child parent thread m m apart generic home)
