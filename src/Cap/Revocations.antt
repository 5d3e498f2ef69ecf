-- ===== src/Cap/Revocations.antt =====
-- `Revocation::notifySubscribers` of apps/kernel/cap/Revocations.cc, and
-- `KernelcallHandler::revokeFinish`. Fuel bounds how deep a notification passes from an entry to its
-- subscribers; `none` means that it ran out, or that the code follows a null pointer.
pub mod Notify
use semper_os.Base.{
  ℕ, zero, suc, ◌+◌, ◌%◌, ◌^◌, Bool, true, false, List, [], ◌∷◌, Option, none, some, ◌==◌,
  if◌then◌else◌,
}
use semper_os.Ddl.Hash.{hash_to_pe_id}
use semper_os.Ddl.Members.{responsible_krnl}
use semper_os.Cap.Kernel.{
  Revocation, Kernel, revoke_finish, reply, send, notify_thread, msg_received, minus_one, add_int,
  find_entry, find_revocation, modify_entry, remove_entry,
}

unfoldable pub update_entry : ℕ → (Revocation → Revocation) → Kernel → Kernel
unfolding modify_entry
update_entry cap f k = record k { revs = modify_entry cap f k.revs }

-- The parent of an entry is with another kernel: it is told of the end.
unfoldable pub tell_remote_parent : Revocation → Kernel → Kernel
unfolding send responsible_krnl
tell_remote_parent r k =
    let authority = responsible_krnl k.members (hash_to_pe_id r.parent) in
    if authority == k.members.kid
    then k
    else send (revoke_finish authority r.parent minus_one false) k

-- Who hears that an entry has got its last answer, its subscribers apart.
unfoldable pub signal : Revocation → Kernel → Kernel
unfolding notify_thread tell_remote_parent
signal r k = elim r.tid [ some t ↦ notify_thread t k | none ↦ tell_remote_parent r k ]

-- One fewer answer is awaited.
abbrev pub answered : Revocation → Revocation
answered r = record r { awaited = add_int r.awaited minus_one }

abbrev pub remove_sub : ℕ → List ℕ → List ℕ
remove_sub sub [] = []
remove_sub sub (s ∷ rest) = if s == sub then rest else s ∷ remove_sub sub rest

abbrev pub without_sub : ℕ → Revocation → Revocation
without_sub sub r = record r { subscribers = remove_sub sub r.subscribers }

-- What one subscriber's entry gets; `notify` is `notifySubscribers` of an entry.
unfoldable pub notify_one : (ℕ → Kernel → Option Kernel) → Revocation → Kernel → Option Kernel
unfolding update_entry signal
notify_one notify r k =
    let k' = update_entry r.cap_id answered k in
    if add_int r.awaited minus_one == 0
    then (elim (notify r.cap_id k') [ none ↦ none | some k'' ↦ some (signal r k'') ])
    else some k'

-- The loop over the subscribers of the entry of `cap`. One that has no entry stays subscribed.
unfoldable pub notify_each : (ℕ → Kernel → Option Kernel) → ℕ → List ℕ → Kernel → Option Kernel
unfolding notify_one find_entry
notify_each notify cap [] k = some k
notify_each notify cap (s ∷ subs) k = elim (find_entry s k.revs) [
  | none ↦ notify_each notify cap subs k
  | some r ↦ elim (notify_one notify r k) [
    | none ↦ none
    | some k' ↦ notify_each notify cap subs (update_entry cap (without_sub s) k')
  ]
]

unfoldable pub notify_subscribers : ℕ → ℕ → Kernel → Option Kernel
unfolding notify_each
notify_subscribers zero cap k = none
notify_subscribers (suc fuel) cap k = elim (find_entry cap k.revs) [
  | none ↦ none
  | some r ↦ notify_each (notify_subscribers fuel) cap r.subscribers k
]

-- The last answer of an entry came by a kernel call.
unfoldable pub finish_entry : ℕ → Revocation → Kernel → Option Kernel
unfolding notify_thread tell_remote_parent
finish_entry fuel r k =
    if r.cap_id == r.origin
    then (elim r.tid [
      | some t ↦ some (notify_thread t k)
      | none ↦ some (notify_thread minus_one k)
    ])
    else (elim (notify_subscribers fuel r.cap_id k) [
      | none ↦ none
      | some k' ↦
          let told = tell_remote_parent r k' in
          some (record told { revs = remove_entry r.cap_id told.revs })
    ])

unfoldable pub credit_if : Bool → ℕ → Kernel → Kernel
unfolding msg_received
credit_if include_reply kernel k = if include_reply then msg_received kernel k else k

-- What follows once the entry is found.
unfoldable pub count_finish : ℕ → ℕ → Revocation → Kernel → Option Kernel
unfolding update_entry finish_entry
count_finish fuel awaits r k =
    let k' = update_entry r.cap_id (λ e. record e { awaited = add_int e.awaited awaits }) k in
    let done = finish_entry fuel r k' in if add_int r.awaited awaits == 0 then done else some k'

abbrev pub reply_to : ℕ → Option Kernel → Option Kernel
reply_to sender none = none
reply_to sender (some k) = some (send (reply sender) k)

-- `KernelcallHandler::revokeFinish`, for the call of `sender` that adds `awaits` to the count.
unfoldable pub handle_revoke_finish : ℕ → ℕ → ℕ → ℕ → Bool → Kernel → Option Kernel
unfolding find_revocation count_finish credit_if
handle_revoke_finish fuel sender initiator awaits include_reply k =
    elim (find_revocation initiator k.revs) [
      | none ↦ none
      | some r ↦ reply_to sender (count_finish fuel awaits r (credit_if include_reply sender k))
    ]
