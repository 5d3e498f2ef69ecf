-- ===== src/Cap/Revoke/Remote.antt =====
-- A revocation whose children are all with other kernels: its calls, and how it ends.
use semper_os.Base.{
  ℕ, suc, ◌+◌, ◌^◌, ◌<◌, ◌≡◌, ◌≢◌, refl, ap, ◌∙◌, Bool, true, false, List, [], ◌∷◌, ◌++◌, none,
  some, length, ◌==◌, if_apart, if◌then◌else◌, arith,
}
use semper_os.Ddl.Members.{Members, responsible_member}
use semper_os.Cap.Capability.{TableType, Capability}
use semper_os.Cap.Kernel.{
  Revocation, Call, Kernel, revoke_call, send, add_int, find_entry, modify_entry, add_revocation,
  remove_entry,
}
use semper_os.Cap.Revocations.{update_entry}
use semper_os.Cap.Item.{Run, waits, done, and_then}
use semper_os.Cap.Revoke.{
  Ids, ids, own_revoke, ensure, await, await_more, revoke_remote, revoke_children, awaited_of,
  finish_root, finish_cap, revoke_rec,
}

abbrev pub AllRemote : Members → List ℕ → Type 0
AllRemote m [] = Unit
AllRemote m (child ∷ rest) = (responsible_member m child ≢ m.kid) × AllRemote m rest

-- The calls for the children, the latest first, on top of `sent`.
abbrev pub calls : Members → Ids → List ℕ → List Call → List Call
calls m i [] sent = sent
calls m i (child ∷ rest) sent =
    calls m i rest (revoke_call (responsible_member m child) child i.id i.origin ∷ sent)

-- The entry of a capability under revocation that awaits `n` answers.
abbrev pub entry : Ids → ℕ → ℕ → Revocation
entry i thread n = record {
  cap_id = i.id;
  parent = i.parent;
  origin = i.origin;
  awaited = n;
  tid = if i.origin == i.id then some thread else none;
  subscribers = [];
}

pub find_entry-append :
    (cap : ℕ) (before : List Revocation) (r : Revocation)
    → find_entry cap before ≡ none
    → r.cap_id ≡ cap
    → find_entry cap (before ++ r ∷ []) ≡ some r
unfolding find_entry
find_entry-append cap [] r h e = ground (arith, e)
find_entry-append cap (b ∷ before) r h e = ground (arith, find_entry-append cap before r)

pub modify_entry-append :
    (cap : ℕ) (f : Revocation → Revocation) (before : List Revocation) (r : Revocation)
    → find_entry cap before ≡ none
    → r.cap_id ≡ cap
    → modify_entry cap f (before ++ r ∷ []) ≡ before ++ f r ∷ []
unfolding find_entry modify_entry
modify_entry-append cap f [] r h e = ground (arith, e)
modify_entry-append cap f (b ∷ before) r h e = ground (arith, modify_entry-append cap f before r)

pub remove_entry-append :
    (cap : ℕ) (before : List Revocation) (r : Revocation)
    → find_entry cap before ≡ none
    → r.cap_id ≡ cap
    → remove_entry cap (before ++ r ∷ []) ≡ before
unfolding find_entry remove_entry
remove_entry-append cap [] r h e = ground (arith, e)
remove_entry-append cap (b ∷ before) r h e = ground (arith, remove_entry-append cap before r)

-- The kernel with the entry that awaits `n` answers at the end of the list.
abbrev pub with_entry : Ids → ℕ → List Call → Kernel → Kernel
with_entry i n sent k = record k { revs = k.revs ++ entry i k.thread n ∷ []; sent = sent }

add_suc : (n m : ℕ) → n + 1 + m ≡ n + suc m
add_suc n m = omega arith

one_add : (n : ℕ) → 1 + n ≡ suc n
one_add n = omega arith

add_int-small : (n m : ℕ) → n + m < 2 ^ 31 → add_int n m ≡ n + m
add_int-small n m h = omega arith

module _ (i : Ids) (k : Kernel) (rec : Capability → Kernel → Run ℕ)
    (fresh : find_entry i.id k.revs ≡ none) where
  await-with_entry :
      (n m : ℕ) (sent : List Call)
      → n + m < 2 ^ 31
      → await m i.id (with_entry i n sent k) ≡ with_entry i (n + m) sent k
  unfolding await update_entry
  await-with_entry n m sent h =
      rw
        (modify_entry-append i.id (λ e. record e { awaited = add_int e.awaited m }) k.revs
          (entry i k.thread n) fresh refl)
        (ap (λ a. with_entry i a sent k) (add_int-small n m h))

  call_child : ℕ → List Call → List Call
  call_child child sent =
      revoke_call (responsible_member k.members child) child i.id i.origin ∷ sent

  revoke_remote-more :
      (child n : ℕ) (sent : List Call)
      → n + 1 < 2 ^ 31
      → revoke_remote (responsible_member k.members child) i child true (with_entry i n sent k)
        ≡ done true (with_entry i (n + 1) (call_child child sent) k)
  unfolding revoke_remote await_more ensure send call_child
  revoke_remote-more child n sent h =
      ap (λ k'. done true (record k' { sent = call_child child sent }))
        (await-with_entry n 1 sent h)

  revoke_remote-first :
      (child : ℕ)
      → revoke_remote (responsible_member k.members child) i child false k
        ≡ done true (with_entry i 1 (call_child child k.sent) k)
  unfolding revoke_remote await_more ensure send add_revocation call_child
  revoke_remote-first child =
      rw (fresh, await_more, ensure, add_revocation)
        (ap (λ k'. done true (record k' { sent = call_child child k.sent }))
          (await-with_entry 0 1 k.sent (omega arith)))

  -- One round for a child that is not with this kernel.
  revoke_children-next :
      (child : ℕ) (rest : List ℕ) (ongoing : Bool) (k' k'' : Kernel)
      → responsible_member k'.members child ≢ k'.members.kid
      → revoke_remote (responsible_member k'.members child) i child ongoing k' ≡ done true k''
      → revoke_children rec i (child ∷ rest) ongoing k' ≡ revoke_children rec i rest true k''
  unfolding revoke_children and_then
  revoke_children-next child rest ongoing k' k'' away e =
      ap (λ r. and_then r (revoke_children rec i rest)) (if_apart _ _ away ∙ e)

  revoke_children-rest :
      (children : List ℕ) (n : ℕ) (sent : List Call)
      → AllRemote k.members children
      → n + length children < 2 ^ 31
      → revoke_children rec i children true (with_entry i n sent k)
        ≡ done true (with_entry i (n + length children) (calls k.members i children sent) k)
  unfolding revoke_children call_child
  revoke_children-rest [] n sent h b = ap (λ m. done true (with_entry i m sent k)) (omega arith)
  revoke_children-rest (child ∷ rest) n sent h b =
      revoke_children-next child rest true (with_entry i n sent k) _ h.0
        (revoke_remote-more child n sent (omega arith))
      ∙ revoke_children-rest rest (n + 1) (call_child child sent) h.1 (omega arith)
      ∙ ap (λ m. done true (with_entry i m (calls k.members i rest (call_child child sent)) k))
          (add_suc n (length rest))

  revoke_children-all :
      (children : List ℕ)
      → 0 < length children
      → AllRemote k.members children
      → length children < 2 ^ 31
      → revoke_children rec i children false k
        ≡ done true (with_entry i (length children) (calls k.members i children k.sent) k)
  unfolding call_child
  revoke_children-all [] p h b = absurd (omega arith)
  revoke_children-all (child ∷ rest) p h b =
      revoke_children-next child rest false k _ h.0 (revoke_remote-first child)
      ∙ revoke_children-rest rest 1 (call_child child k.sent) h.1 (omega arith)
      ∙ ap (λ m. done true (with_entry i m (calls k.members i rest (call_child child k.sent)) k))
          (one_add (length rest))

  awaited_of-with_entry : (n : ℕ) (sent : List Call) → awaited_of i.id (with_entry i n sent k) ≡ n
  unfolding awaited_of
  awaited_of-with_entry n sent =
      rw (find_entry-append i.id k.revs (entry i k.thread n) fresh refl, awaited_of) refl

  finish_cap-with_entry :
      (n : ℕ) (sent : List Call)
      → 0 < n
      → n < 2 ^ 31
      → finish_cap i true (with_entry i n sent k) ≡ (
          if i.id == i.origin
          then waits (with_entry i n sent k)
          else done n (with_entry i n sent k))
  unfolding finish_cap finish_root
  finish_cap-with_entry n sent p b = ground (arith, awaited_of-with_entry n sent)

-- What follows the capability's own `revoke`.
pub revoke_rec-own :
    (fuel origin : ℕ) (type : TableType) (c : Capability) (k k' : Kernel)
    → own_revoke fuel c k ≡ done 0 k'
    → revoke_rec (suc fuel) origin type c k
      ≡ and_then
          (revoke_children (revoke_rec fuel origin type) (ids type origin c) c.children false k')
          (finish_cap (ids type origin c))
unfolding revoke_rec own_revoke and_then
revoke_rec-own fuel origin type c k k' own =
    ap
      (λ r. and_then r (λ n k'.
        and_then
          (revoke_children (revoke_rec fuel origin type) (ids type origin c) c.children false k')
          (finish_cap (ids type origin c))))
      own

-- The revocation of a capability that can itself be revoked and has no entry yet, with at least one
-- child, all of whose children are with other kernels: each child's kernel gets one call, and the
-- capability's entry awaits as many answers as there are children. At the root the thread waits for
-- them; elsewhere their number is the result.
pub revoke_rec-remote :
    (fuel origin : ℕ) (type : TableType) (c : Capability) (k k' : Kernel)
    → own_revoke fuel c k ≡ done 0 k'
    → 0 < length c.children
    → length c.children < 2 ^ 31
    → AllRemote k'.members c.children
    → find_entry (ids type origin c).id k'.revs ≡ none
    → revoke_rec (suc fuel) origin type c k ≡ (
        let i = ids type origin c in
        let n = length c.children in
        let after = with_entry i n (calls k'.members i c.children k'.sent) k' in
        if i.id == origin then waits after else done n after)
unfolding and_then
revoke_rec-remote fuel origin type c k k' own some_child bound away fresh =
    revoke_rec-own fuel origin type c k k' own
    ∙ (ap (λ r. and_then r (finish_cap (ids type origin c)))
          (revoke_children-all (ids type origin c) k' (revoke_rec fuel origin type) fresh c.children
            some_child away bound)
        ∙ finish_cap-with_entry (ids type origin c) k' (revoke_rec fuel origin type) fresh
            (length c.children) (calls k'.members (ids type origin c) c.children k'.sent) some_child
            bound)
