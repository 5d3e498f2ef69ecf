-- ===== src/Pes/Channel/Slots.antt =====
-- What holds of the message slots and the queue in every state that can be reached.
use semper_os.Base.{
  ℕ, zero, suc, ◌≤◌, ◌<◌, ◌≡◌, refl, Bool, true, false, not, ◌&&◌, List, [], ◌∷◌, ◌++◌, some,
  if◌then◌else◌, arith,
}
use semper_os.Pes.Channel.{
  Kind, call, revocation, answer, is_revocation, Waiting, Channel, channel, blocked, enqueue,
  transmit, attempt, goes_on, received_with, received, System, Step, starts, resumes, arrives,
  Reachable, start, then_step,
}

abbrev pub all_plain : List Waiting → Bool
all_plain [] = true
all_plain (w ∷ queue) = not (is_revocation w.kind) && all_plain queue

-- No revocation stands behind another message.
abbrev pub ordered : List Waiting → Bool
ordered [] = true
ordered (w ∷ queue) = if is_revocation w.kind then ordered queue else all_plain queue

all_plain-append :
    (queue : List Waiting) (w : Waiting)
    → all_plain queue ≡ true
    → is_revocation w.kind ≡ false
    → all_plain (queue ++ w ∷ []) ≡ true
all_plain-append [] w h p = ground arith
all_plain-append (v ∷ queue) w h p = ground (arith, all_plain-append queue w)

ordered-append :
    (queue : List Waiting) (w : Waiting)
    → ordered queue ≡ true
    → is_revocation w.kind ≡ false
    → ordered (queue ++ w ∷ []) ≡ true
ordered-append [] w h p = ground arith
ordered-append (v ∷ queue) w h p = ground (arith, ordered-append queue w, all_plain-append queue w)

all_plain-ordered : (queue : List Waiting) → all_plain queue ≡ true → ordered queue ≡ true
all_plain-ordered [] h = refl
all_plain-ordered (w ∷ queue) h = ground arith

abbrev pub IsSound : Channel → Type 0
IsSound c = (c.inflight ≤ 3) × (ordered c.waiting ≡ true)

attempt-IsSound_at :
    (k : Kind) (w : Waiting) (c : Channel) → w.kind ≡ k → IsSound c → IsSound (attempt w c)
unfolding attempt blocked enqueue transmit
attempt-IsSound_at call w c e h = ground (arith, e, ordered-append c.waiting w h.1)
attempt-IsSound_at revocation w c e h = ground (arith, e)
attempt-IsSound_at answer w c e h = ground (arith, e, ordered-append c.waiting w h.1)

attempt-IsSound : (w : Waiting) (c : Channel) → IsSound c → IsSound (attempt w c)
attempt-IsSound w c h = attempt-IsSound_at w.kind w c refl h

received_with-IsSound :
    (n : ℕ) (queue woken : List Waiting) (c' : Channel)
    → received_with n queue ≡ some (woken, c')
    → n ≤ 3
    → ordered queue ≡ true
    → IsSound c'
unfolding received_with goes_on
received_with-IsSound zero queue woken c' e h o = ground (arith, e)
received_with-IsSound (suc n) [] woken c' e h o = ground (arith, e)
received_with-IsSound (suc n) (w ∷ queue) woken c' e h o =
    ground (arith, e, all_plain-ordered queue)

Step-IsSound :
    {allowed : Kind → Bool} {s s' : System}
    → Step allowed s s'
    → IsSound s.channel
    → IsSound s'.channel
unfolding received
Step-IsSound (starts w s a) h = attempt-IsSound w s.channel h
Step-IsSound (resumes w rest c) h = attempt-IsSound w c h
Step-IsSound (arrives c c' woken ready e) h =
    received_with-IsSound c.inflight c.waiting woken c' e h.0 h.1

pub sound : {allowed : Kind → Bool} {s : System} → Reachable allowed s → IsSound s.channel
unfolding channel
sound start = (omega arith, refl)
sound (then_step r t) = Step-IsSound t (sound r)

-- Whatever threads send and answers arrive, a slot is left for an answer, and revocations wait in
-- front of all other messages.
pub Reachable-IsSound :
    {allowed : Kind → Bool} {s : System}
    → Reachable allowed s
    → (s.channel.inflight < 4) × (ordered s.channel.waiting ≡ true)
Reachable-IsSound r = ground (arith, sound r)
