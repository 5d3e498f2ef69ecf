-- ===== src/Pes/Channel/Wakeups.antt =====
-- Whether the threads that wait for a message slot will be notified.
use semper_os.Base.{
  ℕ, zero, suc, ◌+◌, ◌-◌, ◌<◌, ◌≤◌, ◌≡◌, refl, ◌⊎◌, inl, inr, Option, none, ◌==◌, if◌then◌else◌,
  sym, subst, Bool, true, false, ◌&&◌, List, [], ◌∷◌, ◌++◌, some, length, arith,
}
use semper_os.Pes.Channel.Slots.{sound}
use semper_os.Pes.Channel.{
  Kind, call, revocation, answer, Waiting, Channel, channel, blocked, enqueue, transmit, attempt,
  is_revocation, goes_on, received_with, received, System, Step, starts, resumes, arrives,
  Reachable, start, then_step,
}

-- Is it a call?
abbrev pub is_call : Kind → Bool
is_call answer = false
is_call _ = true

abbrev pub all_calls : List Waiting → Bool
all_calls [] = true
all_calls (w ∷ queue) = is_call w.kind && all_calls queue

all_calls-append :
    (queue more : List Waiting)
    → all_calls queue ≡ true
    → all_calls more ≡ true
    → all_calls (queue ++ more) ≡ true
all_calls-append [] more h p = p
all_calls-append (v ∷ queue) more h p = ground (arith, all_calls-append queue more)

length-append : (queue more : List Waiting) → length (queue ++ more) ≡ length queue + length more
length-append [] more = ground arith
length-append (v ∷ queue) more = ground (arith, length-append queue more)

attempt-calls :
    (k : Kind) (w : Waiting) (c : Channel)
    → w.kind ≡ k
    → is_call k ≡ true
    → all_calls c.waiting ≡ true
    → (0 < (attempt w c).inflight) × (all_calls (attempt w c).waiting ≡ true)
unfolding attempt blocked enqueue transmit
attempt-calls call w c e h p = ground (arith, e, all_calls-append c.waiting (w ∷ []) p)
attempt-calls revocation w c e h p = ground (arith, e)
attempt-calls answer w c e h p = ground arith

-- Only calls wait or are ready, and if one waits, then an answer or a ready thread is to come.
abbrev pub IsLive : System → Type 0
IsLive s =
    (all_calls s.channel.waiting ≡ true)
    × (all_calls s.ready ≡ true)
    × (0 < length s.channel.waiting → 0 < s.channel.inflight + length s.ready)

received_with-IsLive :
    (n : ℕ) (queue woken ready : List Waiting) (c' : Channel)
    → received_with n queue ≡ some (woken, c')
    → all_calls queue ≡ true
    → all_calls ready ≡ true
    → IsLive (record { channel = c'; ready = ready ++ woken })
unfolding received_with goes_on
received_with-IsLive zero queue woken ready c' e p q = ground (arith, e)
received_with-IsLive (suc n) [] woken ready c' e p q =
    ground (arith, e, all_calls-append ready woken)
received_with-IsLive (suc n) (w ∷ queue) woken ready c' e p q =
    ground (arith, e, all_calls-append ready woken, length-append ready woken)

Step-IsLive : {s s' : System} → Step is_call s s' → IsLive s → IsLive s'
unfolding received
Step-IsLive (starts w s a) h = ground (arith, attempt-calls w.kind w s.channel refl a h.0)
Step-IsLive (resumes w rest c) h = ground (arith, attempt-calls w.kind w c refl)
Step-IsLive (arrives c c' woken ready e) h =
    received_with-IsLive c.inflight c.waiting woken ready c' e h.0 h.1

live : {s : System} → Reachable is_call s → IsLive s
unfolding channel
live start = (refl, refl, λ h. absurd (omega arith))
live (then_step r t) = Step-IsLive t (live r)

-- `n` answers, one after the other: the threads that they notify, and the channel.
unfoldable pub after_answers : ℕ → Channel → Option (List Waiting × Channel)
unfolding received
after_answers zero c = some ([], c)
after_answers (suc n) c = elim (received c) [
  | none ↦ none
  | some (woken, c') ↦ elim (after_answers n c') [
    | none ↦ none
    | some (more, c'') ↦ some (woken ++ more, c'')
  ]
]

-- How many answers come before the one that notifies a thread.
abbrev pub early : Waiting → ℕ → ℕ
early w inflight = if is_revocation w.kind then 0 else inflight - 2

-- The answer that notifies `w`, the first thread of the queue, and no other.
abbrev pub IsNotified : Waiting → List Waiting → Channel → Type 0
IsNotified w queue c =
    (early w c.inflight < c.inflight)
    × (after_answers (early w c.inflight) c
        ≡ some (
          [],
          record {
            inflight = c.inflight - early w c.inflight;
            last_reply = if early w c.inflight == 0 then c.last_reply else false;
            waiting = w ∷ queue;
          },
        ))
    × ((c' : Channel) × (after_answers (suc (early w c.inflight)) c ≡ some (w ∷ [], c'))
        × (c'.waiting ≡ queue)
        × (blocked w.kind c' ≡ false))

notified :
    (k : Kind) (tid n : ℕ) (queue : List Waiting) (last : Bool)
    → is_call k ≡ true
    → n ≤ 2
    → IsNotified
        (record { tid = tid; kind = k })
        queue
        (record {
          inflight = suc n;
          last_reply = last;
          waiting = record { tid = tid; kind = k } ∷ queue;
        })
unfolding after_answers received received_with goes_on blocked
notified revocation tid zero queue last h l = (
  omega arith,
  refl,
  (record { inflight = 0; last_reply = false; waiting = queue }, refl, refl, refl),
)
notified revocation tid (suc zero) queue last h l = (
  omega arith,
  refl,
  (record { inflight = 1; last_reply = false; waiting = queue }, refl, refl, refl),
)
notified revocation tid (suc (suc zero)) queue last h l = (
  omega arith,
  refl,
  (record { inflight = 2; last_reply = false; waiting = queue }, refl, refl, refl),
)
notified revocation tid (suc (suc (suc n))) queue last h l = absurd (omega (arith, l))
notified call tid zero queue last h l = (
  omega arith,
  refl,
  (record { inflight = 0; last_reply = false; waiting = queue }, refl, refl, refl),
)
notified call tid (suc zero) queue last h l = (
  omega arith,
  refl,
  (record { inflight = 1; last_reply = false; waiting = queue }, refl, refl, refl),
)
notified call tid (suc (suc zero)) queue last h l = (
  omega arith,
  refl,
  (record { inflight = 1; last_reply = false; waiting = queue }, refl, refl, refl),
)
notified call tid (suc (suc (suc n))) queue last h l = absurd (omega (arith, l))
notified answer tid n queue last h l = ground (arith, h)

wakeup_at :
    (w : Waiting) (queue ready : List Waiting) (inflight : ℕ) (last : Bool)
    → inflight ≤ 3
    → is_call w.kind ≡ true
    → 0 < inflight + length ready
    → (0 < length ready)
      ⊎ IsNotified w queue (record { inflight = inflight; last_reply = last; waiting = w ∷ queue })
wakeup_at w queue (v ∷ ready) n last l h p = inl (omega arith)
wakeup_at w queue [] zero last l h p = absurd (omega (arith, p))
wakeup_at w queue [] (suc n) last l h p = inr (notified w.kind w.tid n queue last h (omega arith))

-- Where threads send calls and revocations only, no wakeup is lost: as long as a thread waits for a
-- slot, a notified thread is to run, or messages are in flight and their answers notify the first thread
-- of the queue: the next answer if it sends a revocation, else the one that leaves one message
-- in flight, or none if there was only one. The answers before that notify nobody, and if the thread
-- runs at once, it need not wait again.
pub Reachable-wakeup :
    {s : System} (w : Waiting) (queue : List Waiting)
    → Reachable is_call s
    → s.channel.waiting ≡ w ∷ queue
    → (0 < length s.ready) ⊎ IsNotified w queue s.channel
Reachable-wakeup {s} w queue r e =
    let (p, q, l) = live r in
    let calls : all_calls (w ∷ queue) ≡ true = subst (λ ws. all_calls ws ≡ true) e p in
    let some_way : 0 < s.channel.inflight + length s.ready =
      l (subst (λ ws. 0 < length ws) (sym e) (omega arith)) in
    subst (λ ws. (0 < length s.ready) ⊎ IsNotified w queue (record s.channel { waiting = ws }))
      (sym e)
      (wakeup_at w queue s.ready s.channel.inflight s.channel.last_reply (sound r).0
        (ground (arith, calls)) some_way)

-- An answer takes no slot, so a thread that waits to send one takes the notification from those
-- behind it: when the last message in flight is answered, it goes on, and they wait with nothing in
-- flight and no thread ready.
pub answer_strands :
    (allowed : Kind → Bool) (tid : ℕ) (last : Bool) (rest : List Waiting)
    → (s : System) × Step allowed
        (record {
          channel = record {
            inflight = 1;
            last_reply = last;
            waiting = record { tid = tid; kind = answer } ∷ rest;
          };
          ready = [];
        })
        s
      × (s' : System) × Step allowed s s'
      × (s'.channel.inflight ≡ 0)
      × (s'.ready ≡ [])
      × (s'.channel.waiting ≡ rest)
unfolding received received_with goes_on attempt blocked transmit
answer_strands allowed tid last rest =
    let w : Waiting = record { tid = tid; kind = answer } in
    let c : Channel = record { inflight = 0; last_reply = false; waiting = rest } in
    (
      record { channel = c; ready = w ∷ [] },
      arrives _ c (w ∷ []) [] refl,
      record { channel = attempt w c; ready = [] },
      resumes w [] c,
      refl,
      refl,
      refl,
    )
