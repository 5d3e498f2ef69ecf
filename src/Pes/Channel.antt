-- ===== src/Pes/Channel.antt =====
-- The messages of one kernel to another: `sendTo`, `sendRevocationTo`, `forwardTo`, `reply` and
-- `msg_received` of apps/kernel/pes/KPE.{h,cc}. What a message says is not seen here.
pub mod Slots
pub mod Wakeups
use semper_os.Base.{
  ℕ, zero, suc, ◌-◌, Bool, true, false, not, ◌&&◌, List, [], ◌∷◌, ◌++◌, Option, none, some, ltb,
  leb, if◌then◌else◌, ◌≡◌,
}

-- What a thread sends: a call by `sendTo` or `forwardTo`, a call by `sendRevocationTo`, or an answer
-- by `reply`.
pub data Kind : Type 0 where
  call revocation answer : Kind

abbrev pub is_revocation : Kind → Bool
is_revocation revocation = true
is_revocation _ = false

-- `WaitingKPE`, with the loop that the thread waits in.
pub record Waiting : Type 0 where
  pub tid : ℕ
  pub kind : Kind

-- The members of a `KPE` that bear on messages.
pub record Channel : Type 0 where
  pub inflight : ℕ
  pub last_reply : Bool
  pub waiting : List Waiting

abbrev pub max_inflight : ℕ
max_inflight = 4

unfoldable pub channel : Channel
channel = record { inflight = 0; last_reply = false; waiting = [] }

-- The condition of each loop.
unfoldable pub blocked : Kind → Channel → Bool
blocked call c = leb (max_inflight - 2) c.inflight
blocked revocation c = leb (max_inflight - 1) c.inflight
blocked answer c = leb (max_inflight - 1) c.inflight && c.last_reply

-- The thread is put into the queue: a revocation in front.
unfoldable pub enqueue : Waiting → List Waiting → List Waiting
enqueue w queue = if is_revocation w.kind then w ∷ queue else queue ++ w ∷ []

-- The message goes out.
unfoldable pub transmit : Kind → Channel → Channel
transmit call c = record c { inflight = suc c.inflight }
transmit revocation c = record c { inflight = suc c.inflight }
transmit answer c = record c { last_reply = true }

-- One round of the loop of a thread.
unfoldable pub attempt : Waiting → Channel → Channel
unfolding blocked enqueue transmit
attempt w c =
    if blocked w.kind c then record c { waiting = enqueue w c.waiting } else transmit w.kind c

-- Does `msg_received` go on with the first thread of the queue?
unfoldable pub goes_on : ℕ → Waiting → Bool
goes_on inflight w = if ltb inflight (max_inflight - 2) then true else is_revocation w.kind

-- `msg_received`, by the messages in flight and the queue: the thread that is notified, if any, and
-- the channel. `none` is a failed assertion.
unfoldable pub received_with : ℕ → List Waiting → Option (List Waiting × Channel)
unfolding goes_on
received_with zero queue = none
received_with (suc n) [] = some ([], record { inflight = n; last_reply = false; waiting = [] })
received_with (suc n) (w ∷ queue) = some (
    if goes_on n w
    then (w ∷ [], record { inflight = n; last_reply = false; waiting = queue })
    else ([], record { inflight = n; last_reply = false; waiting = w ∷ queue }))

unfoldable pub received : Channel → Option (List Waiting × Channel)
unfolding received_with
received c = received_with c.inflight c.waiting

-- The channel with the threads that were notified and have not run since.
pub record System : Type 0 where
  pub channel : Channel
  pub ready : List Waiting

-- What can happen: a thread of an allowed kind starts to send, the first ready thread runs on, or an
-- answer arrives.
pub data Step (allowed : Kind → Bool) : System → System → Type 0 where
  starts :
      (w : Waiting) (s : System)
      → allowed w.kind ≡ true
      → Step allowed s (record s { channel = attempt w s.channel })
  resumes :
      (w : Waiting) (rest : List Waiting) (c : Channel)
      → Step allowed
          (record { channel = c; ready = w ∷ rest })
          (record { channel = attempt w c; ready = rest })
  arrives :
      (c c' : Channel) (woken ready : List Waiting)
      → received c ≡ some (woken, c')
      → Step allowed
          (record { channel = c; ready = ready })
          (record { channel = c'; ready = ready ++ woken })

-- What can be reached from the start.
pub data Reachable (allowed : Kind → Bool) : System → Type 0 where
  start : Reachable allowed (record { channel = channel; ready = [] })
  then_step : {s s' : System} → Reachable allowed s → Step allowed s s' → Reachable allowed s'
