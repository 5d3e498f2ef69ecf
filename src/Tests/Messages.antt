-- ===== src/Tests/Messages.antt =====
-- Messages between kernels and to services at concrete inputs.
use semper_os.Base.{◌⊎◌, ℕ, ◌≤◌, ◌<◌, ◌++◌, ◌≡◌, refl, Bool, true, false, List, [], ◌∷◌}
use semper_os.Com.SendQueue.{
  Entry, SendQueue, Action, transmits, copies, frees, send_queue, do_send, send, reply_with,
  received_reply,
}
use semper_os.Com.SendQueue.Order.{Event, sends, replied, given, run, transmitted, run_in_order}
use semper_os.Pes.Channel.{
  Kind, call, revocation, answer, Waiting, channel, blocked, enqueue, transmit, attempt, goes_on,
  received_with, received, System, Step, starts, resumes, arrives, Reachable, start, then_step,
}
use semper_os.Pes.Channel.Slots.{ordered, Reachable-IsSound}
use semper_os.Pes.Channel.Wakeups.{is_call, IsNotified, Reachable-wakeup, answer_strands}

abbrev thread : ℕ → Kind → Waiting
thread tid kind = record { tid = tid; kind = kind }

abbrev state : ℕ → Bool → List Waiting → System
state inflight last waiting = record {
  channel = record { inflight = inflight; last_reply = last; waiting = waiting };
  ready = [];
}

-- Two calls are sent, and the third waits.
two_sent : Reachable is_call (state 2 false (thread 3 call ∷ []))
unfolding channel attempt blocked enqueue transmit
two_sent =
    then_step
      (then_step (then_step start (starts (thread 1 call) (state 0 false []) refl))
        (starts (thread 2 call) (state 1 false []) refl))
      (starts (thread 3 call) (state 2 false []) refl)

Reachable-IsSound_example : (2 < 4) × (ordered (thread 3 call ∷ []) ≡ true)
Reachable-IsSound_example = Reachable-IsSound two_sent

-- Then a revocation is sent, and three messages are in flight.
call_waits : Reachable is_call (state 3 false (thread 3 call ∷ []))
unfolding channel attempt blocked enqueue transmit
call_waits =
    then_step two_sent (starts (thread 4 revocation) (state 2 false (thread 3 call ∷ [])) refl)

Reachable-wakeup_example :
    (0 < 0) ⊎ IsNotified (thread 3 call) [] (state 3 false (thread 3 call ∷ [])).channel
Reachable-wakeup_example = Reachable-wakeup (thread 3 call) [] call_waits refl

abbrev any_kind : Kind → Bool
any_kind k = true

three_sent : Reachable any_kind (state 3 true [])
unfolding channel attempt blocked enqueue transmit
three_sent =
    then_step
      (then_step
        (then_step (then_step start (starts (thread 1 revocation) (state 0 false []) refl))
          (starts (thread 2 revocation) (state 1 false []) refl))
        (starts (thread 3 revocation) (state 2 false []) refl))
      (starts (thread 4 answer) (state 3 false []) refl)

three_wait :
    Reachable any_kind (state 3 true (thread 5 answer ∷ thread 6 answer ∷ thread 7 call ∷ []))
unfolding channel attempt blocked enqueue transmit
three_wait =
    then_step
      (then_step (then_step three_sent (starts (thread 5 answer) (state 3 true []) refl))
        (starts (thread 6 answer) (state 3 true (thread 5 answer ∷ [])) refl))
      (starts (thread 7 call) (state 3 true (thread 5 answer ∷ thread 6 answer ∷ [])) refl)

-- The state that `answer_strands` starts from can be reached.
one_left : Reachable any_kind (state 1 true (thread 6 answer ∷ thread 7 call ∷ []))
unfolding channel attempt blocked enqueue transmit received received_with goes_on
one_left =
    then_step
      (then_step
        (then_step three_wait (
          arrives _ (state 2 false (thread 5 answer ∷ thread 6 answer ∷ thread 7 call ∷ [])).channel
            [] [] refl))
        (arrives _ (state 1 false (thread 6 answer ∷ thread 7 call ∷ [])).channel
          (thread 5 answer ∷ []) [] refl))
      (resumes (thread 5 answer) [] (state 1 false (thread 6 answer ∷ thread 7 call ∷ [])).channel)

answer_strands_example :
    (s : System) × Step any_kind (state 1 true (thread 6 answer ∷ thread 7 call ∷ [])) s
    × (s' : System) × Step any_kind s s'
    × (s'.channel.inflight ≡ 0)
    × (s'.ready ≡ [])
    × (s'.channel.waiting ≡ thread 7 call ∷ [])
answer_strands_example = answer_strands any_kind 6 true (thread 7 call ∷ [])

abbrev message : ℕ → Entry
message msg = record { rgate = 1; sgate = 2; msg = msg; size = 8 }

-- One message may be in flight.
abbrev events : List Event
events = sends (message 5) true ∷ sends (message 6) false ∷ sends (message 7) true ∷ replied ∷ []

abbrev actions : List Action
actions =
    transmits (message 5)
    ∷ frees (message 5)
    ∷ copies (message 6)
    ∷ transmits (message 6)
    ∷ frees (message 6)
    ∷ []

abbrev one_waits : SendQueue
one_waits = record { queue = message 7 ∷ []; capacity = 1; inflight = 1 }

run_in_order_example :
    (transmitted actions ++ message 7 ∷ [] ≡ given events) × (1 ≤ 1) × (0 < 1 → ◌≡◌ {A = ℕ} 1 1)
unfolding run send_queue send do_send received_reply reply_with
run_in_order_example = run_in_order 1 events actions one_waits refl
