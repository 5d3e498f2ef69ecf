-- ===== src/Com/SendQueue/Order.antt =====
-- The order of messages, and what becomes of their copies, over any sequence of operations.
use semper_os.Base.{
  ℕ, zero, suc, ◌≤◌, ◌<◌, ◌≡◌, refl, ap, sym, subst, ◌∙◌, Bool, true, false, List, [], ◌∷◌, ◌++◌,
  Option, none, some, length, arith,
}
use semper_os.Com.SendQueue.{
  Entry, SendQueue, Action, transmits, copies, frees, send_queue, do_send, send, reply_with,
  received_reply,
}

-- The calls of a queue.
pub data Event : Type 0 where
  sends : Entry → Bool → Event
  replied : Event

-- The messages that are given to the queue.
abbrev pub given : List Event → List Entry
given [] = []
given (sends e onheap ∷ events) = e ∷ given events
given (replied ∷ events) = given events

abbrev pub and_later :
    List Action → Option (List Action × SendQueue) → Option (List Action × SendQueue)
and_later before none = none
and_later before (some (actions, q)) = some (before ++ actions, q)

-- All actions of a sequence of calls, in their order.
unfoldable pub run : List Event → SendQueue → Option (List Action × SendQueue)
unfolding send received_reply
run [] q = some ([], q)
run (sends e onheap ∷ events) q = and_later (send e onheap q).0 (run events (send e onheap q).1)
run (replied ∷ events) q = elim (received_reply q) [
  | none ↦ none
  | some (actions, q') ↦ and_later actions (run events q')
]

abbrev pub transmitted : List Action → List Entry
transmitted [] = []
transmitted (transmits e ∷ actions) = e ∷ transmitted actions
transmitted (copies e ∷ actions) = transmitted actions
transmitted (frees e ∷ actions) = transmitted actions

-- The bounds that the queue keeps: no message waits while there is room.
abbrev pub IsFull : SendQueue → Type 0
IsFull q = (q.inflight ≤ q.capacity) × (0 < length q.queue → q.inflight ≡ q.capacity)

append_nil : (l : List Entry) → l ++ [] ≡ l
append_nil [] = refl
append_nil (e ∷ l) = ap (λ t. e ∷ t) (append_nil l)

append_assoc : (a b c : List Entry) → (a ++ b) ++ c ≡ a ++ (b ++ c)
append_assoc [] b c = refl
append_assoc (e ∷ a) b c = ap (λ t. e ∷ t) (append_assoc a b c)

transmitted-append : (a b : List Action) → transmitted (a ++ b) ≡ transmitted a ++ transmitted b
transmitted-append [] b = refl
transmitted-append (transmits e ∷ a) b = ap (λ t. e ∷ t) (transmitted-append a b)
transmitted-append (copies e ∷ a) b = transmitted-append a b
transmitted-append (frees e ∷ a) b = transmitted-append a b

length-append_pos : (l : List Entry) (e : Entry) → 0 < length (l ++ e ∷ [])
length-append_pos [] e = omega arith
length-append_pos (x ∷ l) e = omega arith

-- One call: the bounds stay, and what leaves and what waits is what waited and what was given.
abbrev pub Keeps : List Entry → SendQueue → List Action × SendQueue → Type 0
Keeps new q r =
    IsFull r.1 × (r.1.capacity ≡ q.capacity) × (transmitted r.0 ++ r.1.queue ≡ q.queue ++ new)

send-Keeps_at :
    (queue : List Entry) (e : Entry) (onheap : Bool) (q : SendQueue)
    → q.queue ≡ queue
    → IsFull q
    → Keeps (e ∷ []) q (send e onheap q)
unfolding send do_send
send-Keeps_at [] e true q f h = ground (arith, f)
send-Keeps_at [] e false q f h = ground (arith, f)
send-Keeps_at (x ∷ queue) e true q f h = ground (arith, f, length-append_pos q.queue e)
send-Keeps_at (x ∷ queue) e false q f h = ground (arith, f, length-append_pos q.queue e)

reply-Keeps :
    (n : ℕ) (queue : List Entry) (q : SendQueue) (r : List Action × SendQueue)
    → q.inflight ≡ n
    → q.queue ≡ queue
    → reply_with n queue q ≡ some r
    → IsFull q
    → Keeps [] q r
unfolding reply_with do_send
reply-Keeps zero queue q r e f g h = ground (arith, g)
reply-Keeps (suc n) [] q r e f g h = ground (arith, e, f, g)
reply-Keeps (suc n) (x ∷ queue) q r e f g h = ground (arith, e, f, g, append_nil q.queue)

-- Two stretches of calls, one after the other.
Keeps-then :
    (new more : List Entry) (before : List Action) (q q' : SendQueue) (r : List Action × SendQueue)
    → Keeps new q (before, q')
    → Keeps more q' r
    → Keeps (new ++ more) q (before ++ r.0, r.1)
Keeps-then new more before q q' r h g = (
  g.0,
  g.1 ∙ h.1,
  ap (λ t. t ++ r.1.queue) (transmitted-append before r.0)
      ∙ append_assoc (transmitted before) (transmitted r.0) r.1.queue
      ∙ ap (λ t. transmitted before ++ t) g.2
      ∙ sym (append_assoc (transmitted before) q'.queue more)
      ∙ ap (λ t. t ++ more) h.2
      ∙ append_assoc q.queue new more,
)

some_injective : {x y : List Action × SendQueue} → some x ≡ some y → x ≡ y
some_injective e = ground (arith, e)

and_later-Keeps :
    (new more : List Entry) (before : List Action) (q q' : SendQueue)
    (o : Option (List Action × SendQueue)) (r : List Action × SendQueue)
    → Keeps new q (before, q')
    → ((r' : List Action × SendQueue) → o ≡ some r' → Keeps more q' r')
    → and_later before o ≡ some r
    → Keeps (new ++ more) q r
and_later-Keeps new more before q q' none r h g e = ground (arith, e)
and_later-Keeps new more before q q' (some (actions, q'')) r h g e =
    subst (Keeps (new ++ more) q) (some_injective e)
      (Keeps-then new more before q q' (actions, q'') h (g (actions, q'') refl))

received-Keeps :
    (events : List Event) (q : SendQueue) (o : Option (List Action × SendQueue))
    (r : List Action × SendQueue)
    → received_reply q ≡ o
    → IsFull q
    → ((actions : List Action) (q' : SendQueue) (r' : List Action × SendQueue)
        → run events q' ≡ some r'
        → IsFull q'
        → Keeps (given events) q' r')
    → elim o [ none ↦ none | some (actions, q') ↦ and_later actions (run events q') ] ≡ some r
    → Keeps (given events) q r
unfolding received_reply
received-Keeps events q none r f h g e = ground (arith, e)
received-Keeps events q (some (actions, q')) r f h g e =
    let first = reply-Keeps q.inflight q.queue q (actions, q') refl refl f h in
    and_later-Keeps [] (given events) actions q q' (run events q') r first
      (λ r' e'. g actions q' r' e' first.0) e

run-Keeps :
    (events : List Event) (q : SendQueue) (r : List Action × SendQueue)
    → run events q ≡ some r
    → IsFull q
    → Keeps (given events) q r
unfolding run received_reply
run-Keeps [] q r e h = ground (arith, e, append_nil q.queue)
run-Keeps (sends x onheap ∷ events) q r e h =
    let first = send-Keeps_at q.queue x onheap q refl h in
    and_later-Keeps (x ∷ []) (given events) (send x onheap q).0 q (send x onheap q).1
      (run events (send x onheap q).1) r first
      (λ r' e'. run-Keeps events (send x onheap q).1 r' e' first.0) e
run-Keeps (replied ∷ events) q r e h =
    received-Keeps events q (received_reply q) r refl h
      (λ actions q' r' e' h'. run-Keeps events q' r' e' h') e

-- Over any calls, the messages leave in the order in which they were given, and those that have not
-- left are the ones that wait; never more than the capacity are in flight, and as many as that while
-- one waits.
pub run_in_order :
    (capacity : ℕ) (events : List Event) (actions : List Action) (q : SendQueue)
    → run events (send_queue capacity) ≡ some (actions, q)
    → (transmitted actions ++ q.queue ≡ given events)
      × (q.inflight ≤ capacity)
      × (0 < length q.queue → q.inflight ≡ capacity)
unfolding send_queue
run_in_order capacity events actions q e =
    let kept =
      run-Keeps events (send_queue capacity) (actions, q) e
        (omega arith, λ h. absurd (omega arith)) in
    (kept.2, ground (arith, kept), ground (arith, kept))
