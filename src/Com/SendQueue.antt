-- ===== src/Com/SendQueue.antt =====
-- `SendQueue` of apps/kernel/SendQueue.h: at most `capacity` messages are in flight, the others wait.
pub mod Order
use semper_os.Base.{
  ℕ, zero, suc, Bool, true, false, List, [], ◌∷◌, ◌++◌, Option, none, some, ltb, if◌then◌else◌,
}

-- A message, with its bytes as a number.
pub record Entry : Type 0 where
  pub rgate : ℕ
  pub sgate : ℕ
  pub msg : ℕ
  pub size : ℕ

pub record SendQueue : Type 0 where
  pub queue : List Entry
  pub capacity : ℕ
  pub inflight : ℕ

-- What is done outside: a message leaves by its gate, its copy is made on the heap or is freed.
pub data Action : Type 0 where
  transmits copies frees : Entry → Action

unfoldable pub send_queue : ℕ → SendQueue
send_queue capacity = record { queue = []; capacity = capacity; inflight = zero }

-- `do_send`: the actions and the queue.
unfoldable pub do_send : Entry → Bool → SendQueue → List Action × SendQueue
do_send e onheap q =
    (transmits e ∷ (if onheap then frees e ∷ [] else []), record q { inflight = suc q.inflight })

unfoldable pub send : Entry → Bool → SendQueue → List Action × SendQueue
unfolding do_send
send e onheap q =
    if ltb q.inflight q.capacity
    then do_send e onheap q
    else (if onheap then [] else copies e ∷ [], record q { queue = q.queue ++ e ∷ [] })

-- `received_reply`, by the messages in flight and the queue; `none` is a failed assertion.
unfoldable pub reply_with : ℕ → List Entry → SendQueue → Option (List Action × SendQueue)
unfolding do_send
reply_with zero queue q = none
reply_with (suc n) [] q = some ([], record q { inflight = n })
reply_with (suc n) (e ∷ queue) q = some (do_send e true (record q { inflight = n; queue = queue }))

unfoldable pub received_reply : SendQueue → Option (List Action × SendQueue)
unfolding reply_with
received_reply q = reply_with q.inflight q.queue q
