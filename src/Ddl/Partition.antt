-- ===== src/Ddl/Partition.antt =====
-- apps/kernel/ddl/MHTPartition.cc: the items that a kernel stores for one PE, with their locks and
-- reservations, and `lock`, `unlock`, `transferData` and `enqueueTicket` of MHTTypes.{h,cc}. A lock
-- handle is `draw`, the first number but 0 that the random numbers give.
pub mod Locks
pub mod Replace
use semper_os.Base.{
  ℕ, ◌^◌, ◌-◌, Bool, true, false, not, ◌||◌, List, [], ◌∷◌, ◌++◌, Option, none, some, ◌==◌,
  if◌then◌else◌,
}

-- `MHTItem`. `content` is the pointer `data`, `lock_handle` is 0 if the item is not locked. `stale` tells that
-- the list of tickets still has tickets that `unlock` has deleted.
pub record Item : Type 0 where
  pub key : ℕ
  pub content : Option ℕ
  pub length : ℕ
  pub lock_handle : ℕ
  pub reservation : Bool
  pub tickets : List ℕ
  pub stale : Bool

-- The data that was freed, the latest first, and the threads that were notified, in their order.
-- `broken` tells that the list of items still has one that `release` has deleted.
pub record Partition : Type 0 where
  pub items : List Item
  pub freed : List ℕ
  pub woken : List ℕ
  pub broken : Bool

-- A fault is a use of memory that was deleted, or a panic; a thread that waits goes on later.
pub data Out (A : Type 0) : Type 0 where
  fault : Out A
  waits : Partition → Out A
  ok : A → Partition → Out A

pub data Code : Type 0 where
  no_error no_perm : Code

abbrev pub is_locked : Item → Bool
is_locked i = not (i.lock_handle == 0)

-- The first item of a key.
unfoldable pub find_item : ℕ → List Item → Option Item
find_item key [] = none
find_item key (i ∷ items) = if i.key == key then some i else find_item key items

-- A write to it.
unfoldable pub write_item : ℕ → (Item → Item) → List Item → List Item
write_item key f [] = []
write_item key f (i ∷ items) = if i.key == key then f i ∷ items else i ∷ write_item key f items

unfoldable pub write : ℕ → (Item → Item) → Partition → Partition
unfolding write_item
write key f p = record p { items = write_item key f p.items }

-- The constructor of an item panics if its data is not on the heap, so that test of `transferData`
-- passes. What `put` frees of an item that it replaces: its data, which `transferData` frees again.
unfoldable pub free_twice : Option ℕ → List ℕ → List ℕ
free_twice none freed = freed
free_twice (some d) freed = d ∷ d ∷ freed

-- The item that is replaced keeps its length.
unfoldable pub replace : Item → ℕ → Item → Item
replace new handle i = record i {
  content = new.content;
  lock_handle = if handle == 0 then i.lock_handle else 0;
}

abbrev pub put_over : Item → ℕ → Item → Partition → Out Code
put_over new handle i p =
    if not (is_locked i) || (handle == i.lock_handle)
    then ok no_error
        (record (write new.key (replace new handle) p) { freed = free_twice i.content p.freed })
    else ok no_perm p

abbrev pub if_intact : {A : Type 0} → Partition → Out A → Out A
if_intact p out = if p.broken then fault else out

unfoldable pub put : Item → ℕ → Partition → Out Code
unfolding find_item write replace free_twice
put new handle p = if_intact p (elim (find_item new.key p.items) [
  | some i ↦ put_over new handle i p
  | none ↦ ok no_error (record p { items = p.items ++ new ∷ [] })
])

-- `MHTItem::lock`, which panics if the item is locked.
unfoldable pub lock_item : ℕ → Item → Partition → Out Item
unfolding write
lock_item draw i p =
    let locked = record i { lock_handle = draw } in
    if is_locked i then fault else ok locked (write i.key (λ j. record j { lock_handle = draw }) p)

-- `get` where the item is there and the thread does not wait, or has waited.
unfoldable pub get_item : ℕ → Bool → Item → Partition → Out Item
unfolding lock_item
get_item draw locking i p = if locking then lock_item draw i p else ok i p

-- `enqueueTicket`: the thread waits.
unfoldable pub enqueue_ticket : ℕ → Item → Partition → Out Item
unfolding write
enqueue_ticket tid i p =
    if i.stale
    then fault
    else waits (write i.key (λ j. record j { tickets = j.tickets ++ tid ∷ [] }) p)

-- `get`; the result is `none` for the empty item.
abbrev pub some_item : Out Item → Out (Option Item)
some_item fault = fault
some_item (waits p) = waits p
some_item (ok i p) = ok (some i) p

unfoldable pub get : ℕ → ℕ → ℕ → Bool → Partition → Out (Option Item)
unfolding find_item get_item enqueue_ticket
get draw tid key locking p = if_intact p (elim (find_item key p.items) [
  | none ↦ ok none p
  | some i ↦ some_item (if is_locked i then enqueue_ticket tid i p else get_item draw locking i p)
])

-- `lock`: -1 if the item is locked, 0 if there is none.
unfoldable pub lock : ℕ → ℕ → Partition → Out ℕ
unfolding find_item write
lock draw key p = if_intact p (elim (find_item key p.items) [
  | none ↦ ok 0 p
  | some i ↦
      if is_locked i
      then ok (2 ^ 32 - 1) p
      else ok draw (write key (λ j. record j { lock_handle = draw }) p)
])

abbrev pub is_empty : List ℕ → Bool
is_empty [] = true
is_empty (t ∷ tickets) = false

-- `MHTItem::unlock` of a locked item by its handle: all threads with tickets are notified.
unfoldable pub open_item : Item → Partition → Out Bool
unfolding write
open_item i p =
    if i.stale
    then fault
    else ok true
        (record (write i.key
          (λ j. record j { lock_handle = 0; tickets = []; stale = not (is_empty i.tickets) }) p) {
            woken = p.woken ++ i.tickets;
          })

unfoldable pub unlock_item : ℕ → Item → Partition → Out Bool
unfolding open_item
unlock_item handle i p =
    if not (is_locked i)
    then ok true p
    else if handle == i.lock_handle
    then open_item i p
    else ok false p

unfoldable pub unlock : ℕ → ℕ → Partition → Out Bool
unfolding find_item unlock_item
unlock key handle p =
    if_intact p
      (elim (find_item key p.items) [ none ↦ ok true p | some i ↦ unlock_item handle i p ])

-- `reserve`: 0 if there is an item already.
unfoldable pub reserve : ℕ → ℕ → Partition → Out ℕ
unfolding find_item
reserve draw key p = if_intact p (elim (find_item key p.items) [
  | some i ↦ ok 0 p
  | none ↦ ok draw (record p {
    items =
        p.items
        ++ record {
          key = key;
          content = none;
          length = 0;
          lock_handle = draw;
          reservation = true;
          tickets = [];
          stale = false;
        }
          ∷ [];
  })
])

-- The item that `release` unlocks is deleted, and stays in the list.
abbrev pub deleted : Out Bool → Out Code
deleted fault = fault
deleted (waits p) = waits p
deleted (ok true p) = ok no_error (record p { broken = true })
deleted (ok false p) = ok no_perm p

-- `release`, for a key that at most one item has.
unfoldable pub release : ℕ → ℕ → Partition → Out Code
unfolding find_item unlock_item
release key reservation p = if_intact p (elim (find_item key p.items) [
  | none ↦ ok no_error p
  | some i ↦ deleted (unlock_item reservation i p)
])
