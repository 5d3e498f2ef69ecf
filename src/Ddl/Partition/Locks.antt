-- ===== src/Ddl/Partition/Locks.antt =====
-- A reservation of a key, from `reserve` to `put`.
use semper_os.Base.{
  ℕ, ◌^◌, ◌-◌, ◌≡◌, ◌≢◌, refl, ap, ◌∙◌, Bool, true, false, List, [], ◌∷◌, ◌++◌, none, some, ◌==◌,
  not, ◌||◌, if_true, if_false, arith,
}
use semper_os.Ddl.Partition.{
  is_locked, Item, Partition, waits, ok, no_error, no_perm, find_item, write_item, write, replace,
  free_twice, put, get_item, enqueue_ticket, get, lock, reserve, some_item,
}

-- The item of a reservation.
abbrev pub placeholder : ℕ → ℕ → Item
placeholder key draw = record {
  key = key;
  content = none;
  length = 0;
  lock_handle = draw;
  reservation = true;
  tickets = [];
  stale = false;
}

find_item-append :
    (key : ℕ) (items : List Item) (i : Item)
    → find_item key items ≡ none
    → i.key ≡ key
    → find_item key (items ++ i ∷ []) ≡ some i
unfolding find_item
find_item-append key [] i h e = ground (arith, e)
find_item-append key (j ∷ items) i h e = ground (arith, find_item-append key items i)

find_item-other :
    (key : ℕ) (items : List Item) (i : Item)
    → i.key ≢ key
    → find_item key (items ++ i ∷ []) ≡ find_item key items
unfolding find_item
find_item-other key [] i h = ground arith
find_item-other key (j ∷ items) i h = ground (arith, find_item-other key items i)

write_item-append :
    (key : ℕ) (f : Item → Item) (items : List Item) (i : Item)
    → find_item key items ≡ none
    → i.key ≡ key
    → write_item key f (items ++ i ∷ []) ≡ items ++ f i ∷ []
unfolding find_item write_item
write_item-append key f [] i h e = ground (arith, e)
write_item-append key f (j ∷ items) i h e = ground (arith, write_item-append key f items i)

-- The item once its reservation is used.
abbrev pub filled : ℕ → Item → Item
filled key new = record (placeholder key 0) { content = new.content }

-- A partition with one item more at the end.
abbrev pub with_item : Partition → Item → Partition
with_item p i = record p { items = p.items ++ i ∷ [] }

module _ (p : Partition) (key draw : ℕ) (intact : p.broken ≡ false)
    (free : find_item key p.items ≡ none) (drawn : draw ≢ 0) where
  found : (i : Item) → i.key ≡ key → find_item key (with_item p i).items ≡ some i
  found i e = find_item-append key p.items i free e

  written :
      (i : Item) (f : Item → Item) → i.key ≡ key → write key f (with_item p i) ≡ with_item p (f i)
  unfolding write
  written i f e =
      ap (λ items. record p { items = items }) (write_item-append key f p.items i free e)

  found_at :
      (key' : ℕ) (i : Item)
      → key' ≡ key
      → i.key ≡ key
      → find_item key' (with_item p i).items ≡ some i
  found_at key' i e f = ap (λ k. find_item k (with_item p i).items) e ∙ found i f

  locked : is_locked (placeholder key draw) ≡ true
  locked = ground (arith, drawn)

  denied :
      (handle : ℕ)
      → handle ≢ draw
      → not (is_locked (placeholder key draw)) || (handle == draw) ≡ false
  denied handle n = ground (arith, drawn)

  allowed : not (is_locked (placeholder key draw)) || (draw == draw) ≡ true
  allowed = ground arith

  nonzero : (draw == 0) ≡ false
  nonzero = ground (arith, drawn)

  written_at :
      (key' : ℕ) (i : Item) (f : Item → Item)
      → key' ≡ key
      → i.key ≡ key
      → write key' f (with_item p i) ≡ with_item p (f i)
  written_at key' i f e g = ap (λ k. write k f (with_item p i)) e ∙ written i f g

  reserve-free : reserve draw key p ≡ ok draw (with_item p (placeholder key draw))
  unfolding reserve
  reserve-free = rw (free, intact, reserve) refl

  put-denied :
      (new : Item) (handle : ℕ)
      → new.key ≡ key
      → handle ≢ draw
      → put new handle (with_item p (placeholder key draw))
        ≡ ok no_perm (with_item p (placeholder key draw))
  unfolding put
  put-denied new handle e n =
      if_false _ _ intact
      ∙ rw (found_at new.key (placeholder key draw) e refl, put) (if_false _ _ (denied handle n))

  put-reserved :
      (new : Item)
      → new.key ≡ key
      → put new draw (with_item p (placeholder key draw))
        ≡ ok no_error (with_item p (filled key new))
  unfolding put replace free_twice
  put-reserved new e =
      if_false _ _ intact
      ∙ rw (found_at new.key (placeholder key draw) e refl, put)
          (if_true _ _ allowed
            ∙ ap (ok no_error) (
                written_at new.key (placeholder key draw) (replace new draw) e refl
                ∙ ap (λ h. with_item p (record (filled key new) { lock_handle = h }))
                    (if_false _ _ nonzero)))

  lock-denied :
      (draw' : ℕ)
      → lock draw' key (with_item p (placeholder key draw))
        ≡ ok (2 ^ 32 - 1) (with_item p (placeholder key draw))
  unfolding lock
  lock-denied draw' =
      if_false _ _ intact ∙ rw (found (placeholder key draw) refl, lock) (if_true _ _ locked)

  get-waits :
      (draw' tid : ℕ) (locking : Bool)
      → get draw' tid key locking (with_item p (placeholder key draw))
        ≡ waits (with_item p (record (placeholder key draw) { tickets = tid ∷ [] }))
  unfolding get enqueue_ticket
  get-waits draw' tid locking =
      if_false _ _ intact
      ∙ rw (found (placeholder key draw) refl, get)
          (ap some_item (
            if_true _ _ locked
            ∙ ap waits (
                written (placeholder key draw) (λ j. record j { tickets = j.tickets ++ tid ∷ [] })
                  refl)))

  get-filled :
      (new : Item) (draw' tid : ℕ)
      → get draw' tid key false (with_item p (filled key new))
        ≡ ok (some (filled key new)) (with_item p (filled key new))
  unfolding get get_item
  get-filled new draw' tid = if_false _ _ intact ∙ rw (found (filled key new) refl, get) refl

-- A key that is not there is reserved. Until the reservation is used, another handle may not put an
-- item, a reader waits with a ticket, and the item cannot be locked. With the handle an item is put
-- at once, and from then on a reader finds its data.
pub reserve_protects :
    (p : Partition) (key draw : ℕ)
    → p.broken ≡ false
    → find_item key p.items ≡ none
    → draw ≢ 0
    → (r : Partition) × (reserve draw key p ≡ ok draw r)
      × ((new : Item) (handle : ℕ)
          → new.key ≡ key
          → handle ≢ draw
          → put new handle r ≡ ok no_perm r)
      × ((draw' tid : ℕ) (locking : Bool)
          → get draw' tid key locking r
            ≡ waits (with_item p (record (placeholder key draw) { tickets = tid ∷ [] })))
      × ((draw' : ℕ) → lock draw' key r ≡ ok (2 ^ 32 - 1) r)
      × ((new : Item) → new.key ≡ key → put new draw r ≡ ok no_error (with_item p (filled key new)))
      × ((new : Item) (draw' tid : ℕ)
          → get draw' tid key false (with_item p (filled key new))
            ≡ ok (some (filled key new)) (with_item p (filled key new)))
reserve_protects p key draw intact free drawn = (
  with_item p (placeholder key draw),
  reserve-free p key draw intact free drawn,
  put-denied p key draw intact free drawn,
  get-waits p key draw intact free drawn,
  lock-denied p key draw intact free drawn,
  put-reserved p key draw intact free drawn,
  get-filled p key draw intact free drawn,
)
