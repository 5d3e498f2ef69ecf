-- ===== src/Ddl/Partition/Replace.antt =====
-- An item that `put` replaces.
use semper_os.Base.{
  ℕ, ◌≡◌, ◌≢◌, refl, ap, ◌∙◌, false, List, [], ◌∷◌, some, ◌==◌, not, ◌||◌, if_true, if_false, arith,
}
use semper_os.Ddl.Partition.{
  is_locked, Item, Partition, ok, no_error, find_item, write_item, write, replace, free_twice, put,
}

find_item-write_item :
    (key : ℕ) (f : Item → Item) (items : List Item) (i : Item)
    → ((j : Item) → (f j).key ≡ j.key)
    → find_item key items ≡ some i
    → find_item key (write_item key f items) ≡ some (f i)
unfolding find_item write_item
find_item-write_item key f [] i k h = ground (arith, h)
find_item-write_item key f (j ∷ items) i k h =
    ground (arith, h, k j, find_item-write_item key f items i k)

find_item-write_item_other :
    (key key' : ℕ) (f : Item → Item) (items : List Item)
    → ((j : Item) → (f j).key ≡ j.key)
    → key ≢ key'
    → find_item key' (write_item key f items) ≡ find_item key' items
unfolding find_item write_item
find_item-write_item_other key key' f [] k h = refl
find_item-write_item_other key key' f (j ∷ items) k h =
    ground (arith, k j, find_item-write_item_other key key' f items k h)

-- An item that is not locked is replaced: the key then has the new data, but the length of the old
-- item, and no other key changes. The old data, if there is any, is freed twice.
pub put_replaces :
    (p : Partition) (new i : Item)
    → p.broken ≡ false
    → find_item new.key p.items ≡ some i
    → i.lock_handle ≡ 0
    → (p' : Partition) × (put new 0 p ≡ ok no_error p')
      × (find_item new.key p'.items ≡ some (record i { content = new.content }))
      × ((key : ℕ) → new.key ≢ key → find_item key p'.items ≡ find_item key p.items)
      × ((d : ℕ) → i.content ≡ some d → p'.freed ≡ d ∷ d ∷ p.freed)
unfolding put write replace free_twice
put_replaces p new i intact there unlocked = (
  record (write new.key (replace new 0) p) { freed = free_twice i.content p.freed },
  if_false _ _ intact
      ∙ rw (there, put)
          (if_true {b = not (is_locked i) || (0 == i.lock_handle)} _ _ (ground (arith, unlocked))),
  find_item-write_item new.key (replace new 0) p.items i (λ j. refl) there,
  λ key h. find_item-write_item_other new.key key (replace new 0) p.items (λ j. refl) h,
  λ d h. ap (λ c. free_twice c p.freed) h,
)
