-- ===== src/Tests/Ddl.antt =====
-- Keys and the membership table at concrete inputs.
use semper_os.Base.{
  ℕ, ◌^◌, ◌-◌, ◌≡◌, ◌≢◌, Bool, Option, refl, true, false, not, ◌&&◌, [], ◌∷◌, none, some, ◌==◌,
  if◌then◌else◌, arith,
}
use semper_os.Ddl.Partition.{
  Item, Partition, waits, ok, no_error, no_perm, find_item, put, get, lock, reserve,
}
use semper_os.Ddl.Partition.Locks.{placeholder, filled, with_item, reserve_protects}
use semper_os.Ddl.Partition.Replace.{put_replaces}
use semper_os.Ddl.Hash.{
  structured_hash, hash_to_pe_id, hash_to_vpe_id, hash_to_type, hash_to_obj_id, mem_cap,
}
use semper_os.Ddl.Hash.Fields.{structured_hash_fields}
use semper_os.Ddl.Members.{
  Members, initial, is_migrating, responsible_krnl, key_locality, get_migration_destination,
  update_one, update_membership,
}
use semper_os.Ddl.Members.Update.{
  is_listed, kept_flags, update_membership_lem, migration_entry_stays,
}

structured_hash_fields_example :
    (hash_to_pe_id (structured_hash 5 5 mem_cap 77) ≡ 5)
    × (hash_to_vpe_id (structured_hash 5 5 mem_cap 77) ≡ 5)
    × (hash_to_type (structured_hash 5 5 mem_cap 77) ≡ mem_cap)
    × (hash_to_obj_id (structured_hash 5 5 mem_cap 77) ≡ 77)
structured_hash_fields_example =
    structured_hash_fields 5 5 mem_cap 77 (omega arith) (omega arith) (omega arith) (omega arith)

abbrev eight_pes : Members
eight_pes = initial 3 8

update_membership_lem_example :
    ((pe : ℕ)
      → responsible_krnl (update_membership (4 ∷ 5 ∷ []) 9 2 0 true eight_pes).1 pe
        ≡ (if is_listed pe (4 ∷ 5 ∷ []) then 9 else responsible_krnl eight_pes pe))
    × ((update_membership (4 ∷ 5 ∷ []) 9 2 0 true eight_pes).0 ≡ (
        if true && not (is_migrating 0)
        then some (record { pes = 4 ∷ 5 ∷ []; krnl = 9; krnl_core = 2; flags = 0 })
        else none))
    × ((pe : ℕ)
        → ((update_membership (4 ∷ 5 ∷ []) 9 2 0 true eight_pes).1.table pe).flags ≡ (
            if is_listed pe (4 ∷ 5 ∷ [])
            then kept_flags 0 (eight_pes.table pe).flags
            else (eight_pes.table pe).flags))
    × ((key : ℕ)
        → is_listed (hash_to_pe_id key) (4 ∷ 5 ∷ []) ≡ true
        → key_locality (update_membership (4 ∷ 5 ∷ []) 9 2 0 true eight_pes).1 key
          ≡ not (is_migrating (kept_flags 0 (eight_pes.table (hash_to_pe_id key)).flags))
            && (9 == eight_pes.kid))
update_membership_lem_example = update_membership_lem (4 ∷ 5 ∷ []) 9 2 0 true eight_pes

migration_entry_stays_example :
    let begun = update_one 9 2 1 4 eight_pes in
    let ended = update_one 9 2 0 4 begun in
    (get_migration_destination begun 4
      ≡ some (record { partition_id = 4; dest_krnl = 9; dest_core = 2 }))
    × (is_migrating (ended.table 4).flags ≡ false)
    × (get_migration_destination ended 4
        ≡ some (record { partition_id = 4; dest_krnl = 9; dest_core = 2 }))
unfolding get_migration_destination initial
migration_entry_stays_example = migration_entry_stays eight_pes 4 9 2 refl refl (omega arith)

abbrev stored_item : Item
stored_item = record {
  key = 7;
  content = some 0x5000;
  length = 16;
  lock_handle = 0;
  reservation = false;
  tickets = [];
  stale = false;
}

abbrev new_item : ℕ → Item
new_item key = record stored_item { key = key; content = some 0x6000; length = 32 }

-- A partition with an item of key 7.
abbrev partition : Partition
partition = record { items = stored_item ∷ []; freed = []; woken = []; broken = false }

reserve_protects_example :
    (r : Partition) × (reserve 77 8 partition ≡ ok 77 r)
    × ((new : Item) (handle : ℕ) → new.key ≡ 8 → handle ≢ 77 → put new handle r ≡ ok no_perm r)
    × ((draw' tid : ℕ) (locking : Bool)
        → get draw' tid 8 locking r
          ≡ waits (with_item partition (record (placeholder 8 77) { tickets = tid ∷ [] })))
    × ((draw' : ℕ) → lock draw' 8 r ≡ ok (2 ^ 32 - 1) r)
    × ((new : Item) → new.key ≡ 8 → put new 77 r ≡ ok no_error (with_item partition (filled 8 new)))
    × ((new : Item) (draw' tid : ℕ)
        → get draw' tid 8 false (with_item partition (filled 8 new))
          ≡ ok (some (filled 8 new)) (with_item partition (filled 8 new)))
unfolding find_item
reserve_protects_example = reserve_protects partition 8 77 refl refl (omega arith)

put_replaces_example :
    (p' : Partition) × (put (new_item 7) 0 partition ≡ ok no_error p')
    × (find_item 7 p'.items ≡ some (record stored_item { content = some 0x6000 }))
    × ((key : ℕ) → 7 ≢ key → find_item key p'.items ≡ find_item key partition.items)
    × ((d : ℕ) → ◌≡◌ {A = Option ℕ} (some 0x5000) (some d) → p'.freed ≡ d ∷ d ∷ [])
unfolding find_item
put_replaces_example = put_replaces partition (new_item 7) stored_item refl refl refl
