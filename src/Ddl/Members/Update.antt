-- ===== src/Ddl/Members/Update.antt =====
-- What an update of the membership table changes.
use semper_os.Base.{
  ℕ, ◌≡◌, ◌≢◌, refl, Bool, true, false, ◌&&◌, ◌||◌, not, List, [], ◌∷◌, ◌++◌, none, some, ◌==◌,
  if◌then◌else◌, arith,
}
use semper_os.Ddl.Hash.{hash_to_pe_id}
use semper_os.Ddl.Members.{
  Migrating, Members, no_change, is_migrating, responsible_krnl, key_locality, destination,
  get_migration_destination, drop_finished, update_one, update_all, update_membership,
}

abbrev pub is_listed : ℕ → List ℕ → Bool
is_listed i [] = false
is_listed i (j ∷ rest) = j == i || is_listed i rest

responsible_krnl-update_all :
    (krnl core flags : ℕ) (pes : List ℕ) (m : Members) (pe : ℕ)
    → responsible_krnl (update_all krnl core flags pes m) pe
      ≡ (if is_listed pe pes then krnl else responsible_krnl m pe)
unfolding responsible_krnl update_all
responsible_krnl-update_all krnl core flags [] m pe = refl
responsible_krnl-update_all krnl core flags (i ∷ pes) m pe =
    ground
      (arith, responsible_krnl-update_all krnl core flags pes (update_one krnl core flags i m) pe)

flags-update_all :
    (krnl core flags : ℕ) (pes : List ℕ) (m : Members) (pe : ℕ)
    → ((update_all krnl core flags pes m).table pe).flags
      ≡ (if is_listed pe pes && not (flags == no_change) then flags else (m.table pe).flags)
unfolding update_all
flags-update_all krnl core flags [] m pe = refl
flags-update_all krnl core flags (i ∷ pes) m pe =
    ground (arith, flags-update_all krnl core flags pes (update_one krnl core flags i m) pe)

kid-update_all :
    (krnl core flags : ℕ) (pes : List ℕ) (m : Members)
    → (update_all krnl core flags pes m).kid ≡ m.kid
unfolding update_all
kid-update_all krnl core flags [] m = refl
kid-update_all krnl core flags (i ∷ pes) m =
    ground (arith, kid-update_all krnl core flags pes (update_one krnl core flags i m))

-- The flags that a PE has after an update.
abbrev pub kept_flags : (flags old : ℕ) → ℕ
kept_flags flags old = if flags == no_change then old else flags

-- An update makes `krnl` responsible for exactly the PEs that it lists, and it is broadcast exactly
-- if it is to be propagated and its flags are not those of a migration that goes on. A listed PE has
-- the new flags, or keeps its own where they are `no_change`, and no other flags change; a key of a
-- listed PE is local afterwards exactly if its flags do not say that it is migrating, and `krnl` is
-- the kernel itself.
pub update_membership_lem :
    (pes : List ℕ) (krnl core flags : ℕ) (propagate : Bool) (m : Members)
    → ((pe : ℕ)
        → responsible_krnl (update_membership pes krnl core flags propagate m).1 pe
          ≡ (if is_listed pe pes then krnl else responsible_krnl m pe))
      × ((update_membership pes krnl core flags propagate m).0 ≡ (
          if propagate && not (is_migrating flags)
          then some (record { pes = pes; krnl = krnl; krnl_core = core; flags = flags })
          else none))
      × ((pe : ℕ)
          → ((update_membership pes krnl core flags propagate m).1.table pe).flags ≡ (
              if is_listed pe pes then kept_flags flags (m.table pe).flags else (m.table pe).flags))
      × ((key : ℕ)
          → is_listed (hash_to_pe_id key) pes ≡ true
          → key_locality (update_membership pes krnl core flags propagate m).1 key
            ≡ not (is_migrating (kept_flags flags (m.table (hash_to_pe_id key)).flags))
              && (krnl == m.kid))
unfolding update_membership key_locality
update_membership_lem pes krnl core flags propagate m = (
  λ pe. responsible_krnl-update_all krnl core flags pes m pe,
  refl,
  λ pe. ground (arith, flags-update_all krnl core flags pes m pe),
  λ key listed. ground (
    arith,
    responsible_krnl-update_all krnl core flags pes m (hash_to_pe_id key),
    flags-update_all krnl core flags pes m (hash_to_pe_id key),
    kid-update_all krnl core flags pes m,
  ),
)

destination-append :
    (es : List Migrating) (pe krnl core : ℕ)
    → destination es pe ≡ none
    → destination (es ++ record { partition_id = pe; dest_krnl = krnl; dest_core = core } ∷ []) pe
      ≡ some (record { partition_id = pe; dest_krnl = krnl; dest_core = core })
unfolding destination
destination-append [] pe krnl core h = ground arith
destination-append (e ∷ es) pe krnl core h = ground (arith, destination-append es pe krnl core)

destination-drop_finished :
    (es : List Migrating) (pe : ℕ) (e : Migrating)
    → destination es pe ≡ some e
    → e.dest_krnl ≢ pe
    → destination (drop_finished pe es) pe ≡ some e
unfolding destination drop_finished
destination-drop_finished [] pe e h g = cc
destination-drop_finished (x ∷ es) pe e h g = ground (arith, destination-drop_finished es pe e)

-- While the partition of `pe` migrates, requests for it are forwarded to its new kernel. But the end
-- of the migration keeps the entry, unless the new kernel's id is by chance the number of the PE.
pub migration_entry_stays :
    (m : Members) (pe krnl core : ℕ)
    → get_migration_destination m pe ≡ none
    → is_migrating (m.table pe).flags ≡ false
    → krnl ≢ pe
    → let begun = update_one krnl core 1 pe m in
      let ended = update_one krnl core 0 pe begun in
      (get_migration_destination begun pe
        ≡ some (record { partition_id = pe; dest_krnl = krnl; dest_core = core }))
      × (is_migrating (ended.table pe).flags ≡ false)
      × (get_migration_destination ended pe
          ≡ some (record { partition_id = pe; dest_krnl = krnl; dest_core = core }))
unfolding get_migration_destination update_one
migration_entry_stays m pe krnl core h i g = ground (
  arith,
  destination-append m.migrating pe krnl core h,
  destination-drop_finished
      (m.migrating ++ record { partition_id = pe; dest_krnl = krnl; dest_core = core } ∷ []) pe
      (record { partition_id = pe; dest_krnl = krnl; dest_core = core }),
)
