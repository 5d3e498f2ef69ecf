-- ===== src/Ddl/Members.antt =====
-- The membership table of apps/kernel/ddl/MHTInstance.{h,cc}: which kernel is responsible for the
-- partition of each PE. The array is a function of the PE id.
pub mod Update
use semper_os.Base.{
  ℕ, zero, suc, ◌+◌, ◌%◌, Bool, true, false, not, ◌&&◌, List, [], ◌∷◌, ◌++◌, Option, none, some,
  ltb, ◌==◌, if◌then◌else◌,
}
use semper_os.Ddl.Hash.{hash_to_pe_id, max_pes}

-- `MembershipFlags`: bit 0 is `MIGRATING`.
abbrev pub none_flags : ℕ
none_flags = 0

abbrev pub migrating_flag : ℕ
migrating_flag = 1

abbrev pub unmanaged : ℕ
unmanaged = 2

abbrev pub no_change : ℕ
no_change = 4

abbrev pub unpopulated : ℕ
unpopulated = 0xff

abbrev pub is_migrating : ℕ → Bool
is_migrating flags = flags % 2 == 1

pub record Member : Type 0 where
  pub pe_id : ℕ
  pub krnl_id : ℕ
  pub capacity : ℕ
  pub flags : ℕ

pub record Migrating : Type 0 where
  pub partition_id : ℕ
  pub dest_krnl : ℕ
  pub dest_core : ℕ

-- `kid` is the id of the kernel itself, which the coordinator keeps.
pub record Members : Type 0 where
  pub kid : ℕ
  pub table : ℕ → Member
  pub migrating : List Migrating

-- The table of a new kernel, which manages the PEs below `pe_count`.
unfoldable pub initial : ℕ → ℕ → Members
initial kid pe_count = record {
  kid = kid;
  table = λ i. record {
    pe_id = i;
    krnl_id = kid;
    capacity = 1;
    flags = if ltb i pe_count then none_flags else unpopulated;
  };
  migrating = [];
}

unfoldable pub responsible_krnl : Members → ℕ → ℕ
responsible_krnl m pe = (m.table pe).krnl_id

unfoldable pub responsible_member : Members → ℕ → ℕ
unfolding responsible_krnl
responsible_member m key = responsible_krnl m (hash_to_pe_id key)

unfoldable pub key_locality : Members → ℕ → Bool
unfolding responsible_member
key_locality m key =
    if is_migrating (m.table (hash_to_pe_id key)).flags
    then false
    else responsible_member m key == m.kid

-- The loop of `localPEs` over the first `n` entries.
unfoldable pub local_pes_below : Members → ℕ → ℕ
local_pes_below m zero = 0
local_pes_below m (suc n) =
    let e = m.table n in
    local_pes_below m n
    + (if (e.krnl_id == m.kid) && not (e.flags == unpopulated) && not (e.flags == unmanaged)
        then 1
        else 0)

unfoldable pub local_pes : Members → ℕ
unfolding local_pes_below
local_pes m = local_pes_below m max_pes

unfoldable pub destination : List Migrating → ℕ → Option Migrating
destination [] part_id = none
destination (e ∷ rest) part_id =
    if e.partition_id == part_id then some e else destination rest part_id

unfoldable pub get_migration_destination : Members → ℕ → Option Migrating
unfolding destination
get_migration_destination m part_id = destination m.migrating part_id

-- Which entries the end of a migration removes: those whose destination kernel has the number `idx`.
unfoldable pub drop_finished : ℕ → List Migrating → List Migrating
drop_finished idx [] = []
drop_finished idx (e ∷ rest) =
    let kept = drop_finished idx rest in if e.dest_krnl == idx then kept else e ∷ kept

abbrev pub set_member : (ℕ → Member) → ℕ → Member → ℕ → Member
set_member table i e j = if i == j then e else table j

-- One round of the loop of `updateMembership`, for the PE `idx`.
unfoldable pub update_one : ℕ → ℕ → ℕ → ℕ → Members → Members
unfolding drop_finished
update_one krnl krnl_core flags idx m =
    let e = m.table idx in
    let ended = if is_migrating e.flags then drop_finished idx m.migrating else m.migrating in
    let begun =
      (if is_migrating flags
        then ended ++ record { partition_id = idx; dest_krnl = krnl; dest_core = krnl_core } ∷ []
        else ended) in
    if flags == no_change
    then record m { table = set_member m.table idx (record e { krnl_id = krnl }) }
    else record m {
      table = set_member m.table idx (record e { krnl_id = krnl; flags = flags });
      migrating = begun;
    }

-- What the other kernels are told, before the table changes.
pub record MemberUpdate : Type 0 where
  pub pes : List ℕ
  pub krnl : ℕ
  pub krnl_core : ℕ
  pub flags : ℕ

unfoldable pub update_all : ℕ → ℕ → ℕ → List ℕ → Members → Members
unfolding update_one
update_all krnl krnl_core flags [] m = m
update_all krnl krnl_core flags (pe ∷ pes) m =
    update_all krnl krnl_core flags pes (update_one krnl krnl_core flags pe m)

-- `updateMembership(releasedPEs, …)`: the broadcast, if one is sent, and the new table.
unfoldable pub update_membership :
    List ℕ → ℕ → ℕ → ℕ → Bool → Members → Option MemberUpdate × Members
unfolding update_all
update_membership pes krnl krnl_core flags propagate m = (
  if propagate && not (is_migrating flags)
      then some (record { pes = pes; krnl = krnl; krnl_core = krnl_core; flags = flags })
      else none,
  update_all krnl krnl_core flags pes m,
)
