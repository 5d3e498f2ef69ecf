-- ===== src/Tests/Caps.antt =====
-- Capabilities, their tables and revocation at concrete inputs.
use semper_os.Base.{
  ℕ, ◌+◌, ◌^◌, ◌≤◌, ◌<◌, ◌≡◌, ◌⊎◌, ◌↔◌, refl, true, false, [], ◌∷◌, none, some, ◌==◌, if◌then◌else◌,
  arith,
}
use semper_os.Col.Treap.{empty, insert}
use semper_os.Col.Treap
use semper_os.Ddl.Hash.{
  mem_cap, shl64, hash_to_type, without_cap_type, structured_hash, as_ocap, hash_to_pe_id,
}
use semper_os.Ddl.Members.{Members, initial, responsible_krnl}
use semper_os.Cap.Capability.{Capability, cap_type_to_item_type, obj, Objects, mem}
use semper_os.Cap.Children.{add_child, remove_child, remove_child_all_types}
use semper_os.Cap.Children.Order.{goes_first, second, add_child_place, remove_child-add_child}
use semper_os.Cap.Table.{
  CapTable, cap_table, get, set, unset, used, unused, range_used, range_unused, cap_key,
}
use semper_os.Cap.Table.Lookup.{IsValid, range_used_iff, get-set, get-unset}
use semper_os.Cap.Kernel.{Kernel, generic_id, find_revocation, table_of}
use semper_os.Cap.Item.{done}
use semper_os.Cap.Revoke.Calls.{revoke_range}
use semper_os.Cap.Revoke.Calls.Join.{second_revoke_returns}
use semper_os.Cap.Revocations.Notify.{
  root_entry, child_entry, finish_times, replies, answers_of_child,
}

abbrev members : Members
members = initial 3 8

add_child_place_example :
    add_child members (2 ^ 54) (5 ∷ [])
    ≡ (if goes_first members (2 ^ 54) (5 ∷ []) then 2 ^ 54 ∷ 5 ∷ [] else second (2 ^ 54) (5 ∷ []))
add_child_place_example = add_child_place members (2 ^ 54) (5 ∷ [])

remove_child-add_child_example :
    (remove_child 9 (add_child members 9 (5 ∷ [])) ≡ 5 ∷ [])
    × (remove_child_all_types 9 (add_child members 9 (5 ∷ [])) ≡ 5 ∷ [])
unfolding without_cap_type
remove_child-add_child_example = remove_child-add_child members 9 (5 ∷ []) refl

abbrev mem_capability : ℕ → Capability
mem_capability sel = record {
  type = 12;
  id = 0;
  table = 5;
  table_type = obj;
  sel = sel;
  parent = 0;
  children = [];
  body = mem none 1 0;
}

-- A table with a capability at selector 4.
abbrev table : CapTable
table = record (cap_table 5 obj) { caps = insert 4 (mem_capability 4) empty }

table-IsValid : IsValid table
unfolding insert empty
table-IsValid = omega arith

range_used_iff_example :
    ((range_used 4 2 table ≡ true) ↔ (
      ((◌≡◌ {A = ℕ} 2 0) ⊎ (4 + 2 < 2 ^ 32)) × ((i : ℕ) → 4 ≤ i → i < 4 + 2 → used i table ≡ true)))
    × ((range_unused 4 2 table ≡ true) ↔ (
        ((◌≡◌ {A = ℕ} 2 0) ⊎ (4 + 2 < 2 ^ 32))
        × ((i : ℕ) → 4 ≤ i → i < 4 + 2 → unused i table ≡ true)))
range_used_iff_example = range_used_iff 4 2 table (omega arith) (omega arith)

get-set_example :
    (t' : CapTable) × (set 6 (mem_capability 6) table
      ≡ some (record (mem_capability 6) { id = cap_key table mem_cap 6 }, t'))
    × IsValid t'
    × ((j : ℕ)
        → get j t' ≡ (
            if 6 == j
            then some (record (mem_capability 6) { id = cap_key table mem_cap 6 })
            else get j table))
unfolding get cap_table insert empty Treap.find cap_type_to_item_type
get-set_example =
    get-set 6 mem_cap (mem_capability 6) table (omega arith) table-IsValid refl refl refl refl refl

get-unset_example :
    IsValid (unset 4 table) × (get 6 (unset 4 table) ≡ (if 4 == 6 then none else get 6 table))
get-unset_example = get-unset 4 6 table table-IsValid

abbrev objects : Objects
objects = record {
  msgs = λ o. record {
    is_mem = true;
    label = 0x1003;
    core = 7;
    vpe = 0;
    epid = 0;
    credits = 0x100;
    derived = false;
    id = structured_hash 5 5 64 0;
    refs = 1;
  };
  sessions = λ o. record { servowned = false; ident = 0; srv = 0; refs = 1 };
  services = λ s. record { closing = false; pending = 0; running = true };
  vpe_refs = λ v. 1;
  effects = [];
}

abbrev kernel : Kernel
kernel = record {
  members = members;
  objcaps = λ vpe. record table { id = vpe };
  mapcaps = λ vpe. record (cap_table vpe obj) { type = obj };
  objects = objects;
  revs = [];
  sent = [];
  woken = [];
  credited = [];
  thread = 2;
}

abbrev child_id : ℕ
child_id = as_ocap (structured_hash 6 6 mem_cap 4)

abbrev root_id : ℕ
root_id = as_ocap (structured_hash 5 5 mem_cap 4)

answers_of_child_example :
    finish_times 2 9 child_id
      (record kernel { revs = root_entry root_id 0 2 2 ∷ child_entry child_id root_id 2 ∷ [] })
    ≡ some (record kernel {
      revs = root_entry root_id 0 2 1 ∷ [];
      woken = if 2 == 1 then 2 ∷ [] else [];
      sent = replies 2 9 [];
    })
unfolding generic_id responsible_krnl initial as_ocap structured_hash hash_to_pe_id shl64
    hash_to_type
answers_of_child_example =
    answers_of_child kernel 9 root_id child_id 0 2 2 (omega arith) (omega arith) (omega arith) refl
      refl

-- The capability of VPE 5 at selector 6 is being revoked.
abbrev one_revocation : Kernel
one_revocation = record kernel {
  revs = root_entry (as_ocap (structured_hash 5 5 mem_cap 6)) 0 5 1 ∷ [];
}

second_revoke_returns_example :
    (find_revocation (as_ocap (structured_hash 5 5 mem_cap 6)) one_revocation.revs
      ≡ some (root_entry (as_ocap (structured_hash 5 5 mem_cap 6)) 0 5 1))
    × (revoke_range 1 obj 5 true 6 1 one_revocation ≡ done 0 one_revocation)
unfolding table_of insert get empty cap_table Treap.find
second_revoke_returns_example =
    second_revoke_returns 1 5 6 mem_cap 0 5 1 [] one_revocation (omega arith) (omega arith)
      (omega arith) refl refl refl refl refl
