-- ===== src/Tests/Revocation.antt =====
-- Whole revocations at concrete inputs: a tree with one kernel, and children with another.
use semper_os.Base.{
  ℕ, suc, ◌+◌, ◌≡◌, refl, true, false, ◌||◌, List, [], ◌∷◌, none, some, length, ◌==◌, if◌then◌else◌,
  arith,
}
use semper_os.Col.Treap
use semper_os.Col.Treap.{empty, insert}
use semper_os.Ddl.Hash.{
  mem_cap, structured_hash, as_ocap, without_cap_type, shl64, hash_to_pe_id, hash_to_type,
  hash_to_obj_id,
}
use semper_os.Ddl.Members.{Members, key_locality, responsible_krnl, responsible_member}
use semper_os.Cap.Capability.{
  Capability, obj, map, Objects, mem, virt_pe, vpe_type, emit, revoke_msg, unref_msg,
  invalidate_local, revoke_action, revoke_by, deleted_vpe, cap_type_to_item_type,
}
use semper_os.Cap.Table.{modify, modify_in, CapTable, cap_table, get, unset}
use semper_os.Cap.Table.Lookup.{IsValid, IsValid-if}
use semper_os.Cap.Kernel.{Kernel, generic_id, find_entry, put_table, set_table, table_of}
use semper_os.Cap.Obtain.{inherit_and_set}
use semper_os.Cap.Obtain.Linked.{at, adopted, with_child, AllTablesValid, inherit_and_set_lem}
use semper_os.Cap.Item.{waits, done, and_then, as_generic}
use semper_os.Cap.Revoke.{
  ids, revoke_rec, revoke_self, own_revoke, unset_cap, tell_parent, resume_root, remove_vpe,
  revoke_each, revoke_children, finish_cap, finish_root, clear_children,
}
use semper_os.Cap.Revoke.Frees.{AllValid, Frees, look, slot}
use semper_os.Cap.Revoke.Forest.{Forest, grow, within, Apart, IsStored}
use semper_os.Cap.Revoke.Local.{revoke_rec-local}
use semper_os.Cap.Revoke.Remote.{AllRemote, calls, with_entry, revoke_rec-remote}
use semper_os.Cap.Revoke.Answers.{root_ids, Answer, finish_all, replies_to, after_credits}
use semper_os.Cap.Revoke.Answers.All.{revoke_rec-answered}

-- Kernel 3, to which all PEs belong but PE 6, which is kernel 9's.
abbrev pub members : Members
members = record {
  kid = 3;
  table = λ i. record { pe_id = i; krnl_id = if i == 6 then 9 else 3; capacity = 1; flags = 0 };
  migrating = [];
}

abbrev pub key : ℕ → ℕ → ℕ
key vpe sel = structured_hash vpe vpe mem_cap sel

abbrev pub capability : ℕ → ℕ → List ℕ → Capability
capability vpe sel children = record {
  type = 12;
  id = key vpe sel;
  table = vpe;
  table_type = obj;
  sel = sel;
  parent = 0;
  children = children;
  body = mem none 1 0;
}

-- The root at selector 4 of VPE 5, its child at the same selector of VPE 7.
abbrev pub root : Capability
root = capability 5 4 (key 7 4 ∷ [])

abbrev pub child : Capability
child = capability 7 4 []

abbrev pub table_with : ℕ → Capability → CapTable
table_with vpe c = record (cap_table vpe obj) { caps = insert 4 c empty }

abbrev pub objects : Objects
objects = record {
  msgs = λ o. record {
    is_mem = true;
    label = 0x1003;
    core = 7;
    vpe = 0;
    epid = 0;
    credits = 0x100;
    derived = false;
    id = key 5 0;
    refs = 2;
  };
  sessions = λ o. record { servowned = false; ident = 0; srv = 0; refs = 1 };
  services = λ s. record { closing = false; pending = 0; running = true };
  vpe_refs = λ v. 1;
  effects = [];
}

abbrev pub kernel : Capability → Kernel
kernel c = record {
  members = members;
  objcaps = λ vpe.
      if vpe == 5
      then table_with 5 c
      else if vpe == 7
      then table_with 7 child
      else cap_table vpe obj;
  mapcaps = λ vpe. cap_table vpe map;
  objects = objects;
  revs = [];
  sent = [];
  woken = [];
  credited = [];
  thread = 2;
}

abbrev below : Forest
below = grow child Forest.no_tree Forest.no_tree

pub table_with-IsValid : (vpe : ℕ) (c : Capability) → IsValid (table_with vpe c)
unfolding insert empty
table_with-IsValid vpe c = omega arith

pub cap_table-IsValid : (vpe : ℕ) → IsValid (cap_table vpe obj)
unfolding empty cap_table
cap_table-IsValid vpe = tt

kernel-AllValid : AllValid (kernel root)
kernel-AllValid vpe =
    IsValid-if (vpe == 5) _ _ (table_with-IsValid 5 root)
      (IsValid-if (vpe == 7) _ _ (table_with-IsValid 7 child) (cap_table-IsValid vpe))

slots-Apart : Apart (slot root) (within below)
slots-Apart vpe sel h = ground arith

below-IsStored : IsStored (as_ocap root.id) (kernel root).members (look (kernel root)) below
unfolding as_ocap structured_hash shl64 hash_to_pe_id hash_to_type hash_to_obj_id responsible_member
    responsible_krnl get insert empty cap_table Treap.find
below-IsStored = (
  (refl, refl, refl, refl, refl, refl),
  omega arith,
  refl,
  refl,
  λ vpe sel h. refl,
  λ vpe sel h. refl,
  tt,
  tt,
)

revoke_rec-local_example :
    (k' : Kernel) × (revoke_rec 2 (as_ocap root.id) obj root (kernel root)
      ≡ tell_parent (ids obj (as_ocap root.id) root) k')
    × Frees (λ vpe sel. slot root vpe sel || within below vpe sel) (kernel root) k'
revoke_rec-local_example =
    revoke_rec-local 1 root below (kernel root) refl refl refl (omega arith) kernel-AllValid
      slots-Apart below-IsStored

-- A root with two children at kernel 9.
abbrev far : Capability
far = capability 5 4 (key 6 4 ∷ key 6 8 ∷ [])

abbrev emptied : Kernel
emptied = record (kernel far) {
  objcaps = set_table (kernel far).objcaps 5 (unset 4 ((kernel far).objcaps 5));
  objects = (revoke_by far.body members 5 4 [] objects).1;
}

own_revoke-far : own_revoke 0 far (kernel far) ≡ done 0 emptied
unfolding own_revoke revoke_self unset_cap deleted_vpe put_table table_of revoke_by
own_revoke-far = refl

far-AllRemote : AllRemote members far.children
unfolding structured_hash shl64 hash_to_pe_id responsible_member responsible_krnl
far-AllRemote = (omega arith, (omega arith, tt))

revoke_rec-remote_example : revoke_rec 1 0 obj far (kernel far) ≡ (
    let i = ids obj 0 far in
    let after = with_entry i 2 (calls members i far.children []) emptied in
    if i.id == 0 then waits after else done 2 after)
unfolding find_entry
revoke_rec-remote_example =
    revoke_rec-remote 0 0 obj far (kernel far) emptied own_revoke-far (omega arith) (omega arith)
      far-AllRemote refl

generic_id-far : generic_id (root_ids obj far).id ≡ (root_ids obj far).id
unfolding generic_id as_generic as_ocap structured_hash shl64 hash_to_type
generic_id-far = refl

revoke_rec-answered_example :
    (waiting : Kernel) × (revoke_rec 1 (root_ids obj far).id obj far (kernel far) ≡ waits waiting)
    × ((early : List Answer) (j : ℕ)
        → length far.children ≡ length early + suc j
        → finish_all early (root_ids obj far).id waiting
          ≡ some (
              with_entry
                (root_ids obj far)
                (suc j)
                (replies_to early (calls members (root_ids obj far) far.children []))
                (after_credits early emptied)))
    × ((answers : List Answer)
        → length answers ≡ length far.children
        → (woken : Kernel) × (finish_all answers (root_ids obj far).id waiting ≡ some woken)
          × (resume_root (root_ids obj far) woken
              ≡ tell_parent (root_ids obj far) (record (after_credits answers emptied) {
                sent = replies_to answers (calls members (root_ids obj far) far.children []);
                woken = 2 ∷ [];
              })))
unfolding find_entry
revoke_rec-answered_example =
    revoke_rec-answered 0 obj far (kernel far) emptied own_revoke-far (omega arith) (omega arith)
      far-AllRemote refl generic_id-far

kernel-AllTablesValid : AllTablesValid (kernel root)
unfolding table_of empty cap_table
kernel-AllTablesValid obj vpe = kernel-AllValid vpe
kernel-AllTablesValid map vpe = tt

-- A third capability, below the root and beside the child.
inherit_and_set_lem_example :
    (k' : Kernel) × (inherit_and_set obj 7 root (capability 7 9 []) 9 (kernel root)
      ≡ some (adopted obj 7 9 mem_cap root (capability 7 9 []) (kernel root), k'))
    × (at k' obj 7 9 ≡ some (adopted obj 7 9 mem_cap root (capability 7 9 []) (kernel root)))
    × (at k' obj 5 4
        ≡ some (
            with_child members
              (adopted obj 7 9 mem_cap root (capability 7 9 []) (kernel root)).id
              root))
unfolding table_of get insert empty cap_table Treap.find key_locality structured_hash shl64
    hash_to_pe_id responsible_member responsible_krnl cap_type_to_item_type
inherit_and_set_lem_example =
    inherit_and_set_lem obj 7 9 mem_cap root (capability 7 9 []) (kernel root) (omega arith)
      kernel-AllTablesValid refl refl refl refl refl refl refl

-- The capability of VPE 5 for VPE 8, which holds one capability on memory.
abbrev for_vpe : Capability
for_vpe = record (capability 5 2 []) { type = vpe_type; body = virt_pe 8 none }

abbrev of_vpe : Capability
of_vpe = record (capability 8 4 []) { parent = 0 }

-- There are as many references to VPE 8.
abbrev with_vpe : (refs : ℕ) → Kernel
with_vpe refs = record (kernel root) {
  objcaps = λ vpe.
      if vpe == 5
      then record (cap_table 5 obj) { caps = insert 2 for_vpe empty }
      else if vpe == 8
      then table_with 8 of_vpe
      else cap_table vpe obj;
  objects = record objects { vpe_refs = λ v. refs };
}

-- With the last reference but the VPE's own, its capability goes too, else it stays.
last_reference :
    (k : Kernel) × (own_revoke 2 for_vpe (with_vpe 2) ≡ done 0 k)
    × (look k 5 2 ≡ none)
    × (look k 8 4 ≡ none)
unfolding own_revoke revoke_self unset_cap deleted_vpe put_table table_of revoke_by insert empty
    cap_table get unset Treap.find Treap.remove Treap.remove_in Treap.remove_from remove_vpe
    revoke_each Treap.remove_root Treap.remove_root_in and_then revoke_rec revoke_children
    finish_cap finish_root tell_parent as_generic emit clear_children modify modify_in revoke_msg
    unref_msg invalidate_local revoke_action as_ocap without_cap_type key_locality structured_hash
    shl64 hash_to_pe_id responsible_krnl responsible_member
last_reference = (_, refl, refl, refl)

more_references :
    (k : Kernel) × (own_revoke 2 for_vpe (with_vpe 3) ≡ done 0 k)
    × (look k 5 2 ≡ none)
    × (look k 8 4 ≡ some of_vpe)
unfolding own_revoke revoke_self unset_cap deleted_vpe put_table table_of revoke_by insert empty
    cap_table get unset Treap.find Treap.remove Treap.remove_in Treap.remove_from
more_references = (_, refl, refl, refl)
