-- ===== src/Tests/Kernels.antt =====
-- A revocation that spans two kernels at a concrete input.
use semper_os.Base.{◌≡◌, refl, true, false, ◌||◌, [], ◌∷◌, some, ◌==◌, if◌then◌else◌, arith}
use semper_os.Col.Treap
use semper_os.Col.Treap.{empty, insert}
use semper_os.Ddl.Hash.{
  structured_hash, as_ocap, shl64, hash_to_pe_id, hash_to_type, hash_to_obj_id,
}
use semper_os.Ddl.Members.{responsible_krnl, responsible_member}
use semper_os.Cap.Capability.{Capability, obj, revoke_by, deleted_vpe}
use semper_os.Cap.Table.{cap_table, get, unset}
use semper_os.Cap.Table.Lookup.{IsValid-if}
use semper_os.Cap.Kernel.{
  Kernel, revoke_call, revoke_finish, reply, send, minus_one, generic_id, find_entry, set_table,
  put_table, table_of,
}
use semper_os.Cap.Revocations.{handle_revoke_finish}
use semper_os.Cap.Item.{waits, done, as_generic}
use semper_os.Cap.Revoke.{own_revoke, revoke_self, unset_cap, tell_parent, resume_root, revoke_rec}
use semper_os.Cap.Revoke.Answers.{root_ids}
use semper_os.Cap.Revoke.Calls.{handle_revoke}
use semper_os.Cap.Revoke.Forest
use semper_os.Cap.Revoke.Forest.{grow, within, IsStored}
use semper_os.Cap.Revoke.Frees.{look, AllValid, Frees, slot}
use semper_os.Cap.Revoke.Protocol.{revoke-two_kernels}
use semper_os.Tests.Revocation.{
  members, key, capability, objects, kernel, table_with, table_with-IsValid, cap_table-IsValid,
}

-- The root is with kernel 3, its child with kernel 9.
abbrev upper : Capability
upper = capability 5 4 (key 6 4 ∷ [])

abbrev lower : Capability
lower = capability 6 4 []

abbrev emptied_upper : Kernel
emptied_upper = record (kernel upper) {
  objcaps = set_table (kernel upper).objcaps 5 (unset 4 ((kernel upper).objcaps 5));
  objects = (revoke_by upper.body members 5 4 [] objects).1;
}

abbrev other : Kernel
other = record (kernel upper) {
  members = record members { kid = 9 };
  objcaps = λ vpe. if vpe == 6 then table_with 6 lower else cap_table vpe obj;
}

other-AllValid : AllValid other
other-AllValid vpe = IsValid-if (vpe == 6) _ _ (table_with-IsValid 6 lower) (cap_table-IsValid vpe)

lower-IsStored :
    IsStored
      (as_ocap (root_ids obj upper).origin)
      other.members
      (look other)
      (grow lower Forest.no_tree Forest.no_tree)
unfolding as_ocap structured_hash shl64 hash_to_pe_id hash_to_type hash_to_obj_id responsible_member
    responsible_krnl get insert empty cap_table Treap.find as_generic
lower-IsStored = (
  (refl, refl, refl, refl, refl, refl),
  omega arith,
  refl,
  refl,
  λ vpe sel h. refl,
  λ vpe sel h. refl,
  tt,
  tt,
)

revoke-two_kernels_example :
    let i = root_ids obj upper in
    (waiting : Kernel) × (b' : Kernel) × (woken : Kernel) × (revoke_rec 1 i.id obj upper
        (kernel upper)
      ≡ waits waiting)
    × (waiting.sent ≡ revoke_call 9 lower.id i.id i.origin ∷ [])
    × (handle_revoke 1 3 lower.id i.id i.origin other
        ≡ done 0 (send (revoke_finish 3 i.id minus_one true) b'))
    × Frees (λ vpe sel. slot lower vpe sel || false) other b'
    × (handle_revoke_finish 2 9 i.id minus_one true waiting ≡ some woken)
    × (resume_root i woken
        ≡ tell_parent i (record emptied_upper {
          sent = reply 9 ∷ revoke_call 9 lower.id i.id i.origin ∷ [];
          woken = 2 ∷ [];
          credited = 9 ∷ [];
        }))
unfolding own_revoke revoke_self unset_cap deleted_vpe put_table table_of revoke_by find_entry
    generic_id as_generic as_ocap structured_hash shl64 hash_to_type hash_to_pe_id
    responsible_member responsible_krnl
revoke-two_kernels_example =
    revoke-two_kernels 0 0 upper lower Forest.no_tree (kernel upper) emptied_upper other refl refl
      refl (omega arith) refl refl (omega arith) other-AllValid lower-IsStored
