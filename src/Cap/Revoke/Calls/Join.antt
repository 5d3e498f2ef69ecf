-- ===== src/Cap/Revoke/Calls/Join.antt =====
-- A second revocation of a capability that is being revoked.
use semper_os.Base.{
  ℕ, ◌+◌, ◌%◌, ◌^◌, ◌<◌, ◌≡◌, refl, ap, sym, ◌∙◌, subst, Bool, true, ◌&&◌, List, [], ◌∷◌, none,
  some, ◌==◌, if_equal, arith,
}
use semper_os.Ddl.Hash.{map_cap, structured_hash, hash_to_type, as_ocap}
use semper_os.Ddl.Hash.Fields.{structured_hash_fields, as_ocap_sum, as_ocap_twice}
use semper_os.Cap.Capability.{obj}
use semper_os.Cap.Table.{get}
use semper_os.Cap.Kernel.{Revocation, Kernel, table_of, generic_id, find_entry, find_revocation}
use semper_os.Cap.Revocations.Notify.{root_entry}
use semper_os.Cap.Item.{done, and_then, as_generic}
use semper_os.Cap.Revoke.Calls.{revoke, join_revocation, key_of, revoke_selector, revoke_range}

-- All entries are of object capabilities: bit 36 of their ids is not set.
abbrev pub all_objects : List Revocation → Bool
all_objects [] = true
all_objects (r ∷ rest) = (hash_to_type r.cap_id % 2 == 0) && all_objects rest

as_ocap_low : (key : ℕ) → hash_to_type (as_ocap key) % 2 ≡ hash_to_type key % 2
unfolding hash_to_type
as_ocap_low key = omega (arith, as_ocap_sum key)

as_ocap_type : (key : ℕ) → 14 < hash_to_type (as_ocap key) + 1
unfolding hash_to_type
as_ocap_type key = omega (arith, as_ocap_sum key)

generic_id-as_ocap : (key : ℕ) → generic_id (as_ocap key) ≡ as_ocap key
unfolding generic_id
generic_id-as_ocap key = ground (arith, as_ocap_type key, as_ocap_twice key)

find_entry-all_objects :
    (key : ℕ) (revs : List Revocation)
    → hash_to_type key % 2 ≡ 1
    → all_objects revs ≡ true
    → find_entry key revs ≡ none
unfolding find_entry
find_entry-all_objects key [] o h = refl
find_entry-all_objects key (r ∷ revs) o h = ground (arith, o, h, find_entry-all_objects key revs o)

-- The key that is made for a missing capability of an object table has bit 36 set.
missing_low :
    (vpe sel : ℕ)
    → vpe < 2 ^ 10
    → sel < 2 ^ 32
    → hash_to_type (as_ocap (structured_hash vpe vpe map_cap sel)) % 2 ≡ 1
missing_low vpe sel l m =
    let (p, q, e, s) = structured_hash_fields vpe vpe map_cap sel l (omega arith) (omega arith) m in
    as_ocap_low (structured_hash vpe vpe map_cap sel) ∙ ap (λ t. t % 2) e

find_revocation-none :
    (key : ℕ) (revs : List Revocation)
    → generic_id key ≡ key
    → find_entry key revs ≡ none
    → find_revocation key revs ≡ none
unfolding find_revocation
find_revocation-none key revs g e = ap (λ x. find_entry x revs) g ∙ e

join_revocation-none :
    (key : ℕ) (k : Kernel)
    → find_revocation key k.revs ≡ none
    → join_revocation key key k ≡ done 0 k
unfolding join_revocation
join_revocation-none key k e = ground (arith, e)

join_revocation-missing :
    (vpe sel : ℕ) (k : Kernel)
    → vpe < 2 ^ 10
    → sel < 2 ^ 32
    → all_objects k.revs ≡ true
    → let key = as_ocap (structured_hash vpe vpe map_cap sel) in
      join_revocation key key k ≡ done 0 k
join_revocation-missing vpe sel k l m o =
    join_revocation-none (as_ocap (structured_hash vpe vpe map_cap sel)) k (
      find_revocation-none (as_ocap (structured_hash vpe vpe map_cap sel)) k.revs
        (generic_id-as_ocap (structured_hash vpe vpe map_cap sel))
        (find_entry-all_objects (as_ocap (structured_hash vpe vpe map_cap sel)) k.revs
          (missing_low vpe sel l m) o))

object_low :
    (vpe item sel : ℕ)
    → vpe < 2 ^ 10
    → item < 16
    → sel < 2 ^ 32
    → item % 2 ≡ 0
    → hash_to_type (as_ocap (structured_hash vpe vpe item sel)) % 2 ≡ 0
object_low vpe item sel l h m even =
    let (p, q, e, s) = structured_hash_fields vpe vpe item sel l (omega arith) (omega arith) m in
    as_ocap_low (structured_hash vpe vpe item sel) ∙ ap (λ t. t % 2) e ∙ even

-- While a thread waits for the answers of the revocation of the object capability at selector `sel`
-- of a VPE, and all other revocations are of object capabilities too, a second revocation of that
-- selector does not wait: the slot is empty, and the call ends at once and changes nothing, though
-- the entry is there and would be found under the capability's own key. The key that is made for
-- the missing capability has the item type of mappings.
pub second_revoke_returns :
    (fuel vpe sel item parent thread awaited : ℕ) (others : List Revocation) (k : Kernel)
    → vpe < 2 ^ 10
    → sel < 2 ^ 32
    → item < 16
    → item % 2 ≡ 0
    → (table_of obj vpe k).id ≡ vpe
    → get sel (table_of obj vpe k) ≡ none
    → let cap = as_ocap (structured_hash vpe vpe item sel) in
      k.revs ≡ root_entry cap parent thread awaited ∷ others
      → all_objects others ≡ true
      → (find_revocation cap k.revs ≡ some (root_entry cap parent thread awaited))
        × (revoke_range fuel obj vpe true sel 1 k ≡ done 0 k)
unfolding find_revocation find_entry revoke_range revoke_selector key_of revoke and_then as_generic
second_revoke_returns fuel vpe sel item parent thread awaited others k l m h even own gone here o =
    let cap = as_ocap (structured_hash vpe vpe item sel) in
    let all : all_objects k.revs ≡ true =
      subst (λ revs. all_objects revs ≡ true) (sym here)
        (ground (arith, o, object_low vpe item sel l h m even)) in
    (
      rw (here, generic_id-as_ocap (structured_hash vpe vpe item sel)) (if_equal cap _ _),
      rw (gone, own, join_revocation-missing vpe sel k l m all) refl,
    )
