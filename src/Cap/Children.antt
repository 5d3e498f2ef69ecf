-- ===== src/Cap/Children.antt =====
-- The child list of a capability: `addChild`, `removeChild` and `removeChildAllTypes` of
-- apps/kernel/cap/Capability.cc. A child is the key of a capability, which may be with another
-- kernel.
pub mod Order
use semper_os.Base.{
  ℕ, zero, suc, Bool, true, false, ◌||◌, List, [], ◌∷◌, Option, none, some, leb, ◌==◌,
  if◌then◌else◌,
}
use semper_os.Ddl.Hash.{hash_to_pe_id, without_cap_type}
use semper_os.Ddl.Members.{Members, responsible_krnl, responsible_member, key_locality}

-- The search loop of `addChild`: the index of `prev` where it inserts, if it does. `it` counts the
-- rounds.
unfoldable pub place : Members → ℕ → ℕ → ℕ → List ℕ → Option ℕ
unfolding responsible_member
place m resp prev it [] = none
place m resp prev it (c ∷ rest) =
    let later = place m resp it (suc it) rest in
    if leb (responsible_member m c) resp then some prev else later

-- `SList::insert`, after the element at the index.
unfoldable pub insert_after : ℕ → ℕ → List ℕ → List ℕ
insert_after i child [] = child ∷ []
insert_after zero child (c ∷ rest) = c ∷ child ∷ rest
insert_after (suc i) child (c ∷ rest) = c ∷ insert_after i child rest

unfoldable pub insert_found : Option ℕ → ℕ → List ℕ → List ℕ
unfolding insert_after
insert_found none child children = children
insert_found (some i) child children = insert_after i child children

-- The case of a child with another kernel, and a list that is not empty.
unfoldable pub add_remote : Members → ℕ → List ℕ → List ℕ
unfolding responsible_krnl responsible_member place insert_found
add_remote m child [] = child ∷ []
add_remote m child (first ∷ rest) =
    let resp = responsible_krnl m (hash_to_pe_id child) in
    let found = insert_found (place m resp 0 0 (first ∷ rest)) child (first ∷ rest) in
    if leb resp (responsible_member m first) then child ∷ first ∷ rest else found

unfoldable pub add_child : Members → ℕ → List ℕ → List ℕ
unfolding key_locality add_remote
add_child m child children =
    if key_locality m child then child ∷ children else add_remote m child children

unfoldable pub remove_child : ℕ → List ℕ → List ℕ
remove_child child [] = []
remove_child child (c ∷ rest) = if c == child then rest else c ∷ remove_child child rest

-- Keys are compared without their capability type.
unfoldable pub remove_child_all_types : ℕ → List ℕ → List ℕ
unfolding without_cap_type
remove_child_all_types child [] = []
remove_child_all_types child (c ∷ rest) =
    if without_cap_type c == without_cap_type child
    then rest
    else c ∷ remove_child_all_types child rest
