-- ===== src/Cap/Children/Order.antt =====
-- Where a new child goes, and that its removal restores the list.
use semper_os.Base.{ℕ, ◌≡◌, Bool, true, false, ◌||◌, List, [], ◌∷◌, leb, ◌==◌, if◌then◌else◌, arith}
use semper_os.Ddl.Hash.{without_cap_type}
use semper_os.Ddl.Members.{Members, responsible_member, key_locality}
use semper_os.Cap.Children.{
  place, insert_after, insert_found, add_remote, add_child, remove_child, remove_child_all_types,
}

-- Does the child go to the front? It does if it is local, if there is no other, and if its kernel's
-- number is not above that of the first child's kernel.
abbrev pub goes_first : Members → ℕ → List ℕ → Bool
goes_first m child [] = true
goes_first m child (first ∷ rest) =
    key_locality m child || leb (responsible_member m child) (responsible_member m first)

abbrev pub second : ℕ → List ℕ → List ℕ
second child [] = child ∷ []
second child (first ∷ rest) = first ∷ child ∷ rest

-- A new child becomes the first or the second of the list, whatever kernels the other children
-- belong to: the loop that looks for the place of the child's kernel ends in its first round.
pub add_child_place :
    (m : Members) (child : ℕ) (children : List ℕ)
    → add_child m child children
      ≡ (if goes_first m child children then child ∷ children else second child children)
unfolding add_child add_remote place insert_found insert_after responsible_member
add_child_place m child [] = ground arith
add_child_place m child (first ∷ rest) = ground arith

abbrev pub has_slot : ℕ → List ℕ → Bool
has_slot child [] = false
has_slot child (c ∷ rest) = (without_cap_type c == without_cap_type child) || has_slot child rest

-- A child that shares its slot with no other child is found again: its removal, in either way,
-- gives the list as it was before it was added.
pub remove_child-add_child :
    (m : Members) (child : ℕ) (children : List ℕ)
    → has_slot child children ≡ false
    → (remove_child child (add_child m child children) ≡ children)
      × (remove_child_all_types child (add_child m child children) ≡ children)
unfolding remove_child remove_child_all_types
remove_child-add_child m child [] h = ground (arith, add_child_place m child [])
remove_child-add_child m child (first ∷ rest) h =
    ground (arith, add_child_place m child (first ∷ rest))
