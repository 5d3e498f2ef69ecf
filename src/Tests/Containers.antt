-- ===== src/Tests/Containers.antt =====
-- The containers at concrete inputs.
use semper_os.Base.{ℕ, ◌≡◌, ◌⊎◌, refl, none, some, ◌==◌, if◌then◌else◌, arith}
use semper_os.Col.Treap.{Treap, leaf, node, empty, find, insert, remove}
use semper_os.Col.Treap.Order.{IsSearchTree, insert-IsSearchTree, find-insert}
use semper_os.Col.Treap.Heap.{IsHeap}
use semper_os.Col.Treap.Remove.{remove-Removed}

-- Three entries, the second before the first in the order of keys.
abbrev one_entry : Treap ℕ
unfolding insert empty
one_entry = insert 20 200 empty

abbrev two_entries : Treap ℕ
unfolding insert empty
two_entries = insert 10 100 one_entry

two_entries-IsSearchTree : IsSearchTree two_entries
unfolding two_entries one_entry insert empty
two_entries-IsSearchTree = omega arith

find-insert_example :
    find 20 (insert 30 300 two_entries) ≡ (if 30 == 20 then some 300 else find 20 two_entries)
unfolding find two_entries one_entry insert empty
find-insert_example = find-insert 30 20 300 two_entries two_entries-IsSearchTree refl

insert-IsSearchTree_example : IsSearchTree (insert 30 300 two_entries)
unfolding find two_entries one_entry insert empty
insert-IsSearchTree_example =
    insert-IsSearchTree 30 300 two_entries (omega arith) two_entries-IsSearchTree refl

remove-Removed_example :
    ((find 20 two_entries ≡ none) × (remove 20 two_entries ≡ none))
    ⊎ ((s : Treap ℕ) × (remove 20 two_entries ≡ some s)
        × IsSearchTree s
        × ((j : ℕ) → find j s ≡ (if 20 == j then none else find j two_entries)))
remove-Removed_example = remove-Removed 20 two_entries two_entries-IsSearchTree

two_entries-IsHeap : IsHeap two_entries
unfolding two_entries one_entry insert empty
two_entries-IsHeap = omega arith

abbrev without_twenty : Treap ℕ
without_twenty = record two_entries { root = node 10 2968595034 100 leaf leaf }
