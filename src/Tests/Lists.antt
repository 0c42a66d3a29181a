-- ===== src/Tests/Lists.antt =====
-- A linked list of two numbers, and the theorems on lists there.
use ximg.Prelude.{ℕ, List, [], ◌∷◌, ◌++◌, none, some, if◌then◌else◌, ◌==◌, ◌≡◌, refl, arith}
use ximg.LinkedList.{LinkedList, Heap, add_tail, operator_linked_list, free_linked_list}
use ximg.LinkedList.Cells.{Cells, IsList, add_tail-IsList, free_linked_list_fault}

abbrev two_nodes : Heap ℕ
two_nodes a =
    if a == 1
    then some (record { data_of = 10; next = some 2 })
    else if a == 2
    then some (record { data_of = 20; next = none })
    else none

abbrev two_list : LinkedList
two_list = record { head = some 1; tail = some 2; current = none }

abbrev two_cells : Cells ℕ
two_cells = (1, 10) ∷ (2, 20) ∷ []

two_nodes-IsList : IsList two_nodes two_list two_cells
two_nodes-IsList = record {
  chain = (refl, (refl, tt));
  distinct = ((omega arith, tt), (tt, tt));
  head = refl;
  tail = refl;
}

abbrev collect : List ℕ → ℕ → List ℕ
collect seen item = seen ++ (item ∷ [])

add_tail-IsList_example :
    (h' : Heap ℕ) × (list' : LinkedList) × (add_tail two_nodes 3 two_list 30 ≡ some (h', list'))
    × IsList h' list' ((1, 10) ∷ (2, 20) ∷ (3, 30) ∷ [])
    × (operator_linked_list 4 collect h' list' [] ≡ some (10 ∷ 20 ∷ 30 ∷ []))
add_tail-IsList_example =
    add_tail-IsList two_nodes 3 two_list 30 two_cells 4 collect [] two_nodes-IsList refl
      (omega arith)

free_linked_list_fault_example : free_linked_list 3 two_nodes two_list ≡ none
free_linked_list_fault_example =
    free_linked_list_fault 3 two_nodes two_list 1 10 ((2, 20) ∷ []) two_nodes-IsList
