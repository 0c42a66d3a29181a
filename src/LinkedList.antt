-- ===== src/LinkedList.antt =====
-- src/xlist.c: the linked list of the results of an upload. A heap gives the node at an address, `none` is
-- NULL as a pointer, and as a result a node read or written that is not there. `malloc` gives an address
-- that is `fresh`.
pub mod Cells
use ximg.Prelude.{ℕ, zero, suc, Bool, true, false, Option, none, some, if◌then◌else◌, ◌==◌}
use ximg.Prelude.Memory.{◌>>=◌}

pub record Node (D : Type 0) : Type 0 where
  pub data_of : D
  pub next : Option ℕ

pub record LinkedList : Type 0 where
  pub head : Option ℕ
  pub tail : Option ℕ
  pub current : Option ℕ

abbrev pub Heap : Type 0 → Type 0
Heap D = ℕ → Option (Node D)

abbrev pub same_pointer : Option ℕ → Option ℕ → Bool
same_pointer none none = true
same_pointer none (some b) = false
same_pointer (some a) none = false
same_pointer (some a) (some b) = a == b

abbrev pub initialize_list : LinkedList
initialize_list = record { head = none; tail = none; current = none }

module _ {D : Type 0} where
  -- A cell of the heap, filled or given back.
  unfoldable pub write : Heap D → ℕ → Option (Node D) → Heap D
  write h a cell b = if b == a then cell else h b

  -- `p->next = q`
  unfoldable pub set_next : Heap D → Option ℕ → Option ℕ → Option (Heap D)
  unfolding write
  set_next h none q = none
  set_next h (some a) q = do node ← h a; some (write h a (some (record node { next = q })))

  unfoldable pub add_head : Heap D → ℕ → LinkedList → D → Heap D × LinkedList
  unfolding write
  add_head h fresh list item = elim list.head [
    | none ↦ (
      write h fresh (some (record { data_of = item; next = none })),
      record list { head = some fresh; tail = some fresh },
    )
    | some first ↦ (
      write h fresh (some (record { data_of = item; next = some first })),
      record list { head = some fresh },
    )
  ]

  unfoldable pub add_tail : Heap D → ℕ → LinkedList → D → Option (Heap D × LinkedList)
  unfolding write set_next
  add_tail h fresh list item =
      let made = write h fresh (some (record { data_of = item; next = none })) in
      elim list.head [
        | none ↦ some (made, record list { head = some fresh; tail = some fresh })
        | some first ↦ (do
          linked ← set_next made list.tail (some fresh)
          some (linked, record list { tail = some fresh }))
      ]

  -- The loop of `getNode`, on fuel, one for each node: the inner none is NULL.
  unfoldable pub get_node : ℕ → (D → Bool) → Heap D → Option ℕ → Option (Option ℕ)
  get_node zero is_same h place = none
  get_node (suc fuel) is_same h none = some none
  get_node (suc fuel) is_same h (some a) = do
    node ← h a
    let later = get_node fuel is_same h node.next in
        if is_same node.data_of then some (some a) else later

  -- The loop of `deleteNode`, on fuel: the node in front of `target`, or NULL.
  unfoldable pub find_previous : ℕ → Heap D → Option ℕ → Option ℕ → Option (Option ℕ)
  find_previous zero h target tmp = none
  find_previous (suc fuel) h target none = some none
  find_previous (suc fuel) h target (some a) = do
    cell ← h a
    let later = find_previous fuel h target cell.next in
        if same_pointer cell.next target then some (some a) else later

  -- The branch for the head, and the one for the other nodes.
  unfoldable pub delete_first : Heap D → LinkedList → ℕ → Option (Heap D × LinkedList)
  unfolding write
  delete_first h list node = do
    first ← h node
    some (
      write h node none,
      if same_pointer first.next none
          then record list { head = none; tail = none }
          else record list { head = first.next },
    )

  unfoldable pub delete_later : ℕ → Heap D → LinkedList → ℕ → Option (Heap D × LinkedList)
  unfolding write set_next find_previous
  delete_later fuel h list node = do
    previous ← find_previous fuel h (some node) list.head
    elim previous [
      | none ↦ some (write h node none, list)
      | some tmp ↦ (do
        deleted ← h node
        linked ← set_next h (some tmp) deleted.next
        some (write linked node none, list))
    ]

  unfoldable pub delete_node : ℕ → Heap D → LinkedList → ℕ → Option (Heap D × LinkedList)
  unfolding delete_first delete_later
  delete_node fuel h list node =
      if same_pointer (some node) list.head
      then delete_first h list node
      else delete_later fuel h list node

  -- The loop of `operatorLinkedList` on the object `op`, on fuel.
  unfoldable pub operator_loop : {O : Type 0} → ℕ → (O → D → O) → Heap D → Option ℕ → O → Option O
  operator_loop zero operator h current op = none
  operator_loop (suc fuel) operator h none op = some op
  operator_loop (suc fuel) operator h (some a) op = do
    node ← h a
    operator_loop fuel operator h node.next (operator op node.data_of)

  unfoldable pub operator_linked_list :
      {O : Type 0} → ℕ → (O → D → O) → Heap D → LinkedList → O → Option O
  unfolding operator_loop
  operator_linked_list fuel operator h list op = operator_loop fuel operator h list.head op

  -- The loop of `freeLinkedList`, on fuel: `current->next` is read behind `free(current)`.
  unfoldable pub free_loop : ℕ → Heap D → Option ℕ → Option (Heap D)
  unfolding write
  free_loop zero h current = none
  free_loop (suc fuel) h none = some h
  free_loop (suc fuel) h (some a) = do
    freed ← h a
    let released = write h a none
    node ← released a
    free_loop fuel released node.next

  unfoldable pub free_linked_list : ℕ → Heap D → LinkedList → Option (Heap D)
  unfolding free_loop
  free_linked_list fuel h list = free_loop fuel h list.head
