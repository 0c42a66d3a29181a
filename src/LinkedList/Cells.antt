-- ===== src/LinkedList/Cells.antt =====
-- The list of values that a linked list stands for, and what the operations do to it.
use ximg.Prelude.{
  ℕ, zero, suc, ◌+◌, ◌<◌, true, false, List, [], ◌∷◌, ◌++◌, length, length-append, Option, none,
  some, ◌==◌, ◌≡◌, ◌≢◌, refl, sym, ap, ◌∙◌, arith,
}
use ximg.LinkedList.{
  Node, LinkedList, Heap, write, set_next, add_tail, operator_loop, operator_linked_list, free_loop,
  free_linked_list,
}

-- Addresses with the values there.
abbrev pub Cells : Type 0 → Type 0
Cells D = List (ℕ × D)

module _ {D : Type 0} where
  abbrev pub start : Cells D → Option ℕ
  start [] = none
  start ((a, item) ∷ cells) = some a

  -- The address of the last cell, behind a first one.
  abbrev pub last_of : ℕ → Cells D → ℕ
  last_of a [] = a
  last_of a ((b, item) ∷ cells) = last_of b cells

  abbrev pub IsApart : ℕ → Cells D → Type 0
  IsApart a [] = Unit {0}
  IsApart a ((b, item) ∷ cells) = (a ≢ b) × IsApart a cells

  abbrev pub IsDistinct : Cells D → Type 0
  IsDistinct [] = Unit {0}
  IsDistinct ((a, item) ∷ cells) = IsApart a cells × IsDistinct cells

  -- Each cell is in the heap and leads to the next one.
  abbrev pub IsChain : Heap D → Cells D → Type 0
  IsChain h [] = Unit {0}
  IsChain h ((a, item) ∷ cells) =
      (h a ≡ some (record { data_of = item; next = start cells })) × IsChain h cells

  -- An empty list may have any tail.
  abbrev pub HasTail : LinkedList → Cells D → Type 0
  HasTail list [] = Unit {0}
  HasTail list ((a, item) ∷ cells) = list.tail ≡ some (last_of a cells)

  pub record IsList (h : Heap D) (list : LinkedList) (cells : Cells D) : Type 0 where
    pub chain : IsChain h cells
    pub distinct : IsDistinct cells
    pub head : list.head ≡ start cells
    pub tail : HasTail list cells

  write_same : (h : Heap D) (a : ℕ) (cell : Option (Node D)) → write h a cell a ≡ cell
  unfolding write
  write_same h a cell = let same : (a == a) ≡ true = ground arith in rw same refl

  write_other : (h : Heap D) (a b : ℕ) (cell : Option (Node D)) → b ≢ a → write h a cell b ≡ h b
  unfolding write
  write_other h a b cell ne = let other : (b == a) ≡ false = ground arith in rw other refl

  -- A heap that differs at one address only keeps a chain apart from it.
  IsChain-write :
      (h : Heap D) (a : ℕ) (cell : Option (Node D)) (cells : Cells D)
      → IsApart a cells
      → IsChain h cells
      → IsChain (write h a cell) cells
  IsChain-write h a cell [] apart chain = tt
  IsChain-write h a cell ((b, item) ∷ cells) (ne, apart) (here, chain) =
      (write_other h a b cell (λ e. ne (sym e)) ∙ here, IsChain-write h a cell cells apart chain)

  none≢some : {cell : Node D} → ◌≡◌ {A = Option (Node D)} none (some cell) → ⊥
  none≢some e = cc

  -- An address that `malloc` gives is apart from the cells.
  fresh-IsApart :
      (h : Heap D) (a : ℕ) (cells : Cells D) → h a ≡ none → IsChain h cells → IsApart a cells
  fresh-IsApart h a [] free chain = tt
  fresh-IsApart h a ((b, item) ∷ cells) free (here, chain) =
      (λ e. none≢some (sym free ∙ ap h e ∙ here), fresh-IsApart h a cells free chain)

  -- The address of the last cell is one of the cells'.
  last_of-IsApart : (a b : ℕ) (cells : Cells D) → a ≢ b → IsApart a cells → a ≢ last_of b cells
  last_of-IsApart a b [] ne apart = ne
  last_of-IsApart a b ((c, item) ∷ cells) ne (ne', apart) = last_of-IsApart a c cells ne' apart

  -- A heap with a new last cell behind a chain.
  IsChain-append :
      (h h' : Heap D) (a new : ℕ) (item new_item : D) (cells : Cells D)
      → IsChain h ((a, item) ∷ cells)
      → IsDistinct ((a, item) ∷ cells)
      → IsApart new ((a, item) ∷ cells)
      → ((b : ℕ) → b ≢ new → b ≢ last_of a cells → h' b ≡ h b)
      → ((cell : Node D)
          → h (last_of a cells) ≡ some cell
          → h' (last_of a cells) ≡ some (record cell { next = some new }))
      → h' new ≡ some (record { data_of = new_item; next = none })
      → IsChain h' ((a, item) ∷ (cells ++ ((new, new_item) ∷ [])))
  IsChain-append h h' a new item new_item [] (here, chain) distinct apart others at_last at_new =
      (at_last _ here, (at_new, tt))
  IsChain-append h h' a new item new_item ((b, next_item) ∷ cells) (here, chain)
        ((ne, apart_a), distinct) (ne', apart) others at_last at_new =
      (
        others a (λ e. ne' (sym e)) (last_of-IsApart a b cells ne apart_a) ∙ here,
        IsChain-append h h' b new next_item new_item cells chain distinct apart others at_last
            at_new,
      )

  IsDistinct-append :
      (cells : Cells D) (new : ℕ) (item : D)
      → IsDistinct cells
      → IsApart new cells
      → IsDistinct (cells ++ ((new, item) ∷ []))
  IsDistinct-append [] new item distinct apart = (tt, tt)
  IsDistinct-append ((a, old) ∷ cells) new item (apart_a, distinct) (ne, apart) = (
    IsApart-append a cells new item apart_a (λ e. ne (sym e)),
    IsDistinct-append cells new item distinct apart,
  )
    where
      IsApart-append :
          (a : ℕ) (cells : Cells D) (new : ℕ) (item : D)
          → IsApart a cells
          → a ≢ new
          → IsApart a (cells ++ ((new, item) ∷ []))
      IsApart-append a [] new item apart ne = (ne, tt)
      IsApart-append a ((b, old) ∷ cells) new item (ne', apart) ne =
          (ne', IsApart-append a cells new item apart ne)

  last_of-append :
      (a : ℕ) (cells : Cells D) (new : ℕ) (item : D) → last_of a (cells ++ ((new, item) ∷ [])) ≡ new
  last_of-append a [] new item = refl
  last_of-append a ((b, old) ∷ cells) new item = last_of-append b cells new item

  last_cell :
      (h : Heap D) (a : ℕ) (item : D) (cells : Cells D)
      → IsChain h ((a, item) ∷ cells)
      → (cell : Node D) × (h (last_of a cells) ≡ some cell)
  last_cell h a item [] (here, chain) = (_, here)
  last_cell h a item ((b, next_item) ∷ cells) (here, chain) = last_cell h b next_item cells chain

  abbrev HasCells : Option (Heap D × LinkedList) → Cells D → Type 0
  HasCells result cells =
      (h : Heap D) × (list : LinkedList) × (result ≡ some (h, list)) × IsList h list cells

  add_tail-empty :
      (h : Heap D) (fresh : ℕ) (list : LinkedList) (item : D)
      → list.head ≡ none
      → HasCells (add_tail h fresh list item) ((fresh, item) ∷ [])
  unfolding add_tail
  add_tail-empty h fresh list item empty = (
    write h fresh (some (record { data_of = item; next = none })),
    record list { head = some fresh; tail = some fresh },
    rw (add_tail, empty) refl,
    record { chain = (write_same h fresh _, tt); distinct = (tt, tt); head = refl; tail = refl },
  )

  abbrev with_next : ℕ → Option (Node D) → Option (Node D)
  with_next q none = none
  with_next q (some cell) = some (record cell { next = some q })

  add_tail_lem :
      (h : Heap D) (fresh : ℕ) (list list' : LinkedList) (item : D) (a end : ℕ) (cell : Node D)
      → list.head ≡ some a
      → list.tail ≡ some end
      → write h fresh (some (record { data_of = item; next = none })) end ≡ some cell
      → record list { tail = some fresh } ≡ list'
      → add_tail h fresh list item
        ≡ some (
          write
              (write h fresh (some (record { data_of = item; next = none })))
              end
              (some (record cell { next = some fresh })),
          list',
        )
  unfolding add_tail set_next
  add_tail_lem h fresh list list' item a end cell head tail kept e =
      rw (add_tail, head, tail, kept) (ap (with_list _) e)
    where
      with_list : Heap D → LinkedList → Option (Heap D × LinkedList)
      with_list made l = some (made, l)

  add_tail-more :
      (h : Heap D) (fresh : ℕ) (list : LinkedList) (item : D) (a : ℕ) (old : D) (cells : Cells D)
      → IsList h list ((a, old) ∷ cells)
      → h fresh ≡ none
      → HasCells (add_tail h fresh list item) ((a, old) ∷ (cells ++ ((fresh, item) ∷ [])))
  unfolding add_tail set_next
  add_tail-more h fresh list item a old cells ok free =
      let chain = ok.chain in
      let head = ok.head in
      let tail = ok.tail in
      let end = last_of a cells in
      let (cell, at_end) = last_cell h a old cells chain in
      let apart = fresh-IsApart h fresh ((a, old) ∷ cells) free chain in
      let ne : fresh ≢ end = last_of-IsApart fresh a cells apart.0 apart.1 in
      let new : Node D = record { data_of = item; next = none } in
      let made = write h fresh (some new) in
      let kept : made end ≡ some cell =
        write_other h fresh end (some new) (λ e. ne (sym e)) ∙ at_end in
      let linked = write made end (some (record cell { next = some fresh })) in
      let last_linked : (c : Node D)
          → some cell ≡ some c
          → linked end ≡ some (record c { next = some fresh }) =
        λ c e. write_same made end _ ∙ ap (with_next fresh) e in
      (
        linked,
        record list { tail = some fresh },
        add_tail_lem h fresh list (record list { tail = some fresh }) item a end cell head tail kept
            refl,
        record {
          chain =
              IsChain-append h linked a fresh old item cells chain ok.distinct apart
                (λ b b_new b_end. write_other made end b _ b_end ∙ write_other h fresh b _ b_new)
                (λ c e. last_linked c (sym at_end ∙ e))
                (write_other made end fresh _ ne ∙ write_same h fresh _);
          distinct = IsDistinct-append ((a, old) ∷ cells) fresh item ok.distinct apart;
          head = ok.head;
          tail = ap some (sym (last_of-append a cells fresh item));
        },
      )

  add_tail-HasCells :
      (h : Heap D) (fresh : ℕ) (list : LinkedList) (item : D) (cells : Cells D)
      → IsList h list cells
      → h fresh ≡ none
      → HasCells (add_tail h fresh list item) (cells ++ ((fresh, item) ∷ []))
  add_tail-HasCells h fresh list item [] ok free = add_tail-empty h fresh list item ok.head
  add_tail-HasCells h fresh list item ((a, old) ∷ cells) ok free =
      add_tail-more h fresh list item a old cells ok free

  -- The object after the operator has seen the values in their order.
  abbrev pub visited : {O : Type 0} → (O → D → O) → O → Cells D → O
  visited operator op [] = op
  visited operator op ((a, item) ∷ cells) = visited operator (operator op item) cells

  operator_loop-visited :
      {O : Type 0} (fuel : ℕ) (operator : O → D → O) (h : Heap D) (cells : Cells D) (op : O)
      → length cells < fuel
      → IsChain h cells
      → operator_loop fuel operator h (start cells) op ≡ some (visited operator op cells)
  unfolding operator_loop
  operator_loop-visited zero operator h cells op enough chain = absurd (omega arith)
  operator_loop-visited (suc fuel) operator h [] op enough chain = refl
  operator_loop-visited (suc fuel) operator h ((a, item) ∷ cells) op enough (here, chain) =
      rw here (operator_loop-visited fuel operator h cells (operator op item) (omega arith) chain)

  operator_linked_list-visited :
      {O : Type 0} (fuel : ℕ) (operator : O → D → O) (h : Heap D) (list : LinkedList)
      (cells : Cells D) (op : O)
      → length cells < fuel
      → IsList h list cells
      → operator_linked_list fuel operator h list op ≡ some (visited operator op cells)
  unfolding operator_linked_list
  operator_linked_list-visited fuel operator h list cells op enough ok =
      let head = ok.head in rw head (operator_loop-visited fuel operator h cells op enough ok.chain)

  -- A list that stands for some cells stands for one cell more behind them after `add_tail`, where `malloc`
  -- gives an address that is not in use; and over that list, with a turn for each node and one more,
  -- `operator_linked_list` calls the operator on the values in their order, the new one last.
  pub add_tail-IsList :
      {O : Type 0} (h : Heap D) (fresh : ℕ) (list : LinkedList) (item : D) (cells : Cells D)
      (fuel : ℕ) (operator : O → D → O) (op : O)
      → IsList h list cells
      → h fresh ≡ none
      → length cells + 1 < fuel
      → (h' : Heap D) × (list' : LinkedList) × (add_tail h fresh list item ≡ some (h', list'))
        × IsList h' list' (cells ++ ((fresh, item) ∷ []))
        × (operator_linked_list fuel operator h' list' op
            ≡ some (visited operator op (cells ++ ((fresh, item) ∷ []))))
  add_tail-IsList h fresh list item cells fuel operator op ok free enough =
      let (h', list', added, ok') = add_tail-HasCells h fresh list item cells ok free in
      let more = length-append cells ((fresh, item) ∷ []) in
      (
        h',
        list',
        added,
        ok',
        operator_linked_list-visited fuel operator h' list' _ op (omega arith) ok',
      )

  -- `freeLinkedList` of a list that is not empty reads a node that it has freed, with any number of turns.
  pub free_linked_list_fault :
      (fuel : ℕ) (h : Heap D) (list : LinkedList) (a : ℕ) (item : D) (cells : Cells D)
      → IsList h list ((a, item) ∷ cells)
      → free_linked_list fuel h list ≡ none
  unfolding free_linked_list free_loop
  free_linked_list_fault zero h list a item cells ok = refl
  free_linked_list_fault (suc fuel) h list a item cells ok =
      let head = ok.head in
      let here = ok.chain.0 in
      let same : (a == a) ≡ true = ground arith in rw (head, here, same) refl
