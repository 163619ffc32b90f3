-- ===== src/Tests/Lists.antt =====
-- The theorem on core/os_list.c at a list of three nodes.
use ahura_kernel.Prelude.{[], ◌∷◌, arith}
use ahura_kernel.Linked.{Store, list_init, push_back, insert_before, list_remove}
use ahura_kernel.Linked.Relink.{IsList}
use ahura_kernel.Linked.Run.{Calls, Calls-IsList}
use ahura_kernel.Linked.Run

abbrev store : Store
store = record {
  node = λ n. record { next = 9; prev = 9 };
  ends = λ l. record { head = 9; tail = 9 };
}

two_pushed : Calls 7 (push_back 7 6 (push_back 7 5 (list_init 7 store))) (5 ∷ 6 ∷ [])
two_pushed =
    Run.Calls.push 6 (omega arith) (omega arith, tt)
      (Run.Calls.push 5 (omega arith) tt (Run.Calls.start store))

one_removed :
    Calls 7
      (list_remove 7 5 (insert_before 7 6 4 (push_back 7 6 (push_back 7 5 (list_init 7 store)))))
      (4 ∷ 6 ∷ [])
one_removed =
    Run.Calls.remove [] 5 (4 ∷ 6 ∷ [])
      (Run.Calls.insert (5 ∷ []) 6 4 [] (omega arith) (omega arith, (omega arith, tt)) two_pushed)

-- Then a node goes in at the end, and a NULL node nowhere.
last_inserted :
    Calls 7
      (insert_before 7 4 0 (
        insert_before 7 0 8 (
          list_remove 7 5
            (insert_before 7 6 4 (push_back 7 6 (push_back 7 5 (list_init 7 store)))))))
      (4 ∷ 6 ∷ 8 ∷ [])
last_inserted =
    Run.Calls.insert_null 4
      (Run.Calls.insert_last 8 (omega arith) (omega arith, (omega arith, tt)) one_removed)

Calls-IsList_example :
    IsList
      (insert_before 7 4 0 (
        insert_before 7 0 8 (
          list_remove 7 5
            (insert_before 7 6 4 (push_back 7 6 (push_back 7 5 (list_init 7 store)))))))
      7
      (4 ∷ 6 ∷ 8 ∷ [])
Calls-IsList_example = Calls-IsList 7 _ (4 ∷ 6 ∷ 8 ∷ []) (omega arith) last_inserted
