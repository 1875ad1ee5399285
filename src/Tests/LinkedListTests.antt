-- ===== src/Tests/LinkedListTests.antt =====
-- Lists built by `list_insert` at the addresses 16, 32 and 48.
use garn_os.Prelude.{◌≡◌, refl, arith, true, false, none, [], ◌∷◌}
use garn_os.Prelude.Exec.{Exec, done}
use garn_os.LinkedList.{Store, list_create, list_insert, list_remove, list_remove_index}
use garn_os.LinkedList.Chain.{IsList}
use garn_os.LinkedList.Calls.{list_insert-IsList, list_remove-IsList}

abbrev pub blank : Store
blank = record { node = λ a. none; head = 0; tail = 0; node_count = 0 }

pub blank-IsList : IsList blank []
blank-IsList = record { chain = refl; distinct = tt; tail = refl; few = omega arith; count = refl }

created : list_create (λ a. none) ≡ blank
unfolding list_create
created = refl

list_insert-IsList_example :
    (l' : Store) × (list_insert blank 16 7 ≡ done l') × IsList l' ((16, 7) ∷ [])
list_insert-IsList_example =
    list_insert-IsList blank 16 7 [] blank-IsList (omega arith) tt (omega arith)

abbrev pub result : Exec Store → Store
result (done l) = l
result _ = blank

abbrev pub two : Store
two = result (list_insert (result (list_insert blank 16 7)) 32 9)

pub two-IsList : IsList two ((16, 7) ∷ (32, 9) ∷ [])
unfolding list_insert
two-IsList = record {
  chain = (refl, omega arith, (32, refl, (refl, omega arith, (0, refl, refl))));
  distinct = ((omega arith, tt), (tt, tt));
  tail = refl;
  few = omega arith;
  count = refl;
}

list_remove-IsList_example :
    ((l' : Store) × (list_remove 5 two 9 ≡ done (true, l')) × IsList l' ((16, 7) ∷ []))
    × ((l' : Store) × (list_remove_index 5 two 9 ≡ done (false, l'))
        × IsList l' ((16, 7) ∷ (32, 9) ∷ []))
list_remove-IsList_example =
    list_remove-IsList 5 two ((16, 7) ∷ (32, 9) ∷ []) 9 two-IsList (omega arith)
