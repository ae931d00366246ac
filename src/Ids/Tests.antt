-- ===== src/Ids/Tests.antt =====
-- A namespace in use, and the theorems about it.
use libdwarfparser.Prelude.{◌+◌, ◌≡◌, ◌≤◌, refl, List, [], ◌∷◌, arith}
use libdwarfparser.Ids.{Call, get_id_of, get_rev_id_of, init, get_id, get_rev_id, step, run}
use libdwarfparser.Map.{at_or, assign, touch}
use libdwarfparser.Ids.Consistency.{IsConsistent, init-IsConsistent}
use libdwarfparser.Ids.History.{run-IsConsistent, reached_round_trip}

abbrev calls : List Call
calls = get_id_of (0x2d, 1) ∷ get_rev_id_of 7 ∷ get_id_of (0x2d, 2) ∷ get_id_of (0x2d, 1) ∷ []

two_issued : (run init calls).current_id ≡ 2
unfolding run step get_id get_rev_id at_or assign touch
two_issued = refl

run-IsConsistent_example :
    IsConsistent (run init calls) × ((run init calls).current_id ≤ init.current_id + 4)
run-IsConsistent_example = run-IsConsistent init calls (omega arith) init-IsConsistent

reached_round_trip_example :
    (get_rev_id (get_id (run init calls) (0x40, 3)).1 (get_id (run init calls) (0x40, 3)).0).0
    ≡ (0x40, 3)
reached_round_trip_example = reached_round_trip calls (0x40, 3) (omega arith)
