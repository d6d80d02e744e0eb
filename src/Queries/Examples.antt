-- ===== src/Queries/Examples.antt =====
-- Requests of two plugins.
use reapi.Prelude.Int.{pos}
use reapi.Prelude.{◌+◌, ◌≡◌, true, List, [], ◌∷◌}
use reapi.Queries.Balance.{
  Op, apply_all, apply_all-count, count_added, count_handlers, count_removed, registers,
  unregisters,
}
use reapi.Queries.{res_exists}

abbrev ops : List Op
ops =
    registers (97 ∷ []) true (pos 5) 9 res_exists (pos 1)
    ∷ registers (98 ∷ []) true (pos 6) 9 res_exists (pos 1)
    ∷ unregisters (pos 5)
    ∷ []

apply_all-count_example :
    let (qs', es) = apply_all ops [] in
    count_handlers 9 [] + count_added 9 es ≡ count_removed 9 es + count_handlers 9 qs'
apply_all-count_example = apply_all-count 9 ops []
