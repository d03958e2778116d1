-- ===== src/Tests/Runs.antt =====
-- Whole runs of the matching book on short sequences of calls.
use babo_matching_engine.Prelude.{◌≡◌, refl, true, [], ◌∷◌}
use babo_matching_engine.Order.{oc_no_conditions}
use babo_matching_engine.Book.{on_accept, on_fill}
use babo_matching_engine.Tests.Scenario.{order, log, adds, resting}

-- Best price first, at one price the older order first.
priority_run :
    log (adds 2 resting (order 7 true 11 11 oc_no_conditions ∷ []))
    ≡ on_accept 1
      ∷ on_accept 2
      ∷ on_accept 3
      ∷ on_accept 4
      ∷ on_accept 7
      ∷ on_fill 7 1 5 50
      ∷ on_fill 7 3 4 40
      ∷ on_fill 7 2 2 22
      ∷ []
unfolding adds
priority_run = refl
