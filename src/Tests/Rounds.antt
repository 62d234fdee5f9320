-- ===== src/Tests/Rounds.antt =====
-- metrics/manager: rounds and windows on concrete numbers.
use heapster.Common.{◌+◌, ◌≤◌, ◌<◌, ◌%◌, [], ◌∷◌, some, ◌↔◌, ◌≡◌, refl, arith, length}
use heapster.Common.Result.{Result, ok}
use heapster.Core.Values.{DataBatch}
use heapster.Manager.{
  Manager, Round, token, timeout, new_manager, window, time_to_next_sync, housekeep, finish,
  run_round,
}
use heapster.Manager.Pipeline.{Passes, run_round_lem}
use heapster.Manager.Rounds.{
  Reach, at_start, step_from, tick, done, IsBalanced, new_manager-IsBalanced, window_lem,
}
use heapster.Tests.Data.{pods}

abbrev manager : Manager
manager = new_manager 60 5 2

-- The window of the time 130 by minutes.
minute_window : window manager 130 ≡ record { start = 120; end_time = 180 }
unfolding window new_manager
minute_window = refl

window_lem_example :
    ((window manager 130).start ≤ 130)
    × (130 < (window manager 130).end_time)
    × ((window manager 130).start % manager.resolution ≡ 0)
    × ((window manager 130).end_time ≡ (window manager 130).start + manager.resolution)
    × (130 + time_to_next_sync manager 130 ≡ (window manager 130).end_time + manager.scrape_offset)
    × (manager.scrape_offset < time_to_next_sync manager 130)
unfolding new_manager
window_lem_example = window_lem manager 130 (omega arith)

abbrev round : Round
round = record { start = 120; end_time = 180 }

abbrev second : Round
second = record { start = 180; end_time = 240 }

-- Two rounds begin, a third finds no token, and the first ends.
abbrev at_work : Manager
at_work =
    finish (second ∷ []) []
      (housekeep timeout second (housekeep token second (housekeep token round manager)))

at_work-Reach : Reach manager at_work
unfolding housekeep new_manager
at_work-Reach =
    step_from
      (step_from
        (step_from (step_from at_start (tick _ token round refl)) (tick _ token second refl))
        (tick _ timeout second refl))
      (done _ (second ∷ []) round [] refl)

new_manager-IsBalanced_example : IsBalanced 2 at_work × (length at_work.running ≤ 2)
new_manager-IsBalanced_example = new_manager-IsBalanced 60 5 2 at_work-Reach

abbrev keep : DataBatch → Result DataBatch
keep b = ok b

run_round_lem_example :
    (run_round (ok pods) (keep ∷ keep ∷ []) ≡ some pods)
    ↔ ((b : DataBatch) × (ok pods ≡ ok b) × Passes (keep ∷ keep ∷ []) b pods)
run_round_lem_example = run_round_lem (ok pods) (keep ∷ keep ∷ []) pods
