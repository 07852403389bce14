-- ===== src/Tests/Dispatch.antt =====
-- Runs of the dispatcher with two slots, and of the job table.
use hola.Prelude.{str_eq, ◌≡◌, refl, inr, String, Bool, none, some, List, [], ◌∷◌, arith}
use hola.Jobs.{
  Entry, Event, create, job_ends, enter, run, after, enqueue, tick, tick_loop, dispatch,
  take_runnable, take_first, finish, leave, acquire, release, fresh_scheduler,
}
use hola.Jobs.Exclusion.{run-IsSound}
use hola.Jobs.Sound.{IsSound}
use hola.Jobs.Progress.{IsSaturated, run-IsSaturated}
use hola.JobTable.{Status, Table, JobEntity, Service, find_by_id, cancel_job}
use hola.JobTable.Outcomes.{HasDistinctIds, cancel_job-keeps_outcome}

abbrev events : List Event
events =
    create "j1" (some "wiki")
    ∷ create "j2" (some "wiki")
    ∷ create "j3" (some "blog")
    ∷ enter "blog" "teardown"
    ∷ job_ends "j3"
    ∷ []

unfoldable running : Unit {0}
unfolding run after enqueue tick tick_loop dispatch take_runnable take_first finish leave acquire
    release
running = tt

-- The second job of the busy deployment waits; the third runs beside the first.
second_waits :
    (run 2 events fresh_scheduler).queue ≡ record { id = "j2"; deployment_id = some "wiki" } ∷ []
unfolding running
second_waits = refl

teardown_inside :
    (run 2 events fresh_scheduler).inside ≡ record { key = "blog"; name = "teardown" } ∷ []
unfolding running
teardown_inside = refl

fresh-IsSound : IsSound 2 fresh_scheduler
fresh-IsSound = record {
  held_once = λ k. refl;
  nobody_waits = λ k h. refl;
  counted = refl;
  bounded = omega arith;
}

run-IsSound_example : IsSound 2 (run 2 events fresh_scheduler)
run-IsSound_example = run-IsSound 2 events fresh_scheduler fresh-IsSound

run-IsSaturated_example : IsSaturated 2 (run 2 events fresh_scheduler)
run-IsSaturated_example = run-IsSaturated 2 events fresh_scheduler (inr tt)

abbrev two : List Entry
two =
    record { id = "j2"; deployment_id = some "wiki" }
    ∷ record { id = "j3"; deployment_id = some "blog" }
    ∷ []

abbrev wiki_held : String → Bool
wiki_held k = str_eq k "wiki"

abbrev done : JobEntity
done = record {
  id = "j0";
  kind = "install";
  status = Status.completed;
  deployment_id = some "wiki";
  error = none;
  progress = 100;
  created_at = 1;
  started_at = some 2;
  completed_at = some 3;
  cancelled_at = none;
}

abbrev under_way : JobEntity
under_way = record done { id = "j1"; status = Status.running; completed_at = none }

abbrev waiting : JobEntity
waiting = record under_way { id = "j2"; status = Status.pending; started_at = none }

abbrev table : Table
table = waiting ∷ under_way ∷ done ∷ []

abbrev service : Service
service = record { table = table; flagged = []; scheduler = fresh_scheduler }

table_distinct : HasDistinctIds table
table_distinct = (refl, (refl, (refl, tt)))

cancel_job-keeps_outcome_example : find_by_id "j0" (cancel_job 9 "j2" service).table ≡ some done
cancel_job-keeps_outcome_example = cancel_job-keeps_outcome 9 "j2" "j0" service done refl refl
