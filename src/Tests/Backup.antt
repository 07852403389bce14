-- ===== src/Tests/Backup.antt =====
-- A host with two apps that accept backups.
use hola.Prelude.{
  ◌≡◌, refl, ℕ, String, Bool, true, false, none, some, List, [], ◌∷◌, err, leb, str_eq, ◌+◌,
}
use hola.JsonRecordStore.{written, missing, read, write}
use hola.RestoreBroker.{iso}
use hola.BackupBroker.{
  Executor, HookCall, pre, post, Hook, HookedParticipation, Installed, throws, manifest,
  backup_participants, participants_loop, sort_by_id, place_by_id, BackupParticipant,
  pre_hook_failed, prepare_loop, prepare_round, run_post_hooks, is_prepare_expired,
}
use hola.BackupBroker.Server.{
  Host, read_state, run_contract_backup_prepare, end_job, open_prepare, update_state, start_job,
  continue_job, after_round, finalize_run, expire_open_prepare_if_stale, fire_at, fire_timer,
}
use hola.BackupBroker.Prepare.{IsPrepared, run_contract_backup_prepare_undone}
use hola.BackupBroker.Events.{Event, start, advance, fire, run, after, advance_job}
use hola.BackupBroker.Accounted.{IsAccounted, run-IsAccounted}
use hola.BackupBroker.Kept.{AllReached}
use hola.BackupBroker.Lease.{LeaseStep, lease, run-LeaseStep}
use hola.BackupBroker.Steps.{
  Step, round, cleanup, LiveHost, begin_cleanup, begin_finalize, begin_expiry, end_cleanup,
  continue_cleanup, continue_prepare, round_of, cleanup_of, after_step, run_steps,
}
use hola.BackupBroker.Timer.{timer_ends_prepare}
use hola.Versions.{compare_units}

abbrev hook : Hook
hook = record { service = "db"; command = "pg_dump" ∷ [] }

abbrev both_hooks : HookedParticipation
both_hooks = record { id = "default"; pre_hook = some hook; post_hook = some hook }

abbrev app : String → Installed
app id = record {
  id = id;
  is_running = true;
  active = manifest (some ("backup@1" ∷ [])) (both_hooks ∷ []);
}

abbrev apps : List Installed
apps = app "wiki" ∷ (record { id = "broken"; is_running = true; active = throws }) ∷ app "chat" ∷ []

abbrev part : String → BackupParticipant
part id = record {
  deployment_id = id;
  participation_id = "default";
  pre_hook = some hook;
  post_hook = some hook;
}

ordered : backup_participants apps ≡ part "chat" ∷ part "wiki" ∷ []
unfolding backup_participants participants_loop sort_by_id place_by_id compare_units
ordered = refl

-- The dump of `wiki` fails.
abbrev wiki_fails : Executor
wiki_fails log (pre p) = record { ok = str_eq p.deployment_id "chat"; output = none }
wiki_fails log (post p) = record { ok = true; output = none }

abbrev works : Executor
works log call = record { ok = true; output = none }

abbrev never : List HookCall → Bool
never log = false

abbrev fresh : Host
fresh = record { file = missing; timer = none; log = []; jobs = [] }

-- What the calls compute with.
backup_calls : Unit {0}
unfolding backup_participants participants_loop sort_by_id place_by_id compare_units read_state
    run_contract_backup_prepare end_job prepare_loop prepare_round run_post_hooks open_prepare
    update_state start_job continue_job after_round finalize_run expire_open_prepare_if_stale
    is_prepare_expired fire_at run after advance_job lease read write begin_cleanup begin_finalize
    begin_expiry end_cleanup continue_cleanup continue_prepare round_of cleanup_of after_step
    run_steps
backup_calls = tt

failed_prepare_cleans_up :
    run_contract_backup_prepare wiki_fails never apps 1800000 1000 written "j1" fresh ≡ (
      err (pre_hook_failed (part "wiki")),
      record fresh {
        log = post (part "wiki") ∷ post (part "chat") ∷ pre (part "wiki") ∷ pre (part "chat") ∷ [];
      },
    )
unfolding backup_calls
failed_prepare_cleans_up = refl

run_contract_backup_prepare_undone_example :
    IsPrepared wiki_fails apps 1800000 1000 written "j1" fresh
      (run_contract_backup_prepare wiki_fails never apps 1800000 1000 written "j1" fresh)
run_contract_backup_prepare_undone_example =
    run_contract_backup_prepare_undone wiki_fails apps 1800000 1000 written "j1" fresh never

-- A prepare of two rounds that opens, a second job that has begun, and the time that passes.
abbrev events : List Event
events =
    start "j1"
    ∷ advance 0 false 10 written
    ∷ advance 0 false 20 written
    ∷ advance 0 false 1000 written
    ∷ start "j2"
    ∷ advance 0 false 1010 written
    ∷ fire 1500 written
    ∷ []

run-IsAccounted_example : IsAccounted works apps 1800000 (run works apps 1800000 events fresh)
run-IsAccounted_example =
    run-IsAccounted works apps 1800000 events missing none
      (refl, (refl, (refl, (refl, (refl, (refl, (refl, tt)))))))

-- A finalize whose hooks a second prepare overtakes.
abbrev steps : List Step
steps =
    Step.start "j1"
    ∷ round 0 false 10 written
    ∷ round 0 false 20 written
    ∷ round 0 false 1000 written
    ∷ Step.finalize
    ∷ cleanup 0 1050 written
    ∷ cleanup 0 1060 written
    ∷ Step.start "j2"
    ∷ round 0 false 1070 written
    ∷ round 0 false 1080 written
    ∷ round 0 false 1090 written
    ∷ []

abbrev overtaken : LiveHost
overtaken = run_steps works apps 1800000 steps (record { host = fresh; cleanups = [] })

abbrev ended : LiveHost
ended = after_step works apps 1800000 (cleanup 0 1100 written) overtaken

steps_reach : AllReached steps
steps_reach =
    (refl, (refl, (refl, (refl, (refl, (refl, (refl, (refl, (refl, (refl, (refl, tt)))))))))))

run-LeaseStep_example :
    LeaseStep apps 1800000 overtaken
      (cleanup 0 1100 written)
      (lease overtaken.host)
      (lease ended.host)
run-LeaseStep_example =
    run-LeaseStep works apps 1800000 steps (cleanup 0 1100 written) fresh steps_reach refl

-- The finalize of the first prepare closes the second, whose apps are left with what their
-- pre-hooks made: nothing is open, no timer is armed and nothing is under way.
overtaken_stranded :
    ((read_state ended.host).open_since ≡ none)
    × (ended.host.timer ≡ none)
    × (ended.host.jobs ≡ [])
    × (ended.cleanups ≡ [])
    × (ended.host.log
        ≡ pre (part "wiki")
          ∷ pre (part "chat")
          ∷ post (part "wiki")
          ∷ post (part "chat")
          ∷ pre (part "wiki")
          ∷ pre (part "chat")
          ∷ [])
unfolding backup_calls
overtaken_stranded = (refl, refl, refl, refl, refl)

opened_then : (read_state (run works apps 1800000 events fresh)).open_since ≡ some (iso 1000)
unfolding backup_calls
opened_then = refl

nothing_open : (read_state fresh).open_since ≡ none
unfolding backup_calls
nothing_open = refl

timer_ends_prepare_example :
    (opened_at : ℕ) × (iso 1000 ≡ iso opened_at)
    × ((run works apps 1800000 events fresh).timer ≡ some (opened_at + 1800000))
    × ((now : ℕ)
        → leb (opened_at + 1800000) now ≡ true
        → (read_state (
            fire_timer works apps 1800000 now written
              (run works apps 1800000 events fresh))).open_since
          ≡ none)
timer_ends_prepare_example =
    timer_ends_prepare works apps 1800000 events fresh (iso 1000)
      (refl, (refl, (refl, (refl, (refl, (refl, (refl, tt))))))) nothing_open opened_then

-- With the first prepare open and a cleanup of another caller waiting.
abbrev opened_host : LiveHost
opened_host =
    run_steps works apps 1800000
      (Step.start "j1"
        ∷ round 0 false 10 written
        ∷ round 0 false 20 written
        ∷ round 0 false 1000 written
        ∷ Step.finalize
        ∷ [])
      (record { host = fresh; cleanups = [] })
