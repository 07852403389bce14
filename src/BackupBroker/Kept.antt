-- ===== src/BackupBroker/Kept.antt =====
-- The cleanups under way: which hooks they have called, and what an expiry has read.
use hola.Prelude.{
  ◌≡◌, refl, ap, sym, ◌∙◌, ℕ, zero, suc, String, Bool, true, false, Option, none, some, List, [],
  ◌∷◌, ◌++◌, inl, inr, ◌⊎◌, Bool-cases, leb, is_some, Among, All, if◌then◌else◌, clash,
}
use hola.JsonRecordStore.{WriteResult, written}
use hola.BackupBroker.{
  BackupParticipant, Executor, HookCall, pre, post, PrepareJob, Installed, backup_participants,
  run_post_hooks, is_prepare_expired,
}
use hola.BackupBroker.Server.{Host, start_job, read_state, update_state, open_prepare}
use hola.BackupBroker.Hooks.{HasPostHook}
use hola.BackupBroker.Steps.{
  Purpose, finalizing, undoing, expiring, Cleanup, LiveHost, begin_cleanup, begin_finalize,
  begin_expiry, begin_fire_at, end_cleanup, continue_cleanup, continue_prepare, Step, start, round,
  cleanup, finalize, arrive, fire, pick, round_of, cleanup_of, after_step, run_steps,
}

-- The post-hooks of those that have one, apart from those left, have been called.
abbrev pub Served : List BackupParticipant → List BackupParticipant → List HookCall → Type 0
Served parts left log =
    (p : BackupParticipant) → Among p parts → HasPostHook p → Among p left ⊎ Among (post p) log

abbrev pub reach_of : Step → WriteResult
reach_of (start id) = written
reach_of (round i gone now w) = w
reach_of (cleanup i now w) = w
reach_of finalize = written
reach_of (arrive now) = written
reach_of (fire now) = written

-- Each write of the record reaches the file.
abbrev pub AllReached : List Step → Type 0
AllReached = All (λ e. reach_of e ≡ written)

abbrev pub Picked : {A : Type 0} → (A → Type 0) → Option (A × List A) → Type 0
Picked P none = Unit
Picked P (some (x, rest)) = P x × All P rest

pub pick-Picked :
    {A : Type 0} (P : A → Type 0) (i : ℕ) (xs : List A) → All P xs → Picked P (pick i xs)
pick-Picked P i [] h = tt
pick-Picked P zero (y ∷ xs) h = h
pick-Picked {A = A} P (suc i) (y ∷ xs) h = later (pick i xs) (pick-Picked P i xs h.1)
  where
    later :
        (o : Option (A × List A))
        → Picked P o
        → Picked P (elim o as (λ _. Option (A × List A)) [
          | none ↦ none
          | some (z, rest) ↦ some (z, y ∷ rest)
        ])
    later none k = tt
    later (some (z, rest)) k = (k.0, (h.0, k.1))

module _ (exec : Executor) (deployments : List Installed) (timeout_ms : ℕ) where
  abbrev pub parts : List BackupParticipant
  parts = backup_participants deployments

  -- A cleanup under way, after the calls in the log.
  abbrev pub Kept : List HookCall → Purpose → List BackupParticipant → Type 0
  Kept log undoing left = Unit
  Kept log finalizing left = Served parts left log
  Kept log (expiring state at) left =
      (is_prepare_expired state timeout_ms at ≡ true) × Served parts left log

  abbrev pub KeptCleanup : List HookCall → Cleanup → Type 0
  KeptCleanup log c = Kept log c.purpose c.remaining

  abbrev pub IsKept : LiveHost → Type 0
  IsKept s = All (KeptCleanup s.host.log) s.cleanups

  Served-later :
      (left : List BackupParticipant) (log : List HookCall) (call : HookCall)
      → Served parts left log
      → Served parts left (call ∷ log)
  Served-later left log call v p among has = elim (v p among has) [
    | inl to_do ↦ inl to_do
    | inr called ↦ inr (inr called)
  ]

  Kept-later :
      (purpose : Purpose) (left : List BackupParticipant) (log : List HookCall) (call : HookCall)
      → Kept log purpose left
      → Kept (call ∷ log) purpose left
  Kept-later undoing left log call v = tt
  Kept-later finalizing left log call v = Served-later left log call v
  Kept-later (expiring state at) left log call v = (v.0, Served-later left log call v.1)

  All-later :
      (cs : List Cleanup) (log : List HookCall) (call : HookCall)
      → All (KeptCleanup log) cs
      → All (KeptCleanup (call ∷ log)) cs
  All-later [] log call v = tt
  All-later (c ∷ cs) log call v =
      (Kept-later c.purpose c.remaining log call v.0, All-later cs log call v.1)

  -- The log after the hook of one participation.
  one_hook :
      (p : BackupParticipant) (log : List HookCall)
      → ((is_some p.post_hook ≡ true) × ((run_post_hooks exec (p ∷ []) log).1 ≡ post p ∷ log))
        ⊎ ((is_some p.post_hook ≡ false) × ((run_post_hooks exec (p ∷ []) log).1 ≡ log))
  unfolding run_post_hooks
  one_hook p log = elim (Bool-cases (is_some p.post_hook)) [
    | inl has ↦ inl (has, rw (has, run_post_hooks) refl)
    | inr without ↦ inr (without, rw (without, run_post_hooks) refl)
  ]

  Served-hook :
      (p : BackupParticipant) (ps : List BackupParticipant) (log : List HookCall)
      → Served parts (p ∷ ps) log
      → Served parts ps (run_post_hooks exec (p ∷ []) log).1
  Served-hook p ps log v q among has = elim (one_hook p log) [
    | inl (runs, called) ↦ rw called (elim (v q among has) [
      | inl (inl here) ↦ inr (inl (ap post here))
      | inl (inr later) ↦ inl later
      | inr before ↦ inr (inr before)
    ])
    | inr (without, none_called) ↦ rw none_called (elim (v q among has) [
      | inl (inl here) ↦
          absurd
            (clash (is_some q.post_hook) has (sym (ap (λ r. is_some r.post_hook) here) ∙ without))
      | inl (inr later) ↦ inl later
      | inr before ↦ inr before
    ])
  ]

  Kept-hook :
      (purpose : Purpose) (p : BackupParticipant) (ps : List BackupParticipant)
      (log : List HookCall)
      → Kept log purpose (p ∷ ps)
      → Kept (run_post_hooks exec (p ∷ []) log).1 purpose ps
  Kept-hook undoing p ps log v = tt
  Kept-hook finalizing p ps log v = Served-hook p ps log v
  Kept-hook (expiring state at) p ps log v = (v.0, Served-hook p ps log v.1)

  All-hook :
      (p : BackupParticipant) (cs : List Cleanup) (log : List HookCall)
      → All (KeptCleanup log) cs
      → All (KeptCleanup (run_post_hooks exec (p ∷ []) log).1) cs
  All-hook p cs log v = elim (one_hook p log) [
    | inl (runs, called) ↦ rw called (All-later cs log (post p) v)
    | inr (without, none_called) ↦ rw none_called v
  ]

  Served-all : (log : List HookCall) → Served parts parts log
  Served-all log p among has = inl among

  -- The end of a cleanup leaves the log.
  end-log :
      (now : ℕ) (purpose : Purpose) (h : Host) → (end_cleanup now written purpose h).log ≡ h.log
  unfolding end_cleanup update_state
  end-log now undoing h = refl
  end-log now finalizing h = refl
  end-log now (expiring state at) h = refl

  cleanup-IsKept :
      (now : ℕ) (purpose : Purpose) (left : List BackupParticipant) (s : LiveHost)
      → Kept s.host.log purpose left
      → IsKept s
      → IsKept (continue_cleanup exec now written purpose left s)
  unfolding continue_cleanup begin_cleanup
  cleanup-IsKept now purpose [] s k v = rw (end-log now purpose s.host) v
  cleanup-IsKept now purpose (p ∷ ps) s k v =
      (Kept-hook purpose p ps s.host.log k, All-hook p s.cleanups s.host.log v)

  cleanup_of-IsKept :
      (now : ℕ) (s : LiveHost) (o : Option (Cleanup × List Cleanup))
      → Picked (KeptCleanup s.host.log) o
      → IsKept s
      → IsKept (cleanup_of exec deployments timeout_ms now written s o)
  unfolding cleanup_of
  cleanup_of-IsKept now s none k v = v
  cleanup_of-IsKept now s (some (c, rest)) k v =
      cleanup-IsKept now c.purpose c.remaining (record s { cleanups = rest }) k.0 k.1

  prepare-IsKept :
      (gone : Bool) (now : ℕ) (id : String) (left started : List BackupParticipant) (s : LiveHost)
      → IsKept s
      → IsKept (continue_prepare exec timeout_ms gone now written id left started s)
  unfolding continue_prepare open_prepare update_state begin_cleanup
  prepare-IsKept gone now id [] started s v = v
  prepare-IsKept gone now id (p ∷ ps) started s v = by_tests gone ((exec s.host.log (pre p)).ok)
    where
      by_tests :
          (g o : Bool)
          → IsKept (
              if g
              then begin_cleanup undoing started s
              else if o
              then record s {
                host = record (s.host) {
                  log = pre p ∷ s.host.log;
                  jobs =
                      (record { id = id; remaining = ps; started = started ++ p ∷ [] })
                      ∷ s.host.jobs;
                };
              }
              else begin_cleanup undoing
                  (started ++ p ∷ [])
                  (record s { host = record (s.host) { log = pre p ∷ s.host.log } }))
      by_tests true o = (tt, v)
      by_tests false true = All-later s.cleanups s.host.log (pre p) v
      by_tests false false = (tt, All-later s.cleanups s.host.log (pre p) v)

  round-IsKept :
      (gone : Bool) (now : ℕ) (s : LiveHost) (o : Option (PrepareJob × List PrepareJob))
      → IsKept s
      → IsKept (round_of exec deployments timeout_ms gone now written s o)
  unfolding round_of
  round-IsKept gone now s none v = v
  round-IsKept gone now s (some (j, rest)) v =
      prepare-IsKept gone now j.id j.remaining j.started
        (record s { host = record (s.host) { jobs = rest } }) v

  expiry-IsKept :
      (now : ℕ) (s : LiveHost) → IsKept s → IsKept (begin_expiry deployments timeout_ms now s)
  unfolding begin_expiry begin_cleanup
  expiry-IsKept now s v =
      elim (Bool-cases (is_prepare_expired (read_state s.host) timeout_ms now)) [
        | inr fresh ↦ rw fresh v
        | inl stale ↦ rw stale ((stale, Served-all s.host.log), v)
      ]

  fire-IsKept :
      (now : ℕ) (s : LiveHost) (timer : Option ℕ)
      → IsKept s
      → IsKept (begin_fire_at deployments timeout_ms now s timer)
  unfolding begin_fire_at
  fire-IsKept now s none v = v
  fire-IsKept now s (some due) v = elim (Bool-cases (leb due now)) [
    | inr early ↦ rw early v
    | inl late ↦
        rw late (expiry-IsKept now (record s { host = record (s.host) { timer = none } }) v)
  ]

  step-IsKept :
      (e : Step) (s : LiveHost)
      → reach_of e ≡ written
      → IsKept s
      → IsKept (after_step exec deployments timeout_ms e s)
  unfolding after_step start_job begin_finalize begin_cleanup
  step-IsKept (start id) s reach v = v
  step-IsKept (round i gone now w) s reach v =
      rw reach (round-IsKept gone now s (pick i s.host.jobs) v)
  step-IsKept (cleanup i now w) s reach v = rw reach (
      cleanup_of-IsKept now s (pick i s.cleanups)
        (pick-Picked (KeptCleanup s.host.log) i s.cleanups v) v)
  step-IsKept finalize s reach v = (Served-all s.host.log, v)
  step-IsKept (arrive now) s reach v = expiry-IsKept now s v
  step-IsKept (fire now) s reach v = fire-IsKept now s s.host.timer v

  pub run-IsKept :
      (es : List Step) (s : LiveHost)
      → AllReached es
      → IsKept s
      → IsKept (run_steps exec deployments timeout_ms es s)
  unfolding run_steps
  run-IsKept [] s reach v = v
  run-IsKept (e ∷ es) s reach v =
      run-IsKept es (after_step exec deployments timeout_ms e s) reach.1 (step-IsKept e s reach.0 v)
