-- ===== src/BackupBroker/Accounted.antt =====
-- Nobody holds a dump that no one will release, if a cleanup runs as a whole.
use hola.Prelude.{
  ℕ, String, ◌≡◌, refl, ◌⊎◌, inl, inr, Bool, true, List, [], ◌∷◌, Bool-cases, All, Among,
  Among-of_select, is_some, Option, none, some, leb,
}
use hola.JsonRecordStore.{File, WriteResult, written, read, write}
use hola.BackupBroker.{
  BackupParticipant, Executor, run_post_hooks, go_on, stop, PrepareJob, Installed,
  backup_participants, has_pre_hook, Round, is_prepare_expired, BackupBrokerState,
}
use hola.BackupBroker.Server.{
  Host, open_prepare, read_state, update_state, start_job, continue_job, after_round, finalize_run,
  fire_at, expire_open_prepare_if_stale,
}
use hola.BackupBroker.Hooks.{
  IsHeld, HasPostHook, IsHeld-run_post_hooks, run_post_hooks-releases, IsRoundSound,
  prepare_round-IsRoundSound,
}
use hola.BackupBroker.Events.{
  Event, start, advance, finalize, arrive, fire, after, advance_job, run, write_of, AllReach,
  IsStarted, take_at, Taken, take_at-cases,
}

-- A prepare is open, as the record says.
abbrev IsOpen : Host → Type 0
IsOpen h = is_some (read_state h).open_since ≡ true

module _ (exec : Executor) (deployments : List Installed) (timeout_ms : ℕ) where
  abbrev pub parts : List BackupParticipant
  parts = backup_participants deployments

  -- A job starts only participants of the run.
  abbrev IsOurs : PrepareJob → Type 0
  IsOurs j = (p : BackupParticipant) → Among p j.remaining → Among p parts

  -- Whoever holds a dump is a participant, and if it has a post-hook, then the prepare is open or a
  -- job that is under way started it.
  pub record IsAccounted (h : Host) : Type 0 where
    pub jobs_ours : All IsOurs h.jobs
    pub holders_ours : (p : BackupParticipant) → IsHeld p h.log → Among p parts
    pub accounted :
        (p : BackupParticipant) → HasPostHook p → IsHeld p h.log → IsOpen h ⊎ IsStarted p h.jobs

  -- Every post-hook was run, and the record has changed in any way.
  IsAccounted-released :
      (h : Host) (h' : Host)
      → IsAccounted h
      → h'.jobs ≡ h.jobs
      → h'.log ≡ (run_post_hooks exec parts h.log).1
      → IsAccounted h'
  IsAccounted-released h h' v j l = record {
    jobs_ours = rw j v.jobs_ours;
    holders_ours =
        λ p held. v.holders_ours p (IsHeld-run_post_hooks exec p parts h.log (rw (← l) held));
    accounted = λ p has held.
        let held' : IsHeld p (run_post_hooks exec parts h.log).1 = rw (← l) held in
        absurd (
          run_post_hooks-releases exec p parts h.log has
            (v.holders_ours p (IsHeld-run_post_hooks exec p parts h.log held')) held');
  }

  start_job-IsAccounted :
      (id : String) (h : Host) → IsAccounted h → IsAccounted (start_job deployments id h)
  unfolding start_job read_state
  start_job-IsAccounted id h v = record {
    jobs_ours = (λ p. Among-of_select has_pre_hook p parts, v.jobs_ours);
    holders_ours = v.holders_ours;
    accounted = λ p has held. elim (v.accounted p has held) [
      | inl is_open ↦ inl is_open
      | inr started ↦ inr (inr started)
    ];
  }

  -- A job that was taken out of a host in good order.
  module _ (h : Host) (v : IsAccounted h) (i : ℕ) (t : Taken IsOurs i h.jobs) where
    abbrev others : Host
    others = record h { jobs = t.rest }

    open_prepare-IsAccounted :
        (now : ℕ) (id : String) → IsAccounted (open_prepare timeout_ms now written id others)
    unfolding open_prepare update_state read_state write read
    open_prepare-IsAccounted now id = record {
      jobs_ours = (t.keeps v.jobs_ours).1;
      holders_ours = v.holders_ours;
      accounted = λ p has held. inl refl;
    }

    after_round-IsAccounted :
        (id : String) (p : BackupParticipant) (ps : List BackupParticipant) (r : Round)
        → ((q : BackupParticipant) → Among q (p ∷ ps) → Among q parts)
        → IsRoundSound p t.job.started h.log r
        → IsAccounted (after_round id ps others r)
    unfolding after_round read_state
    after_round-IsAccounted id p ps (stop error log') ours (grows, ends) = record {
      jobs_ours = (t.keeps v.jobs_ours).1;
      holders_ours = λ q held. elim (grows q held) [
        | inl before ↦ v.holders_ours q before
        | inr e ↦ ours q (inl e)
      ];
      accounted = λ q has held. elim (v.accounted q has (ends q has held).0) [
        | inl is_open ↦ inl is_open
        | inr by_job ↦ elim (t.started q by_job) [
          | inl mine ↦ absurd ((ends q has held).1 mine)
          | inr other ↦ inr other
        ]
      ];
    }
    after_round-IsAccounted id p ps (go_on started' log') ours (grows, joins) = record {
      jobs_ours = (λ q left. ours q (inr left), (t.keeps v.jobs_ours).1);
      holders_ours = λ q held. elim (grows q held) [
        | inl before ↦ v.holders_ours q before
        | inr e ↦ ours q (inl e)
      ];
      accounted = λ q has held. elim (grows q held) [
        | inr e ↦ inr (inl (joins q (inr e)))
        | inl before ↦ elim (v.accounted q has before) [
          | inl is_open ↦ inl is_open
          | inr by_job ↦ elim (t.started q by_job) [
            | inl mine ↦ inr (inl (joins q (inl mine)))
            | inr other ↦ inr (inr other)
          ]
        ]
      ];
    }

    continue_job-IsAccounted :
        (gone : Bool) (now : ℕ) (id : String) (remaining : List BackupParticipant)
        → ((q : BackupParticipant) → Among q remaining → Among q parts)
        → IsAccounted
            (continue_job exec timeout_ms gone now written id remaining t.job.started others)
    unfolding continue_job
    continue_job-IsAccounted gone now id [] ours = open_prepare-IsAccounted now id
    continue_job-IsAccounted gone now id (p ∷ ps) ours =
        after_round-IsAccounted id p ps _ ours
          (prepare_round-IsRoundSound exec p t.job.started h.log gone)

  advance-IsAccounted :
      (i : ℕ) (gone : Bool) (now : ℕ) (h : Host)
      → IsAccounted h
      → IsAccounted (advance_job exec deployments timeout_ms gone now written h (take_at i h.jobs))
  unfolding advance_job
  advance-IsAccounted i gone now h v = elim (take_at-cases IsOurs i h.jobs) [
    | inl missing ↦ rw missing v
    | inr t ↦
        rw (t.found) (
          continue_job-IsAccounted h v i t gone now t.job.id t.job.remaining
            (t.keeps v.jobs_ours).0)
  ]

  expire-IsAccounted :
      (now : ℕ) (w : WriteResult) (h : Host)
      → IsAccounted h
      → IsAccounted (expire_open_prepare_if_stale exec deployments timeout_ms now w h)
  unfolding expire_open_prepare_if_stale update_state
  expire-IsAccounted now w h v =
      elim (Bool-cases (is_prepare_expired (read_state h) timeout_ms now)) [
        | inr fresh ↦ rw fresh v
        | inl stale ↦ rw stale (IsAccounted-released h _ v refl refl)
      ]

  disarmed-IsAccounted : (h : Host) → IsAccounted h → IsAccounted (record h { timer = none })
  unfolding read_state
  disarmed-IsAccounted h v = record {
    jobs_ours = v.jobs_ours;
    holders_ours = v.holders_ours;
    accounted = v.accounted;
  }

  fire-IsAccounted :
      (now : ℕ) (w : WriteResult) (h : Host) (timer : Option ℕ)
      → IsAccounted h
      → IsAccounted (fire_at exec deployments timeout_ms now w h timer)
  unfolding fire_at
  fire-IsAccounted now w h none v = v
  fire-IsAccounted now w h (some due) v = elim (Bool-cases (leb due now)) [
    | inr early ↦ rw early v
    | inl late ↦
        rw late (expire-IsAccounted now w (record h { timer = none }) (disarmed-IsAccounted h v))
  ]

  after-IsAccounted :
      (e : Event) (h : Host)
      → write_of e ≡ written
      → IsAccounted h
      → IsAccounted (after exec deployments timeout_ms e h)
  unfolding after finalize_run update_state
  after-IsAccounted (start id) h reach v = start_job-IsAccounted id h v
  after-IsAccounted (advance i gone now w) h reach v = rw reach (advance-IsAccounted i gone now h v)
  after-IsAccounted (finalize now w) h reach v = IsAccounted-released h _ v refl refl
  after-IsAccounted (arrive now w) h reach v = expire-IsAccounted now w h v
  after-IsAccounted (fire now w) h reach v = fire-IsAccounted now w h h.timer v

  run_from-IsAccounted :
      (es : List Event) (h : Host)
      → AllReach es
      → IsAccounted h
      → IsAccounted (run exec deployments timeout_ms es h)
  unfolding run
  run_from-IsAccounted [] h reach v = v
  run_from-IsAccounted (e ∷ es) h reach v =
      run_from-IsAccounted es (after exec deployments timeout_ms e h) reach.1
        (after-IsAccounted e h reach.0 v)

  -- In every run in which a finalize, an expiry and the end of a stopped prepare each run as a whole,
  -- nobody acting between their hooks and the update that follows, and in which each write reaches the
  -- record's file, starting with any record where no hook was called yet: an app whose pre-hook was
  -- called and whose post-hook, which it declares, was not called since is one that the prepare which
  -- is open will release at its end, or was started by a prepare job that is still under way. The
  -- rounds of any number of jobs may come between, and the apps are the same along the run.
  pub run-IsAccounted :
      (es : List Event) (file : File BackupBrokerState) (timer : Option ℕ)
      → AllReach es
      → IsAccounted (
          run exec deployments timeout_ms es
            (record { file = file; timer = timer; log = []; jobs = [] }))
  run-IsAccounted es file timer reach = run_from-IsAccounted es _ reach (record {
    jobs_ours = tt;
    holders_ours = λ p held. absurd held;
    accounted = λ p has held. absurd held;
  })
