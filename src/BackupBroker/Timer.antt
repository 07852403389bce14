-- ===== src/BackupBroker/Timer.antt =====
-- The timer that the server arms for an open prepare.
use mathlib.Core.Path.{subst}
use hola.Prelude.{
  ◌≡◌, refl, ◌⊎◌, sym, ℕ, ◌+◌, String, Bool, true, false, Option, none, some, List, [], ◌∷◌, inl,
  inr, Bool-cases, Option-cases, leb, arith,
}
use hola.JsonRecordStore.{written, read, write}
use hola.RestoreBroker.{Stamp, iso}
use hola.BackupBroker.{
  BackupParticipant, Executor, PrepareJob, Installed, Round, go_on, stop, is_prepare_expired,
}
use hola.BackupBroker.Server.{
  Host, start_job, read_state, update_state, closed, open_prepare, after_round, continue_job,
  finalize_run, expire_open_prepare_if_stale, fire_at, fire_timer,
}
use hola.BackupBroker.Events.{
  Event, start, advance, finalize, arrive, fire, after, advance_job, run, write_of, AllReach,
  take_at,
}

-- An open prepare has the timer armed for the end of its timeout.
record IsTimedOn (timeout_ms : ℕ) (since : Stamp) (timer : Option ℕ) : Type 0 where
  pub opened_at : ℕ
  pub dated : since ≡ iso opened_at
  pub armed : timer ≡ some (opened_at + timeout_ms)

abbrev IsTimed : ℕ → Host → Type 0
IsTimed timeout_ms h =
    (since : Stamp) → (read_state h).open_since ≡ some since → IsTimedOn timeout_ms since h.timer

module _ (exec : Executor) (deployments : List Installed) (timeout_ms : ℕ) where
  closed-IsTimed :
      (now : ℕ) (b : Bool) (h : Host) → IsTimed timeout_ms (update_state written (closed now b) h)
  unfolding update_state read_state read write
  closed-IsTimed now b h since on = absurd (cc)

  expire-IsTimed :
      (now : ℕ) (h : Host)
      → IsTimed timeout_ms h
      → IsTimed timeout_ms (expire_open_prepare_if_stale exec deployments timeout_ms now written h)
  unfolding expire_open_prepare_if_stale
  expire-IsTimed now h v = elim (Bool-cases (is_prepare_expired (read_state h) timeout_ms now)) [
    | inr fresh ↦ rw fresh v
    | inl stale ↦ rw stale (closed-IsTimed now true _)
  ]

  open-expired :
      (now : ℕ) (h : Host)
      → is_prepare_expired (read_state h) timeout_ms now ≡ true
      → (read_state
          (expire_open_prepare_if_stale exec deployments timeout_ms now written h)).open_since
        ≡ none
  unfolding expire_open_prepare_if_stale read_state update_state read write
  open-expired now h stale = ground arith

  open-unopened :
      (now : ℕ) (h : Host)
      → (read_state h).open_since ≡ none
      → (read_state
          (expire_open_prepare_if_stale exec deployments timeout_ms now written h)).open_since
        ≡ none
  unfolding expire_open_prepare_if_stale is_prepare_expired
  open-unopened now h off = ground arith

  -- When the timer comes up, what it was armed for has expired.
  due-expired :
      (now due : ℕ) (h : Host)
      → leb due now ≡ true
      → h.timer ≡ some due
      → IsTimed timeout_ms h
      → is_prepare_expired (read_state h) timeout_ms now ≡ true ⊎ ((read_state h).open_since ≡ none)
  unfolding is_prepare_expired
  due-expired now due h late armed v = elim (Option-cases (read_state h).open_since) [
    | inl off ↦ inr off
    | inr (since, on) ↦ (let t = v since on in inl (ground (arith, t.dated, t.armed)))
  ]

  open_prepare-IsTimed :
      (now : ℕ) (id : String) (h : Host)
      → IsTimed timeout_ms (open_prepare timeout_ms now written id h)
  unfolding open_prepare update_state read_state read write
  open_prepare-IsTimed now id h since on = record {
    opened_at = now;
    dated = ground arith;
    armed = refl;
  }

  after_round-IsTimed :
      (id : String) (ps : List BackupParticipant) (h : Host) (r : Round)
      → IsTimed timeout_ms h
      → IsTimed timeout_ms (after_round id ps h r)
  unfolding after_round read_state
  after_round-IsTimed id ps h (stop error log) v = v
  after_round-IsTimed id ps h (go_on started log) v = v

  continue-IsTimed :
      (gone : Bool) (now : ℕ) (id : String) (remaining started : List BackupParticipant) (h : Host)
      → IsTimed timeout_ms h
      → IsTimed timeout_ms (continue_job exec timeout_ms gone now written id remaining started h)
  unfolding continue_job
  continue-IsTimed gone now id [] started h v = open_prepare-IsTimed now id h
  continue-IsTimed gone now id (p ∷ ps) started h v = after_round-IsTimed id ps h _ v

  advance-IsTimed :
      (gone : Bool) (now : ℕ) (h : Host) (taken : Option (PrepareJob × List PrepareJob))
      → IsTimed timeout_ms h
      → IsTimed timeout_ms (advance_job exec deployments timeout_ms gone now written h taken)
  unfolding advance_job read_state
  advance-IsTimed gone now h none v = v
  advance-IsTimed gone now h (some (j, rest)) v =
      continue-IsTimed gone now j.id j.remaining j.started (record h { jobs = rest }) v

  disarmed_state : (h : Host) → read_state (record h { timer = none }) ≡ read_state h
  unfolding read_state
  disarmed_state h = refl

  -- The timer's callback leaves no prepare open if it comes when the timer is due.
  open-due :
      (now due : ℕ) (h : Host)
      → leb due now ≡ true
      → h.timer ≡ some due
      → IsTimed timeout_ms h
      → (read_state (fire_at exec deployments timeout_ms now written h (some due))).open_since
        ≡ none
  unfolding fire_at
  open-due now due h late armed v = rw late (elim (due-expired now due h late armed v) [
    | inl stale ↦ open-expired now (record h { timer = none }) (rw (disarmed_state h) stale)
    | inr off ↦ open-unopened now (record h { timer = none }) (rw (disarmed_state h) off)
  ])

  open-fired :
      (now due : ℕ) (h : Host)
      → leb due now ≡ true
      → h.timer ≡ some due
      → IsTimed timeout_ms h
      → (read_state (fire_timer exec deployments timeout_ms now written h)).open_since ≡ none
  open-fired now due h late armed v =
      subst
        (λ timer.
          (read_state (fire_at exec deployments timeout_ms now written h timer)).open_since ≡ none)
        (sym armed) (open-due now due h late armed v)

  fire-IsTimed :
      (now : ℕ) (h : Host) (timer : Option ℕ)
      → h.timer ≡ timer
      → IsTimed timeout_ms h
      → IsTimed timeout_ms (fire_at exec deployments timeout_ms now written h timer)
  unfolding fire_at
  fire-IsTimed now h none armed v = v
  fire-IsTimed now h (some due) armed v = elim (Bool-cases (leb due now)) [
    | inr early ↦ rw early v
    | inl late ↦ λ since on. absurd (cc (open-due now due h late armed v))
  ]

  after-IsTimed :
      (e : Event) (h : Host)
      → write_of e ≡ written
      → IsTimed timeout_ms h
      → IsTimed timeout_ms (after exec deployments timeout_ms e h)
  unfolding after start_job finalize_run read_state
  after-IsTimed (start id) h reach v = v
  after-IsTimed (advance i gone now w) h reach v =
      rw reach (advance-IsTimed gone now h (take_at i h.jobs) v)
  after-IsTimed (finalize now w) h reach v = rw reach (closed-IsTimed now false _)
  after-IsTimed (arrive now w) h reach v = rw reach (expire-IsTimed now h v)
  after-IsTimed (fire now w) h reach v = rw reach (fire-IsTimed now h h.timer refl v)

  run-IsTimed :
      (es : List Event) (h : Host)
      → AllReach es
      → IsTimed timeout_ms h
      → IsTimed timeout_ms (run exec deployments timeout_ms es h)
  unfolding run
  run-IsTimed [] h reach v = v
  run-IsTimed (e ∷ es) h reach v =
      run-IsTimed es (after exec deployments timeout_ms e h) reach.1 (after-IsTimed e h reach.0 v)

  -- After any run in which a finalize and an expiry each run as a whole and each write reaches the
  -- record's file, starting where no prepare is open: if a prepare is open, then its stamp is a time, the timer is
  -- armed for that time plus the timeout, and its callback, at that time or later, leaves no prepare
  -- open.
  pub timer_ends_prepare :
      (es : List Event) (h : Host) (since : Stamp)
      → AllReach es
      → (read_state h).open_since ≡ none
      → (read_state (run exec deployments timeout_ms es h)).open_since ≡ some since
      → (opened_at : ℕ) × (since ≡ iso opened_at)
        × ((run exec deployments timeout_ms es h).timer ≡ some (opened_at + timeout_ms))
        × ((now : ℕ)
            → leb (opened_at + timeout_ms) now ≡ true
            → (read_state (
                fire_timer exec deployments timeout_ms now written
                  (run exec deployments timeout_ms es h))).open_since
              ≡ none)
  timer_ends_prepare es h since reach off on =
      let timed = run-IsTimed es h reach (λ s open_now. absurd (cc)) in
      let t = timed since on in
      (
        t.opened_at,
        t.dated,
        t.armed,
        λ now late.
            open-fired now (t.opened_at + timeout_ms) (run exec deployments timeout_ms es h) late
              t.armed timed,
      )
