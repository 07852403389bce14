-- ===== src/BackupBroker/Lease.antt =====
-- What the broker promises a provider, as a lease: it begins when a prepare completes, and ends when
-- the provider finalizes or when it has lasted for the timeout.
use hola.Prelude.{
  ◌≡◌, refl, ℕ, String, Bool, true, false, Option, none, some, List, [], ◌∷◌, ◌++◌, inl, inr,
  Bool-cases, Option-cases, leb, arith, Among, if◌then◌else◌,
}
use hola.JsonRecordStore.{WriteResult, written, read, write}
use hola.RestoreBroker.{Stamp, iso}
use hola.BackupBroker.{
  BackupParticipant, Executor, pre, post, BackupBrokerState, PrepareJob, Installed,
  backup_participants, is_stamp_expired, is_prepare_expired,
}
use hola.BackupBroker.Server.{Host, start_job, read_state, update_state, closed, open_prepare}
use hola.BackupBroker.Hooks.{HasPostHook}
use hola.BackupBroker.Steps.{
  Purpose, finalizing, undoing, expiring, Cleanup, LiveHost, begin_cleanup, begin_finalize,
  begin_expiry, begin_fire_at, end_cleanup, continue_cleanup, continue_prepare, Step, start, round,
  cleanup, finalize, arrive, fire, pick, round_of, cleanup_of, after_step, run_steps,
}
use hola.BackupBroker.Kept.{
  Served, reach_of, AllReached, Picked, pick-Picked, Kept, KeptCleanup, IsKept, run-IsKept, parts,
}

pub record Lease : Type 0 where
  pub since : Option Stamp
  pub was_expiry : Option Bool

abbrev lease_of : BackupBrokerState → Lease
lease_of s = record { since = s.open_since; was_expiry = s.last_finalize_was_expiry }

unfoldable pub lease : Host → Lease
lease h = lease_of (read_state h)

-- The record that an expiry has read was open for as long as the timeout, or at no date.
abbrev pub WasStale : ℕ → BackupBrokerState → ℕ → Type 0
WasStale timeout_ms state at =
    (since : Stamp) × (state.open_since ≡ some since)
    × (is_stamp_expired timeout_ms at since ≡ true)

abbrev pub AllCalled : List Installed → LiveHost → Type 0
AllCalled deployments s =
    (p : BackupParticipant)
    → Among p (backup_participants deployments)
    → HasPostHook p
    → Among (post p) s.host.log

-- Who may change a lease in a state of the server, and how.
pub data LeaseStep (deployments : List Installed) (timeout_ms : ℕ) (s : LiveHost)
    : Step → Lease → Lease → Type 0 where
  same : (e : Step) (l : Lease) → LeaseStep deployments timeout_ms s e l l
  begins :
      (i : ℕ) (gone : Bool) (now : ℕ) (w : WriteResult) (l : Lease) (j : PrepareJob)
      (rest : List PrepareJob)
      → pick i s.host.jobs ≡ some (j, rest)
      → j.remaining ≡ []
      → LeaseStep deployments timeout_ms s
          (round i gone now w)
          l
          (record l { since = some (iso now) })
  returned :
      (i now : ℕ) (w : WriteResult) (l : Lease) (c : Cleanup) (rest : List Cleanup)
      → pick i s.cleanups ≡ some (c, rest)
      → c.purpose ≡ finalizing
      → c.remaining ≡ []
      → AllCalled deployments s
      → LeaseStep deployments timeout_ms s
          (cleanup i now w)
          l
          (record { since = none; was_expiry = some false })
  lapses :
      (i now : ℕ) (w : WriteResult) (l : Lease) (c : Cleanup) (rest : List Cleanup)
      (state : BackupBrokerState) (at : ℕ)
      → pick i s.cleanups ≡ some (c, rest)
      → c.purpose ≡ expiring state at
      → c.remaining ≡ []
      → WasStale timeout_ms state at
      → AllCalled deployments s
      → LeaseStep deployments timeout_ms s
          (cleanup i now w)
          l
          (record { since = none; was_expiry = some true })

stale_since :
    (timeout_ms now : ℕ) (s : BackupBrokerState)
    → is_prepare_expired s timeout_ms now ≡ true
    → WasStale timeout_ms s now
unfolding is_prepare_expired
stale_since timeout_ms now s h = elim (Option-cases s.open_since) [
  | inl off ↦ absurd (ground arith)
  | inr (since, on) ↦ (since, on, ground arith)
]

lease-closed :
    (now : ℕ) (b : Bool) (h : Host)
    → lease (update_state written (closed now b) h) ≡ record { since = none; was_expiry = some b }
unfolding lease update_state read_state read write
lease-closed now b h = refl

lease-open_prepare :
    (timeout_ms now : ℕ) (id : String) (h : Host)
    → lease (open_prepare timeout_ms now written id h) ≡ record (lease h) { since = some (iso now) }
unfolding lease open_prepare update_state read_state read write
lease-open_prepare timeout_ms now id h = refl

module _ (exec : Executor) (deployments : List Installed) (timeout_ms : ℕ) where
  abbrev StepsTo : LiveHost → Step → LiveHost → Type 0
  StepsTo s e t = LeaseStep deployments timeout_ms s e (lease s.host) (lease t.host)

  all_called :
      (s : LiveHost)
      → Served (parts exec deployments timeout_ms) [] s.host.log
      → AllCalled deployments s
  all_called s v p among has = elim (v p among has) [ inl left ↦ absurd left | inr called ↦ called ]

  -- A cleanup goes on in a state without it.
  cleanup-LeaseStep :
      (i now : ℕ) (s : LiveHost) (c : Cleanup) (rest : List Cleanup) (purpose : Purpose)
      (left : List BackupParticipant)
      → pick i s.cleanups ≡ some (c, rest)
      → c.purpose ≡ purpose
      → c.remaining ≡ left
      → Kept exec deployments timeout_ms s.host.log purpose left
      → StepsTo s
          (cleanup i now written)
          (continue_cleanup exec now written purpose left (record s { cleanups = rest }))
  unfolding continue_cleanup begin_cleanup end_cleanup lease read_state
  cleanup-LeaseStep i now s c rest purpose (p ∷ ps) found why todo k = same _ _
  cleanup-LeaseStep i now s c rest undoing [] found why todo k = same _ _
  cleanup-LeaseStep i now s c rest finalizing [] found why todo k =
      rw (lease-closed now false (record (s.host) { timer = none }))
        (returned i now written (lease s.host) c rest found why todo (all_called s k))
  cleanup-LeaseStep i now s c rest (expiring state at) [] found why todo k =
      rw (lease-closed now true s.host) (
        lapses i now written (lease s.host) c rest state at found why todo
          (stale_since timeout_ms at state k.0) (all_called s k.1))

  cleanup_of-LeaseStep :
      (i now : ℕ) (s : LiveHost) (o : Option (Cleanup × List Cleanup))
      → pick i s.cleanups ≡ o
      → Picked (KeptCleanup exec deployments timeout_ms s.host.log) o
      → StepsTo s (cleanup i now written) (cleanup_of exec deployments timeout_ms now written s o)
  unfolding cleanup_of
  cleanup_of-LeaseStep i now s none found k = same _ _
  cleanup_of-LeaseStep i now s (some (c, rest)) found k =
      cleanup-LeaseStep i now s c rest c.purpose c.remaining found refl refl k.0

  -- A job goes on in a state without it.
  prepare-LeaseStep :
      (i : ℕ) (gone : Bool) (now : ℕ) (s : LiveHost) (j : PrepareJob) (rest : List PrepareJob)
      (left : List BackupParticipant)
      → pick i s.host.jobs ≡ some (j, rest)
      → j.remaining ≡ left
      → StepsTo s (round i gone now written) (
          continue_prepare exec timeout_ms gone now written j.id left j.started
            (record s { host = record (s.host) { jobs = rest } }))
  unfolding continue_prepare begin_cleanup lease read_state
  prepare-LeaseStep i gone now s j rest [] found todo =
      rw (lease-open_prepare timeout_ms now j.id (record (s.host) { jobs = rest }))
        (begins i gone now written (lease s.host) j rest found todo)
  prepare-LeaseStep i gone now s j rest (p ∷ ps) found todo =
      by_tests gone ((exec s.host.log (pre p)).ok)
    where
      by_tests :
          (g o : Bool)
          → StepsTo s (round i gone now written) (
              if g
              then begin_cleanup undoing j.started
                  (record s { host = record (s.host) { jobs = rest } })
              else if o
              then record s {
                host = record (s.host) {
                  log = pre p ∷ s.host.log;
                  jobs =
                      (record { id = j.id; remaining = ps; started = j.started ++ p ∷ [] }) ∷ rest;
                };
              }
              else begin_cleanup undoing
                  (j.started ++ p ∷ [])
                  (record s { host = record (s.host) { log = pre p ∷ s.host.log; jobs = rest } }))
      by_tests true o = same _ _
      by_tests false true = same _ _
      by_tests false false = same _ _

  round-LeaseStep :
      (i : ℕ) (gone : Bool) (now : ℕ) (s : LiveHost) (o : Option (PrepareJob × List PrepareJob))
      → pick i s.host.jobs ≡ o
      → StepsTo s
          (round i gone now written)
          (round_of exec deployments timeout_ms gone now written s o)
  unfolding round_of
  round-LeaseStep i gone now s none found = same _ _
  round-LeaseStep i gone now s (some (j, rest)) found =
      prepare-LeaseStep i gone now s j rest j.remaining found refl

  -- The check that begins an expiry leaves the lease.
  lease-begin_expiry :
      (now : ℕ) (s : LiveHost)
      → lease (begin_expiry deployments timeout_ms now s).host ≡ lease s.host
  unfolding begin_expiry begin_cleanup
  lease-begin_expiry now s =
      elim (Bool-cases (is_prepare_expired (read_state s.host) timeout_ms now)) [
        | inr fresh ↦ rw fresh refl
        | inl stale ↦ rw stale refl
      ]

  lease-begin_fire_at :
      (now : ℕ) (s : LiveHost) (timer : Option ℕ)
      → lease (begin_fire_at deployments timeout_ms now s timer).host ≡ lease s.host
  unfolding begin_fire_at lease read_state
  lease-begin_fire_at now s none = refl
  lease-begin_fire_at now s (some due) = elim (Bool-cases (leb due now)) [
    | inr early ↦ rw early refl
    | inl late ↦
        rw late (lease-begin_expiry now (record s { host = record (s.host) { timer = none } }))
  ]

  step-LeaseStep :
      (e : Step) (s : LiveHost)
      → reach_of e ≡ written
      → IsKept exec deployments timeout_ms s
      → StepsTo s e (after_step exec deployments timeout_ms e s)
  unfolding after_step start_job lease read_state begin_finalize begin_cleanup
  step-LeaseStep (start id) s reach v = same _ _
  step-LeaseStep (round i gone now w) s reach v =
      rw reach (round-LeaseStep i gone now s (pick i s.host.jobs) refl)
  step-LeaseStep (cleanup i now w) s reach v = rw reach (
      cleanup_of-LeaseStep i now s (pick i s.cleanups) refl
        (pick-Picked (KeptCleanup exec deployments timeout_ms s.host.log) i s.cleanups v))
  step-LeaseStep finalize s reach v = same _ _
  step-LeaseStep (arrive now) s reach v = rw (lease-begin_expiry now s) (same _ _)
  step-LeaseStep (fire now) s reach v = rw (lease-begin_fire_at now s s.host.timer) (same _ _)

  -- The broker implements its lease, in any interleaving of its callers, hook by hook, and for any
  -- record found at the start, if each write reaches the record's file; an update of the record, its
  -- read and its write, counts as one step. Each step leaves the lease as it was, or is one of three.
  -- A job of a prepare that has no participation left begins it, at that time. A finalize that has
  -- no hook left ends it. An expiry that has no hook left ends it, if the record that it read at its
  -- beginning had a stamp that was then as old as the timeout or no date. When a finalize
  -- or an expiry ends the lease, the post-hook of every app that has one is among the calls made.
  pub run-LeaseStep :
      (es : List Step) (e : Step) (host : Host)
      → AllReached es
      → reach_of e ≡ written
      → LeaseStep deployments timeout_ms
          (run_steps exec deployments timeout_ms es (record { host = host; cleanups = [] }))
          e
          (lease
            (run_steps exec deployments timeout_ms es (record { host = host; cleanups = [] })).host)
          (lease
            (after_step exec deployments timeout_ms e (
              run_steps exec deployments timeout_ms es
                (record { host = host; cleanups = [] }))).host)
  run-LeaseStep es e host reached reach =
      let s = run_steps exec deployments timeout_ms es (record { host = host; cleanups = [] }) in
      step-LeaseStep e s reach (
        run-IsKept exec deployments timeout_ms es (record { host = host; cleanups = [] }) reached
          tt)
