-- ===== src/JobTable/Running.antt =====
-- packages/server/src/services/core/jobs.ts: what `runJob` writes to the job's row. The flags that its
-- checks find, and how the executor ends, are arguments; its notices and log lines are left out.
use hola.Prelude.{
  ℕ, zero, suc, ◌+◌, ◌*◌, ◌/◌, String, ◌≡◌, refl, ◌∙◌, inl, inr, Bool, true, false, some, arith,
  Bool-cases, Option-cases, if◌then◌else◌, ltb, str_eq, eq_refl,
}
use hola.JobTable.{
  Status, Table, JobEntity, find_by_id, is_terminal, update_row, update_status, with_status,
  with_failure, mark_completed,
}
use hola.JobTable.Outcomes.{find_by_id-update_row}

-- How the executor ends: it did the work, it leaves the job to the simulated steps, it saw the
-- cancellation, or it throws another error with this message.
pub data ExecutorResult : Type 0 where
  handled unhandled cancellation_seen : ExecutorResult
  throws : String → ExecutorResult

abbrev with_progress : ℕ → JobEntity → JobEntity
with_progress p j = record j { progress = p }

-- `Math.min(100, Math.floor(((i + 1) / 4) * 100))`
abbrev step_progress : ℕ → ℕ
step_progress i = let p = (i + 1) * 100 / 4 in if ltb p 100 then p else 100

-- The steps from `i` on, as many as `left`; the flag says that the job was cancelled at one.
pub simulate : ℕ → ℕ → (ℕ → Bool) → ℕ → String → Table → Bool × Table
simulate zero i flagged_at now id t = (false, t)
simulate (suc left) i flagged_at now id t =
    let rest =
      simulate left (i + 1) flagged_at now id (update_row (with_progress (step_progress i)) id t) in
    if flagged_at i then (true, update_status now id Status.cancelled t) else rest

pub run_started : ExecutorResult → (ℕ → Bool) → ℕ → String → Table → Table
run_started handled flagged_at now id t = mark_completed now id t
run_started unhandled flagged_at now id t =
    let (stopped, t') = simulate 4 0 flagged_at now id t in
    if stopped then t' else mark_completed now id t'
run_started cancellation_seen flagged_at now id t = update_status now id Status.cancelled t
run_started (throws message) flagged_at now id t = update_row (with_failure message) id t

pub run_job : Bool → ExecutorResult → (ℕ → Bool) → ℕ → String → Table → Table
run_job flagged result flagged_at now id t =
    if flagged
    then update_status now id Status.cancelled t
    else run_started result flagged_at now id (update_status now id Status.running t)

-- What the row of a job becomes by an update of that row.
updated :
    (change : JobEntity → JobEntity) (id : String) (t : Table) (j : JobEntity)
    → ((k : JobEntity) → (change k).id ≡ k.id)
    → find_by_id id t ≡ some j
    → find_by_id id (update_row change id t) ≡ some (change j)
updated change id t j same h = ground (arith, find_by_id-update_row change id id t same, eq_refl id)

untouched :
    (change : JobEntity → JobEntity) (id other : String) (t : Table)
    → ((k : JobEntity) → (change k).id ≡ k.id)
    → str_eq id other ≡ false
    → find_by_id other (update_row change id t) ≡ find_by_id other t
untouched change id other t same h = elim (Option-cases (find_by_id other t)) [
  | inl n ↦ ground (arith, find_by_id-update_row change id other t same)
  | inr (k, n) ↦ ground (arith, find_by_id-update_row change id other t same)
]

-- The job's row has an outcome.
abbrev pub HasEnded : String → Table → Type 0
HasEnded id t = (k : JobEntity) × (find_by_id id t ≡ some k) × (is_terminal k.status ≡ true)

simulate-HasEnded :
    (left i : ℕ) (flagged_at : ℕ → Bool) (now : ℕ) (id : String) (t : Table) (j : JobEntity)
    → find_by_id id t ≡ some j
    → HasEnded id (
        if (simulate left i flagged_at now id t).0
        then (simulate left i flagged_at now id t).1
        else mark_completed now id (simulate left i flagged_at now id t).1)
unfolding simulate
simulate-HasEnded zero i flagged_at now id t j h = (_, updated _ id t j (λ k. refl) h, refl)
simulate-HasEnded (suc left) i flagged_at now id t j h = elim (Bool-cases (flagged_at i)) [
  | inl seen ↦
      rw (simulate, seen) (_, updated (with_status now Status.cancelled) id t j (λ k. refl) h, refl)
  | inr unseen ↦
      rw (simulate, unseen)
        (simulate-HasEnded left (i + 1) flagged_at now id
          (update_row (with_progress (step_progress i)) id t) _ (updated _ id t j (λ k. refl) h))
]

run_started-HasEnded :
    (result : ExecutorResult) (flagged_at : ℕ → Bool) (now : ℕ) (id : String) (t : Table)
    (j : JobEntity)
    → find_by_id id t ≡ some j
    → HasEnded id (run_started result flagged_at now id t)
unfolding run_started
run_started-HasEnded handled flagged_at now id t j h = (_, updated _ id t j (λ k. refl) h, refl)
run_started-HasEnded unhandled flagged_at now id t j h =
    simulate-HasEnded 4 0 flagged_at now id t j h
run_started-HasEnded cancellation_seen flagged_at now id t j h =
    (_, updated (with_status now Status.cancelled) id t j (λ k. refl) h, refl)
run_started-HasEnded (throws message) flagged_at now id t j h =
    (_, updated _ id t j (λ k. refl) h, refl)

-- However the executor ends and wherever a cancellation is seen: when the job's run is over, its row
-- has an outcome.
pub run_job-HasEnded :
    (flagged : Bool) (result : ExecutorResult) (flagged_at : ℕ → Bool) (now : ℕ) (id : String)
    (t : Table) (j : JobEntity)
    → find_by_id id t ≡ some j
    → HasEnded id (run_job flagged result flagged_at now id t)
unfolding run_job
run_job-HasEnded true result flagged_at now id t j h =
    (_, updated (with_status now Status.cancelled) id t j (λ k. refl) h, refl)
run_job-HasEnded false result flagged_at now id t j h =
    run_started-HasEnded result flagged_at now id (update_status now id Status.running t) _
      (updated (with_status now Status.running) id t j (λ k. refl) h)

simulate-other :
    (left i : ℕ) (flagged_at : ℕ → Bool) (now : ℕ) (id other : String) (t : Table)
    → str_eq id other ≡ false
    → find_by_id other (simulate left i flagged_at now id t).1 ≡ find_by_id other t
unfolding simulate
simulate-other zero i flagged_at now id other t h = refl
simulate-other (suc left) i flagged_at now id other t h = elim (Bool-cases (flagged_at i)) [
  | inl seen ↦ rw seen (untouched (with_status now Status.cancelled) id other t (λ k. refl) h)
  | inr unseen ↦ rw unseen (
      simulate-other left (i + 1) flagged_at now id other
        (update_row (with_progress (step_progress i)) id t) h
      ∙ untouched (with_progress (step_progress i)) id other t (λ k. refl) h)
]

run_started-other :
    (result : ExecutorResult) (flagged_at : ℕ → Bool) (now : ℕ) (id other : String) (t : Table)
    → str_eq id other ≡ false
    → find_by_id other (run_started result flagged_at now id t) ≡ find_by_id other t
unfolding run_started
run_started-other handled flagged_at now id other t h = untouched _ id other t (λ k. refl) h
run_started-other unhandled flagged_at now id other t h =
    elim (Bool-cases (simulate 4 0 flagged_at now id t).0) [
      | inl stopped ↦ rw stopped (simulate-other 4 0 flagged_at now id other t h)
      | inr through ↦ rw through (
          untouched _ id other (simulate 4 0 flagged_at now id t).1 (λ k. refl) h
          ∙ simulate-other 4 0 flagged_at now id other t h)
    ]
run_started-other cancellation_seen flagged_at now id other t h =
    untouched (with_status now Status.cancelled) id other t (λ k. refl) h
run_started-other (throws message) flagged_at now id other t h =
    untouched (with_failure message) id other t (λ k. refl) h

-- A job's run changes no other row.
run_job-other_rows :
    (flagged : Bool) (result : ExecutorResult) (flagged_at : ℕ → Bool) (now : ℕ) (id other : String)
    (t : Table)
    → str_eq id other ≡ false
    → find_by_id other (run_job flagged result flagged_at now id t) ≡ find_by_id other t
unfolding run_job
run_job-other_rows true result flagged_at now id other t h =
    untouched (with_status now Status.cancelled) id other t (λ k. refl) h
run_job-other_rows false result flagged_at now id other t h =
    run_started-other result flagged_at now id other (update_status now id Status.running t) h
    ∙ untouched (with_status now Status.running) id other t (λ k. refl) h
