-- ===== src/JobTable/Outcomes.antt =====
-- What the calls do to the outcome of a job.
use hola.Prelude.{
  ℕ, String, inl, inr, ◌≡◌, refl, true, false, none, some, [], ◌∷◌, arith, Bool-cases, Option-cases,
  str_eq, eq_iff, if◌then◌else◌, any,
}
use hola.JobTable.{
  Status, Table, JobEntity, Service, find_by_id, find_by_status, status_eq, is_terminal, update_row,
  with_status, with_failure, cancel_job, fail_orphans, recover_and_start,
}

pub find_by_id-update_row :
    (change : JobEntity → JobEntity) (id other : String) (t : Table)
    → ((j : JobEntity) → (change j).id ≡ j.id)
    → find_by_id other (update_row change id t) ≡ (elim (find_by_id other t) [
      | none ↦ none
      | some j ↦ if str_eq id other then some (change j) else some j
    ])
unfolding update_row
find_by_id-update_row change id other [] same = refl
find_by_id-update_row change id other (j ∷ t) same = ground (
  arith,
  same j,
  eq_iff j.id id,
  eq_iff j.id other,
  eq_iff id other,
  find_by_id-update_row change id other t same,
)

-- A recorded outcome is never changed by a cancellation, of this job or of any other.
pub cancel_job-keeps_outcome :
    (now : ℕ) (id other : String) (s : Service) (j : JobEntity)
    → find_by_id other s.table ≡ some j
    → is_terminal j.status ≡ true
    → find_by_id other (cancel_job now id s).table ≡ some j
unfolding cancel_job
cancel_job-keeps_outcome now id other s j h t = elim (Option-cases (find_by_id id s.table)) [
  | inl n ↦ rw (cancel_job, n) h
  | inr (k, n) ↦ elim (Bool-cases (is_terminal k.status)) [
    | inl ended ↦ rw (cancel_job, n, ended) h
    | inr lives ↦ elim (Bool-cases (status_eq k.status Status.running)) [
      | inl runs ↦ rw (cancel_job, n, lives, runs) h
      | inr waits ↦
          rw (cancel_job, n, lives, waits)
            (ground (
              arith,
              find_by_id-update_row (with_status now Status.cancelled) id other s.table (λ e. refl),
              eq_iff id other,
            ))
    ]
  ]
]

abbrev restarted : JobEntity → JobEntity
restarted = with_failure "Interrupted by server restart"

find_by_id-fail_orphans :
    (js t : Table) (other : String)
    → find_by_id other (fail_orphans js t) ≡ (elim (find_by_id other t) [
      | none ↦ none
      | some j ↦ if any (λ k. str_eq k.id other) js then some (restarted j) else some j
    ])
unfolding fail_orphans
find_by_id-fail_orphans [] t other = ground arith
find_by_id-fail_orphans (k ∷ js) t other = ground (
  arith,
  find_by_id-fail_orphans js (update_row restarted k.id t) other,
  find_by_id-update_row restarted k.id other t (λ j. refl),
)

abbrev pub HasDistinctIds : Table → Type 0
HasDistinctIds [] = Unit
HasDistinctIds (j ∷ t) = (find_by_id j.id t ≡ none) × HasDistinctIds t

no_such_row :
    (status : Status) (t : Table) (other : String)
    → find_by_id other t ≡ none
    → any (λ k. str_eq k.id other) (find_by_status status t) ≡ false
no_such_row status [] other h = refl
no_such_row status (j ∷ t) other h = ground (arith, no_such_row status t other)

any-find_by_status :
    (status : Status) (t : Table) (other : String) (j : JobEntity)
    → HasDistinctIds t
    → find_by_id other t ≡ some j
    → any (λ k. str_eq k.id other) (find_by_status status t) ≡ status_eq j.status status
any-find_by_status status [] other j d h = ground arith
any-find_by_status status (k ∷ t) other j d h = elim (Bool-cases (str_eq k.id other)) [
  | inl same ↦ ground (arith, eq_iff k.id other, no_such_row status t other)
  | inr differs ↦ ground (arith, any-find_by_status status t other j d.1)
]

-- After a restart each job that the old process left running is failed, with the reason, and every
-- other row is as it was: in particular, none of the waiting jobs that recovery dispatches.
find_by_id-recover_and_start :
    (max_concurrency : ℕ) (s : Service) (other : String)
    → HasDistinctIds s.table
    → find_by_id other (recover_and_start max_concurrency s).table
      ≡ (elim (find_by_id other s.table) [
        | none ↦ none
        | some j ↦ if status_eq j.status Status.running then some (restarted j) else some j
      ])
unfolding recover_and_start
find_by_id-recover_and_start max_concurrency s other d =
    elim (Option-cases (find_by_id other s.table)) [
      | inl n ↦
          ground
            (arith, find_by_id-fail_orphans (find_by_status Status.running s.table) s.table other)
      | inr (j, n) ↦ ground (
        arith,
        find_by_id-fail_orphans (find_by_status Status.running s.table) s.table other,
        any-find_by_status Status.running s.table other j d n,
      )
    ]
