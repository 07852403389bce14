-- ===== src/JobTable.antt =====
-- packages/server/src/services/core/jobs.ts and repositories.ts: the rows of the job table, newest
-- first as its queries return them, and the calls that change both the table and the dispatcher's
-- queue. SQLite does as each statement says; no statement fails.
pub mod Listing
pub mod Outcomes
pub mod Running
use hola.Prelude.{
  ℕ, String, Bool, true, false, not, ◌&&◌, ◌||◌, Option, none, some, List, [], ◌∷◌, map,
  if◌then◌else◌, value_or, or_else, str_eq, select, find, is_some,
}
use hola.Jobs.{Scheduler, enqueue, drop_queued}

pub data Status : Type 0 where
  pending running completed failed cancelled : Status

abbrev pub status_eq : Status → Status → Bool
status_eq pending pending = true
status_eq running running = true
status_eq completed completed = true
status_eq failed failed = true
status_eq cancelled cancelled = true
status_eq _ _ = false

abbrev pub is_terminal : Status → Bool
is_terminal completed = true
is_terminal failed = true
is_terminal cancelled = true
is_terminal _ = false

-- `payload.deployment_id` is all that is read of the payload here.
pub record JobEntity : Type 0 where
  pub id : String
  pub kind : String
  pub status : Status
  pub deployment_id : Option String
  pub error : Option String
  pub progress : ℕ
  pub created_at : ℕ
  pub started_at : Option ℕ
  pub completed_at : Option ℕ
  pub cancelled_at : Option ℕ

abbrev pub Table : Type 0
Table = List JobEntity

abbrev pub find_by_id : String → Table → Option JobEntity
find_by_id id = find (λ j. str_eq j.id id)

abbrev pub find_by_status : Status → Table → Table
find_by_status status = select (λ j. status_eq j.status status)

-- `UPDATE jobs SET … WHERE id = ?`
pub update_row : (JobEntity → JobEntity) → String → Table → Table
update_row change id [] = []
update_row change id (j ∷ t) = (if str_eq j.id id then change j else j) ∷ update_row change id t

-- What `updateStatus` sets.
abbrev pub with_status : ℕ → Status → JobEntity → JobEntity
with_status now running j = record j { status = running; started_at = some now }
with_status now completed j = record j { status = completed; completed_at = some now }
with_status now failed j = record j { status = failed; completed_at = some now }
with_status now cancelled j = record j { status = cancelled; cancelled_at = some now }
with_status now pending j = record j { status = pending }

abbrev pub update_status : ℕ → String → Status → Table → Table
update_status now id status = update_row (with_status now status) id

abbrev pub mark_completed : ℕ → String → Table → Table
mark_completed now =
    update_row (λ j. record j { status = completed; completed_at = some now; error = some "" })

abbrev pub with_failure : String → JobEntity → JobEntity
with_failure reason j = record j { status = failed; error = some reason }

-- An empty text counts as none.
abbrev pub truthy : Option String → Option String
truthy none = none
truthy (some s) = if str_eq s "" then none else some s

-- What clients see. The last status is none of the four that the shared type names: the code casts.
pub data SharedStatus : Type 0 where
  queued running completed failed cancelled : SharedStatus

abbrev pub shared_status : Status → SharedStatus
shared_status pending = SharedStatus.queued
shared_status Status.running = SharedStatus.running
shared_status Status.completed = SharedStatus.completed
shared_status Status.failed = SharedStatus.failed
shared_status Status.cancelled = SharedStatus.cancelled

pub record SharedJob : Type 0 where
  pub id : String
  pub kind : String
  pub status : SharedStatus
  pub started_at : ℕ
  pub finished_at : Option ℕ
  pub progress : ℕ
  pub deployment_id : Option String
  pub error : Option String

pub to_shared : JobEntity → SharedJob
to_shared j = record {
  id = j.id;
  kind = j.kind;
  status = shared_status j.status;
  started_at = value_or j.started_at j.created_at;
  finished_at = j.completed_at;
  progress = j.progress;
  deployment_id = truthy j.deployment_id;
  error = truthy j.error;
}

-- The statuses that a filter can name, and what the table calls them.
pub data FilterStatus : Type 0 where
  queued running completed failed : FilterStatus

abbrev pub status_map : FilterStatus → Status
status_map FilterStatus.queued = pending
status_map FilterStatus.running = Status.running
status_map FilterStatus.completed = Status.completed
status_map FilterStatus.failed = Status.failed

abbrev pub belongs_to : Option String → SharedJob → Bool
belongs_to none j = true
belongs_to (some d) j = elim j.deployment_id [ none ↦ false | some e ↦ str_eq e d ]

abbrev items_of : Option FilterStatus → Table → Table
items_of none t = t
items_of (some f) t = find_by_status (status_map f) t

pub list_jobs : Option String → Option FilterStatus → Table → List SharedJob
list_jobs deployment_id status t =
    let mapped = map to_shared (items_of status t) in
    elim (truthy deployment_id) [ none ↦ mapped | some d ↦ select (belongs_to (some d)) mapped ]

-- The service: the table, the ids that are flagged, and the dispatcher.
pub record Service : Type 0 where
  pub table : Table
  pub flagged : List String
  pub scheduler : Scheduler

abbrev unflag : String → List String → List String
unflag id = select (λ j. not (str_eq j id))

pub cancel_job : ℕ → String → Service → Service
cancel_job now id s = elim (find_by_id id s.table) [
  | none ↦ s
  | some j ↦
      if is_terminal j.status
      then s
      else if status_eq j.status running
      then record s { flagged = id ∷ unflag id s.flagged; scheduler = drop_queued id s.scheduler }
      else record s {
        table = update_status now id cancelled s.table;
        flagged = unflag id s.flagged;
        scheduler = drop_queued id s.scheduler;
      }
]

pub fail_orphans : Table → Table → Table
fail_orphans [] t = t
fail_orphans (j ∷ js) t =
    fail_orphans js (update_row (with_failure "Interrupted by server restart") j.id t)

unfoldable pub resume : ℕ → Table → Scheduler → Scheduler
resume max_concurrency [] s = s
resume max_concurrency (j ∷ js) s =
    resume max_concurrency js (enqueue max_concurrency j.id (truthy j.deployment_id) s)

-- Both queries run before the first row is changed.
pub recover_and_start : ℕ → Service → Service
recover_and_start max_concurrency s =
    let orphaned = find_by_status running s.table in
    let waiting = find_by_status pending s.table in
    record s {
      table = fail_orphans orphaned s.table;
      scheduler = resume max_concurrency waiting s.scheduler;
    }
