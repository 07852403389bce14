-- ===== src/Jobs.antt =====
-- packages/server/src/services/core/jobs.ts: the dispatcher of `RealJobService` and the locks of the
-- deployments. The synchronous parts of the code are functions on the state; what is pending
-- at an `await` is in the state: the jobs that run and the sections of `runExclusive`.
pub mod Sound
pub mod Exclusion
pub mod Progress
use hola.Prelude.{
  ℕ, zero, suc, ◌+◌, ◌-◌, String, Bool, true, false, not, ◌&&◌, ◌||◌, Option, none, some, List, [],
  ◌∷◌, ◌++◌, length, ltb, if◌then◌else◌, str_eq, select, any,
}

-- An entry of the queue; `none` where the source leaves `deploymentId` out.
pub record Entry : Type 0 where
  pub id : String
  pub deployment_id : Option String

abbrev pub entry_of : String → Entry → Bool
entry_of key e = elim e.deployment_id [ none ↦ false | some d ↦ str_eq d key ]

-- A section of `runExclusive`, which waits for its key or holds it.
pub record Section : Type 0 where
  pub key : String
  pub name : String

-- The locks, the queue, the jobs whose `runJob` has not ended, and the sections that hold a key. A
-- key without waiters has the empty list.
pub record Scheduler : Type 0 where
  pub held : String → Bool
  pub waiters : String → List String
  pub queue : List Entry
  pub running : ℕ
  pub active : List Entry
  pub inside : List Section

abbrev pub add_key : String → (String → Bool) → String → Bool
add_key key held k = str_eq k key || held k

abbrev delete_key : String → (String → Bool) → String → Bool
delete_key key held k = not (str_eq k key) && held k

abbrev set_queue : String → List String → (String → List String) → String → List String
set_queue key names waiters k = if str_eq k key then names else waiters k

unfoldable pub acquire : String → String → Scheduler → Scheduler
acquire key name s =
    if s.held key
    then record s { waiters = set_queue key (s.waiters key ++ name ∷ []) s.waiters }
    else record s {
      held = add_key key s.held;
      inside = record { key = key; name = name } ∷ s.inside;
    }

-- The key goes straight to the first waiter, or is free.
unfoldable pub release : String → Scheduler → Scheduler
release key s = elim (s.waiters key) [
  | [] ↦ record s { held = delete_key key s.held }
  | next ∷ others ↦ record s {
    waiters = set_queue key others s.waiters;
    inside = record { key = key; name = next } ∷ s.inside;
  }
]

abbrev pub is_runnable : (String → Bool) → Entry → Bool
is_runnable held e = elim e.deployment_id [ none ↦ true | some d ↦ not (held d) ]

-- `findIndex` and `splice`: the first entry that can run, and the others.
unfoldable pub take_runnable : (String → Bool) → List Entry → Option (Entry × List Entry)
take_runnable held [] = none
take_runnable held (e ∷ queue) =
    let rest = take_runnable held queue in
    if is_runnable held e
    then some (e, queue)
    else elim rest [ none ↦ none | some (found, others) ↦ some (found, e ∷ others) ]

abbrev hold_for : Entry → (String → Bool) → String → Bool
hold_for e held = elim e.deployment_id [ none ↦ held | some d ↦ add_key d held ]

-- One round of `tick`, up to the first `await` of `runJob`.
unfoldable pub dispatch : Entry → List Entry → Scheduler → Scheduler
dispatch e others s = record s {
  queue = others;
  held = hold_for e s.held;
  running = s.running + 1;
  active = e ∷ s.active;
}

unfoldable pub tick_loop : ℕ → ℕ → Scheduler → Scheduler
tick_loop max_concurrency zero s = s
tick_loop max_concurrency (suc fuel) s =
    elim (if ltb s.running max_concurrency then take_runnable s.held s.queue else none) [
      | none ↦ s
      | some (e, others) ↦ tick_loop max_concurrency fuel (dispatch e others s)
    ]

-- A round takes an entry out of the queue.
unfoldable pub tick : ℕ → Scheduler → Scheduler
tick max_concurrency s = tick_loop max_concurrency (length s.queue) s

unfoldable pub enqueue : ℕ → String → Option String → Scheduler → Scheduler
enqueue max_concurrency id deployment_id s = tick max_concurrency (record s {
  queue =
      s.queue
      ++ record {
        id = id;
        deployment_id = elim deployment_id [
          | none ↦ none
          | some d ↦ if str_eq d "" then none else some d
        ];
      }
        ∷ [];
})

-- The first element that passes the test, and the others.
unfoldable pub take_first {ℓ} : {A : Type ℓ} → (A → Bool) → List A → Option (A × List A)
take_first test [] = none
take_first test (x ∷ xs) =
    let rest = take_first test xs in
    if test x
    then some (x, xs)
    else elim rest [ none ↦ none | some (found, others) ↦ some (found, x ∷ others) ]

abbrev pub release_for : Entry → Scheduler → Scheduler
release_for e s = elim e.deployment_id [ none ↦ s | some d ↦ release d s ]

-- The end of `runJob`, its `finally`, however the job went.
unfoldable pub finish : ℕ → String → Scheduler → Scheduler
finish max_concurrency id s = elim (take_first (λ e. str_eq e.id id) s.active) [
  | none ↦ s
  | some (e, others) ↦
      tick max_concurrency (release_for e (record s { running = s.running - 1; active = others }))
]

-- The end of the section: `release`, then `tick` in the `finally` of `runExclusive`.
unfoldable pub leave : ℕ → String → Scheduler → Scheduler
leave max_concurrency name s = elim (take_first (λ i. str_eq i.name name) s.inside) [
  | none ↦ s
  | some (i, others) ↦ tick max_concurrency (release i.key (record s { inside = others }))
]

-- The queue's part of `discardDeploymentJobs` and of `cancelJob`.
pub discard_deployment : String → Scheduler → Scheduler
discard_deployment key s = record s { queue = select (λ e. not (entry_of key e)) s.queue }

pub drop_queued : String → Scheduler → Scheduler
drop_queued id s = record s { queue = select (λ e. not (str_eq e.id id)) s.queue }

unfoldable is_deployment_busy : String → Scheduler → Bool
is_deployment_busy key s = s.held key || any (entry_of key) s.queue

abbrev pub fresh_scheduler : Scheduler
fresh_scheduler = record {
  held = λ k. false;
  waiters = λ k. [];
  queue = [];
  running = 0;
  active = [];
  inside = [];
}

pub data Event : Type 0 where
  create : String → Option String → Event
  job_ends : String → Event
  enter : String → String → Event
  section_ends : String → Event
  discard : String → Event
  cancel : String → Event

unfoldable pub after : ℕ → Event → Scheduler → Scheduler
after max_concurrency (create id deployment_id) s = enqueue max_concurrency id deployment_id s
after max_concurrency (job_ends id) s = finish max_concurrency id s
after max_concurrency (enter key name) s = acquire key name s
after max_concurrency (section_ends name) s = leave max_concurrency name s
after max_concurrency (discard key) s = discard_deployment key s
after max_concurrency (cancel id) s = drop_queued id s

unfoldable pub run : ℕ → List Event → Scheduler → Scheduler
run max_concurrency [] s = s
run max_concurrency (e ∷ es) s = run max_concurrency es (after max_concurrency e s)
