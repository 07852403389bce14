-- ===== src/BackupBroker.antt =====
-- packages/server/src/services/core/backup-broker-state.ts, and the `backup@1` broker of
-- packages/server/src/services/core/deployment.ts: the apps that take part, and the rounds
-- of a prepare with the hooks that they call. The hooks run in the apps' containers, so what becomes
-- of one is an argument, `Executor`.
pub mod Server
pub mod Hooks
pub mod Prepare
pub mod Events
pub mod Accounted
pub mod Steps
pub mod Uninterrupted
pub mod Kept
pub mod Lease
pub mod Timer
use hola.Prelude.{
  Result, ok, err, ℕ, ◌+◌, String, Bool, true, false, not, Option, none, some, List, [], ◌∷◌, ◌++◌,
  leb, if◌then◌else◌, is_some, includes, select, all, map, Dict,
}
use hola.JsonRecordStore.{File, WriteResult, read, write}
use hola.RestoreBroker.{Stamp, iso, date_parse}
use hola.RestoreCalls.{Deployment, BrokerError, require_consented_provider}
use hola.Versions.{compare_units, units, is_less}

pub record BackupBrokerState : Type 0 where
  pub last_prepare_at : Option Stamp
  pub last_finalize_at : Option Stamp
  pub open_since : Option Stamp
  pub open_job_id : Option String
  pub last_finalize_was_expiry : Option Bool

abbrev pub empty_state : BackupBrokerState
empty_state = record {
  last_prepare_at = none;
  last_finalize_at = none;
  open_since = none;
  open_job_id = none;
  last_finalize_was_expiry = none;
}

-- `now - openedAt >= timeoutMs`, where the difference may be negative and the timeout is not.
abbrev pub is_stamp_expired : ℕ → ℕ → Stamp → Bool
is_stamp_expired timeout_ms now since = elim (date_parse since) [
  | none ↦ true
  | some opened_at ↦ leb (opened_at + timeout_ms) now
]

unfoldable pub is_prepare_expired : BackupBrokerState → ℕ → ℕ → Bool
is_prepare_expired state timeout_ms now = elim state.open_since [
  | none ↦ false
  | some since ↦ is_stamp_expired timeout_ms now since
]

pub record Hook : Type 0 where
  pub service : String
  pub command : List String

pub record HookedParticipation : Type 0 where
  pub id : String
  pub pre_hook : Option Hook
  pub post_hook : Option Hook

pub record BackupParticipant : Type 0 where
  pub deployment_id : String
  pub participation_id : String
  pub pre_hook : Option Hook
  pub post_hook : Option Hook

-- What `readActiveManifest` gives: it throws, there is no manifest, or the manifest's `accepts` and
-- the participations that its `backup` block declares.
pub data ManifestRead : Type 0 where
  throws no_manifest : ManifestRead
  manifest : Option (List String) → List HookedParticipation → ManifestRead

pub record Installed : Type 0 where
  pub id : String
  pub is_running : Bool
  pub active : ManifestRead

abbrev pub backup_contract_ref : String
backup_contract_ref = "backup@1"

-- `[...deployments].sort(...)` by ascending id; equal ids keep their order.
unfoldable pub place_by_id : Installed → List Installed → List Installed
place_by_id a [] = a ∷ []
place_by_id a (b ∷ bs) =
    if is_less (compare_units (units b.id) (units a.id)) then b ∷ place_by_id a bs else a ∷ b ∷ bs

unfoldable pub sort_by_id : List Installed → List Installed
sort_by_id [] = []
sort_by_id (a ∷ rest) = place_by_id a (sort_by_id rest)

abbrev to_participants : String → List HookedParticipation → List BackupParticipant
to_participants id [] = []
to_participants id (p ∷ ps) =
    (record {
      deployment_id = id;
      participation_id = p.id;
      pre_hook = p.pre_hook;
      post_hook = p.post_hook;
    })
    ∷ to_participants id ps

abbrev accepts_backup : Option (List String) → Bool
accepts_backup none = false
accepts_backup (some accepts) = includes accepts backup_contract_ref

abbrev participants_in : String → Bool → ManifestRead → List BackupParticipant
participants_in id is_running throws = []
participants_in id is_running no_manifest = []
participants_in id is_running (manifest accepts ps) =
    if not (accepts_backup accepts)
    then []
    else if not is_running
    then []
    else to_participants id ps

unfoldable pub participants_loop : List Installed → List BackupParticipant
participants_loop [] = []
participants_loop (d ∷ ds) = participants_in d.id d.is_running d.active ++ participants_loop ds

unfoldable pub backup_participants : List Installed → List BackupParticipant
backup_participants deployments = participants_loop (sort_by_id deployments)

-- One call of `runParticipationHook`, and what it answers after the calls made so far, the newest
-- first.
pub data HookCall : Type 0 where
  pre post : BackupParticipant → HookCall

pub record HookResult : Type 0 where
  pub ok : Bool
  pub output : Option String

abbrev pub Executor : Type 0
Executor = List HookCall → HookCall → HookResult

pub record PostHookResult : Type 0 where
  pub deployment_id : String
  pub participation_id : String
  pub ok : Bool
  pub output : Option String

abbrev post_result : BackupParticipant → HookResult → PostHookResult
post_result p res = record {
  deployment_id = p.deployment_id;
  participation_id = p.participation_id;
  ok = res.ok;
  output = res.output;
}

unfoldable pub run_post_hooks :
    Executor → List BackupParticipant → List HookCall → List PostHookResult × List HookCall
run_post_hooks exec [] log = ([], log)
run_post_hooks exec (p ∷ ps) log = elim (is_some p.post_hook) [
  | false ↦ run_post_hooks exec ps log
  | true ↦
      let (results, log') = run_post_hooks exec ps (post p ∷ log) in
      (post_result p (exec log (post p)) ∷ results, log')
]

abbrev pub has_pre_hook : BackupParticipant → Bool
has_pre_hook p = is_some p.pre_hook

-- What the job of a prepare throws.
pub data PrepareError : Type 0 where
  job_cancelled : PrepareError
  pre_hook_failed : BackupParticipant → PrepareError

-- One round of the job's loop: the participations started so far with the calls made, or the end of
-- the job, with its cleanup done.
pub data Round : Type 0 where
  go_on : List BackupParticipant → List HookCall → Round
  stop : PrepareError → List HookCall → Round

unfoldable pub prepare_round :
    Executor → Bool → BackupParticipant → List BackupParticipant → List HookCall → Round
prepare_round exec is_cancelled part started log =
    if is_cancelled
    then stop job_cancelled (run_post_hooks exec started log).1
    else if (exec log (pre part)).ok
    then go_on (started ++ part ∷ []) (pre part ∷ log)
    else stop (pre_hook_failed part) (run_post_hooks exec (started ++ part ∷ []) (pre part ∷ log)).1

-- The loop; `cancelled` is what `ctx.isCancelled()` answers in each round.
unfoldable pub prepare_loop :
    Executor
    → (List HookCall → Bool)
    → List BackupParticipant
    → List BackupParticipant
    → List HookCall
    → Round
prepare_loop exec cancelled [] started log = go_on started log
prepare_loop exec cancelled (p ∷ ps) started log =
    elim (prepare_round exec (cancelled log) p started log) [
      | stop error log' ↦ stop error log'
      | go_on started' log' ↦ prepare_loop exec cancelled ps started' log'
    ]

-- A job under way: the participations left to start, and those started.
pub record PrepareJob : Type 0 where
  pub id : String
  pub remaining : List BackupParticipant
  pub started : List BackupParticipant
