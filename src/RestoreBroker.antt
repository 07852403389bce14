-- ===== src/RestoreBroker.antt =====
-- packages/server/src/services/core/restore-broker-state.ts: what the `restore@1` request queue
-- remembers between calls. A timestamp text is modelled by what `Date.parse` reads from it.
pub mod Anchors
pub mod Prune
pub mod Retention
pub mod Cases
use hola.Prelude.{
  ℕ, ◌+◌, ◌*◌, String, Bool, true, false, ◌||◌, not, Option, none, some, List, [], ◌∷◌, ◌++◌, ltb,
  leb, if◌then◌else◌, or_else, value_or, str_eq, includes, select, is_empty, Dict, lookup, insert,
}
use Prim.Native.String
use hola.JsonRecordStore.{File, WriteResult, read, write}

-- A timestamp text: the ISO form of a time in milliseconds, or a text that is no date.
pub data Stamp : Type 0 where
  iso : ℕ → Stamp
  garbled : Stamp

-- `Date.parse`, with `none` for NaN
abbrev pub date_parse : Stamp → Option ℕ
date_parse (iso t) = some t
date_parse garbled = none

pub data Status : Type 0 where
  pending claimed completed failed expired : Status

abbrev pub is_pending : Status → Bool
is_pending pending = true
is_pending _ = false

abbrev pub is_claimed : Status → Bool
is_claimed claimed = true
is_claimed _ = false

abbrev pub is_expired : Status → Bool
is_expired expired = true
is_expired _ = false

pub record RestoreRequestRecord : Type 0 where
  pub id : String
  pub provider_deployment_id : String
  pub target_deployment_id : String
  pub target_app_id : String
  pub capture_id : String
  pub destination : String
  pub status : Status
  pub created_at : Stamp
  pub deadline_at : Stamp
  pub claimed_at : Option Stamp
  pub completed_at : Option Stamp
  pub failure_reason : Option String

abbrev pub RestoreRequestStore : Type 0
RestoreRequestStore = Dict RestoreRequestRecord

abbrev terminal_record_retention_ms : ℕ
terminal_record_retention_ms = 24 * 60 * 60 * 1000

abbrev pub is_open : Status → Bool
is_open s = is_pending s || is_claimed s

-- A deadline that cannot be read counts as passed.
unfoldable pub is_restore_request_expired : RestoreRequestRecord → ℕ → Bool
is_restore_request_expired r now =
    if not (is_open r.status)
    then false
    else elim (date_parse r.deadline_at) [ none ↦ true | some deadline ↦ leb deadline now ]

abbrev is_terminal_status : Status → Bool
is_terminal_status completed = true
is_terminal_status failed = true
is_terminal_status expired = true
is_terminal_status _ = false

abbrev pub is_terminal_restore_request : RestoreRequestRecord → Bool
is_terminal_restore_request r = is_terminal_status r.status

unfoldable pub terminal_at_ms : RestoreRequestRecord → Option ℕ
terminal_at_ms r = date_parse (
    value_or (or_else r.completed_at (if is_expired r.status then some r.deadline_at else none))
      r.created_at)

-- One round of the loop that looks for the newest terminal record: `at > anchorAt`, where
-- `-Infinity` is `none`.
unfoldable pub newer_anchor :
    String → RestoreRequestRecord → Option (String × ℕ) → Option (String × ℕ)
newer_anchor id r best =
    if not (is_terminal_restore_request r) then best else elim (terminal_at_ms r) [
      | none ↦ best
      | some t ↦ elim best [
        | none ↦ some (id, t)
        | some (bid, bt) ↦ if ltb bt t then some (id, t) else some (bid, bt)
      ]
    ]

unfoldable pub find_anchor : RestoreRequestStore → Option (String × ℕ) → Option (String × ℕ)
find_anchor [] best = best
find_anchor ((id, r) ∷ store) best = find_anchor store (newer_anchor id r best)

abbrev pub is_anchor : Option (String × ℕ) → String → Bool
is_anchor none id = false
is_anchor (some (bid, bt)) id = str_eq id bid

unfoldable pub keeps_record :
    ℕ → List String → Option (String × ℕ) → String → RestoreRequestRecord → Bool
keeps_record now retain anchor id r =
    not (is_terminal_restore_request r)
    || includes retain id
    || is_anchor anchor id
    || elim (terminal_at_ms r) [
      | none ↦ false
      | some t ↦ ltb now (t + terminal_record_retention_ms)
    ]

-- The second loop: what is kept, and the ids of what is not.
unfoldable pub split_kept :
    (String → RestoreRequestRecord → Bool) → RestoreRequestStore → RestoreRequestStore × List String
split_kept keep [] = ([], [])
split_kept keep ((id, r) ∷ store) =
    let (next, pruned) = split_kept keep store in
    if keep id r then ((id, r) ∷ next, pruned) else (next, id ∷ pruned)

unfoldable pub prune_terminal_requests :
    RestoreRequestStore → ℕ → List String → RestoreRequestStore × List String
prune_terminal_requests store now retain =
    let (next, pruned) = split_kept (keeps_record now retain (find_anchor store none)) store in
    (if is_empty pruned then store else next, pruned)

-- The store object: the file behind it and the ids that a live deploy job polls.
pub record Broker : Type 0 where
  pub file : File RestoreRequestStore
  pub waited_on : List String

-- The store's own `read` and `write`.
unfoldable pub read_store : Broker → RestoreRequestStore
read_store b = read [] b.file

unfoldable pub write_store : WriteResult → RestoreRequestStore → Broker → Broker
write_store w store b = record b { file = write w store b.file }

unfoldable pub retain_while_waiting : String → Broker → Broker
retain_while_waiting id b = record b {
  waited_on = if includes b.waited_on id then b.waited_on else b.waited_on ++ id ∷ [];
}

-- What the job calls when it stops waiting.
unfoldable pub release_wait : String → Broker → Broker
release_wait id b = record b { waited_on = select (λ j. not (str_eq j id)) b.waited_on }

unfoldable pub update :
    ℕ → WriteResult → (RestoreRequestStore → RestoreRequestStore) → Broker → Broker
update now w patch b =
    write_store w (prune_terminal_requests (patch (read_store b)) now b.waited_on).0 b

-- `{ applied, record }`
abbrev pub Transition : Type 0
Transition = Bool × Option RestoreRequestRecord

unfoldable pub transition :
    WriteResult
    → String
    → (RestoreRequestRecord → Bool)
    → (RestoreRequestRecord → RestoreRequestRecord)
    → Broker
    → Transition × Broker
transition w id guard next b =
    let store = read_store b in
    elim (lookup id store) [
      | none ↦ ((false, none), b)
      | some current ↦
          if guard current
          then ((true, some (next current)), write_store w (insert id (next current) store) b)
          else ((false, some current), b)
    ]

unfoldable pub expire : RestoreRequestRecord → RestoreRequestRecord
expire r = record r {
  status = expired;
  failure_reason = some (
      String.◌++◌ "Provider '"
        (String.◌++◌ r.provider_deployment_id "' did not respond before the deadline."));
}

unfoldable pub get : ℕ → WriteResult → String → Broker → Option RestoreRequestRecord × Broker
get now w id b =
    let store = read_store b in
    elim (lookup id store) [
      | none ↦ (none, b)
      | some r ↦
          if is_restore_request_expired r now
          then (some (expire r), write_store w (insert id (expire r) store) b)
          else (some r, b)
    ]

-- The loop's variables: `out`, `dirty` and `expired`.
pub record Poll : Type 0 where
  pub out : List RestoreRequestRecord
  pub dirty : Bool
  pub expired : RestoreRequestStore

unfoldable pub poll_round : ℕ → String → String → RestoreRequestRecord → Poll → Poll
poll_round now provider id r p =
    if not (str_eq r.provider_deployment_id provider)
    then p
    else if is_restore_request_expired r now
    then record p { expired = insert id (expire r) p.expired; dirty = true }
    else if is_pending r.status
    then record p { out = p.out ++ r ∷ [] }
    else p

unfoldable pub poll_loop : ℕ → String → RestoreRequestStore → Poll → Poll
poll_loop now provider [] p = p
poll_loop now provider ((id, r) ∷ store) p =
    poll_loop now provider store (poll_round now provider id r p)

unfoldable pub pending_for : ℕ → WriteResult → String → Broker → List RestoreRequestRecord × Broker
pending_for now w provider b =
    let store = read_store b in
    let p = poll_loop now provider store (record { out = []; dirty = false; expired = store }) in
    let (next, pruned) = prune_terminal_requests p.expired now b.waited_on in
    (p.out, if p.dirty || not (is_empty pruned) then write_store w next b else b)
