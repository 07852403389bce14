-- ===== src/RestoreCalls/Events.antt =====
-- The queue under all of its callers: each event is one locked section of the store, in the order
-- in which the sections run.
use hola.Prelude.{ℕ, ◌+◌, String, Bool, Option, List, [], ◌∷◌, if◌then◌else◌, str_eq, ◌&&◌}
use hola.JsonRecordStore.{WriteResult, written}
use hola.RestoreBroker.{Broker, get, pending_for, retain_while_waiting, release_wait}
use hola.RestoreCalls.{RestoreAsk, Outcome, create_request, claim_transition, complete_transition}

pub data Event : Type 0 where
  create : ℕ → WriteResult → RestoreAsk → Event
  fetch : ℕ → WriteResult → String → Event
  poll : ℕ → WriteResult → String → Event
  claim : ℕ → WriteResult → String → Event
  complete : ℕ → WriteResult → String → Outcome → Option String → Event
  wait_on stop_waiting : String → Event

unfoldable pub after : Event → Broker → Broker
after (create now w ask) b = create_request now w ask b
after (fetch now w id) b = (get now w id b).1
after (poll now w provider) b = (pending_for now w provider b).1
after (claim now w id) b = (claim_transition now w id b).1
after (complete now w id outcome reason) b = (complete_transition now w id outcome reason b).1
after (wait_on id) b = retain_while_waiting id b
after (stop_waiting id) b = release_wait id b

unfoldable pub run : List Event → Broker → Broker
run [] b = b
run (e ∷ es) b = run es (after e b)

abbrev pub write_of : Event → WriteResult
write_of (create now w ask) = w
write_of (fetch now w id) = w
write_of (poll now w provider) = w
write_of (claim now w id) = w
write_of (complete now w id outcome reason) = w
write_of _ = written

abbrev pub one_if : Bool → ℕ
one_if b = if b then 1 else 0

-- How many claims of `id` this event applies: 0 or 1.
unfoldable pub claims_in : String → Event → Broker → ℕ
claims_in id (claim now w j) b = one_if (str_eq j id && (claim_transition now w j b).0.0)
claims_in id _ b = 0

-- How many claims of `id` are applied along the events.
unfoldable pub applied_claims : String → List Event → Broker → ℕ
applied_claims id [] b = 0
applied_claims id (e ∷ es) b = claims_in id e b + applied_claims id es (after e b)

abbrev pub creates_in : String → Event → ℕ
creates_in id (create now w ask) = one_if (str_eq ask.request_id id)
creates_in id _ = 0

abbrev pub creations : String → List Event → ℕ
creations id [] = 0
creations id (e ∷ es) = creates_in id e + creations id es
