-- ===== src/RestoreCalls/Outcomes.antt =====
-- The outcome that a waiting job reads.
use hola.Prelude.{
  String, ◌≡◌, inl, inr, Bool, true, false, not, ◌≢◌, some, List, [], ◌∷◌, ◌++◌, arith, str_eq,
  eq_iff, includes, lookup, All, select,
}
use hola.JsonRecordStore.{torn}
use hola.RestoreBroker.{
  RestoreRequestRecord, Broker, is_pending, is_claimed, read_store, write_store, update,
  is_terminal_restore_request, retain_while_waiting, release_wait,
}
use hola.RestoreBroker.Cases.{transition_cases, get_cases, pending_for_cases}
use hola.RestoreCalls.{
  create_request, claim_transition, complete_transition, claim_record, completion,
}
use hola.RestoreCalls.Events.{
  Event, create, fetch, poll, claim, complete, wait_on, stop_waiting, after, run, write_of,
  creates_in,
}
use hola.RestoreCalls.Lasting.{after-IsValid}
use hola.RestoreCalls.Held.{
  IsAwaited, held-transition, held-get, held-pending_for, held-create_request,
}

abbrev pub releases : String → Event → Bool
releases id (stop_waiting j) = str_eq j id
releases id _ = false

-- The job that waits has not let go, no second request takes the id, and no write tears the file.
pub record LeavesAlone (id : String) (e : Event) : Type 0 where
  pub not_released : releases id e ≡ false
  pub not_created : creates_in id e ≡ 0
  pub not_torn : write_of e ≢ torn

includes-append :
    (xs ys : List String) (id : String) → includes xs id ≡ true → includes (xs ++ ys) id ≡ true
includes-append [] ys id h = cc
includes-append (x ∷ xs) ys id h = ground (arith, includes-append xs ys id)

includes-release :
    (xs : List String) (j id : String)
    → str_eq j id ≡ false
    → includes xs id ≡ true
    → includes (select (λ x. not (str_eq x j)) xs) id ≡ true
includes-release [] j id ne h = cc
includes-release (x ∷ xs) j id ne h =
    ground (arith, eq_iff x id, eq_iff x j, eq_iff j id, includes-release xs j id ne)

pinned-after :
    (id : String) (e : Event) (b : Broker)
    → releases id e ≡ false
    → includes b.waited_on id ≡ true
    → includes (after e b).waited_on id ≡ true
unfolding after create_request update claim_transition complete_transition retain_while_waiting
    release_wait write_store
pinned-after id (create now w ask) b ne h = h
pinned-after id (fetch now w j) b ne h = elim (get_cases now w j b) [
  | inl e ↦ rw e h
  | inr (r, _, _, e) ↦ rw e h
]
pinned-after id (poll now w provider) b ne h = elim (pending_for_cases now w provider b) [
  | inl e ↦ rw e h
  | inr e ↦ rw e h
]
pinned-after id (claim now w j) b ne h =
    elim (transition_cases w j (λ u. is_pending u.status) (claim_record now) b) [
      | inl e ↦ rw e h
      | inr (r, _, _, e) ↦ rw e h
    ]
pinned-after id (complete now w j outcome reason) b ne h =
    elim (transition_cases w j (λ u. is_claimed u.status) (completion now outcome reason) b) [
      | inl e ↦ rw e h
      | inr (r, _, _, e) ↦ rw e h
    ]
pinned-after id (wait_on j) b ne h = ground (arith, includes-append b.waited_on (j ∷ []) id h)
pinned-after id (stop_waiting j) b ne h = includes-release b.waited_on j id ne h

held-after :
    (id : String) (r : RestoreRequestRecord) (e : Event) (b : Broker)
    → is_terminal_restore_request r ≡ true
    → LeavesAlone id e
    → IsAwaited id r b
    → lookup id (read_store (after e b)) ≡ some r
unfolding after claim_transition complete_transition retain_while_waiting release_wait read_store
held-after id r (create now w ask) b t l a =
    held-create_request now w ask id b r (ground (arith, l.not_created)) l.not_torn a
held-after id r (fetch now w j) b t l a = held-get now w id j b r t l.not_torn a.held
held-after id r (poll now w provider) b t l a =
    held-pending_for now w provider id b r t l.not_torn a
held-after id r (claim now w j) b t l a =
    held-transition w id j (λ u. is_pending u.status) (claim_record now) b r (ground arith)
      l.not_torn a.held
held-after id r (complete now w j outcome reason) b t l a =
    held-transition w id j (λ u. is_claimed u.status) (completion now outcome reason) b r
      (ground arith) l.not_torn a.held
held-after id r (wait_on j) b t l a = a.held
held-after id r (stop_waiting j) b t l a = a.held

-- If a job waits on a request whose terminal record is stored, and each id is stored once, then the
-- job still waits and the record is unchanged after any sections of the other callers and at any
-- times: as long as the job has not let go, the id is not
-- created anew, and no write leaves the file torn. A write that fails and keeps the old file does
-- no harm.
pub run-IsAwaited :
    (id : String) (r : RestoreRequestRecord) (es : List Event) (b : Broker)
    → is_terminal_restore_request r ≡ true
    → All (LeavesAlone id) es
    → IsAwaited id r b
    → IsAwaited id r (run es b)
unfolding run
run-IsAwaited id r [] b t l a = a
run-IsAwaited id r (e ∷ es) b t (l, ls) a = run-IsAwaited id r es (after e b) t ls (record {
  valid = after-IsValid e b a.valid;
  pinned = pinned-after id e b l.not_released a.pinned;
  held = held-after id r e b t l a;
})
