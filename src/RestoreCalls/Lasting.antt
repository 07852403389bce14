-- ===== src/RestoreCalls/Lasting.antt =====
-- The ids in the queue, through the callers' sections.
use hola.Prelude.{
  ℕ, String, ◌≡◌, refl, inl, inr, Bool, false, none, List, [], ◌∷◌, arith, Bool-cases, lookup,
  insert, HasDistinctKeys, insert-HasDistinctKeys,
}
use hola.JsonRecordStore.{WriteResult, written, kept, torn, write, read}
use hola.RestoreBroker.{
  RestoreRequestRecord, RestoreRequestStore, Broker, Poll, read_store, expire, write_store,
  transition, poll_loop, poll_round, split_kept, keeps_record, find_anchor, prune_terminal_requests,
  update, retain_while_waiting, release_wait,
}
use hola.RestoreBroker.Cases.{
  transition_cases, get_cases, poll_round_cases, swept, pending_for_cases,
}
use hola.RestoreBroker.Anchors.{prune-eq-split_kept}
use hola.RestoreCalls.{
  create_request, claim_transition, complete_transition, new_restore_request, claim_record,
  completion,
}
use hola.RestoreCalls.Events.{
  Event, create, fetch, poll, claim, complete, wait_on, stop_waiting, after, run,
}

module _ (keep : String → RestoreRequestRecord → Bool) where
  lookup-split_kept-none :
      (s : RestoreRequestStore) (id : String)
      → lookup id s ≡ none
      → lookup id (split_kept keep s).0 ≡ none
  unfolding split_kept lookup
  lookup-split_kept-none [] id h = refl
  lookup-split_kept-none ((j, r) ∷ s) id h = ground (arith, lookup-split_kept-none s id)

  split_kept-HasDistinctKeys :
      (s : RestoreRequestStore) → HasDistinctKeys s → HasDistinctKeys (split_kept keep s).0
  unfolding split_kept
  split_kept-HasDistinctKeys [] h = tt
  split_kept-HasDistinctKeys ((j, r) ∷ s) h = elim (Bool-cases (keep j r)) [
    | inl k ↦ rw k (lookup-split_kept-none s j h.0, split_kept-HasDistinctKeys s h.1)
    | inr k ↦ rw k (split_kept-HasDistinctKeys s h.1)
  ]

prune-HasDistinctKeys :
    (s : RestoreRequestStore) (now : ℕ) (retain : List String)
    → HasDistinctKeys s
    → HasDistinctKeys (prune_terminal_requests s now retain).0
prune-HasDistinctKeys s now retain h =
    rw (prune-eq-split_kept s now retain)
      (split_kept-HasDistinctKeys (keeps_record now retain (find_anchor s none)) s h)

-- Each id stands once in the store.
abbrev pub IsValid : Broker → Type 0
IsValid b = HasDistinctKeys (read_store b)

write_store-IsValid :
    (w : WriteResult) (s : RestoreRequestStore) (b : Broker)
    → HasDistinctKeys s
    → IsValid b
    → IsValid (write_store w s b)
unfolding write_store read_store write read
write_store-IsValid written s b h v = h
write_store-IsValid kept s b h v = v
write_store-IsValid torn s b h v = tt

poll_round-HasDistinctKeys :
    (now : ℕ) (provider j : String) (r : RestoreRequestRecord) (p : Poll)
    → HasDistinctKeys p.expired
    → HasDistinctKeys (poll_round now provider j r p).expired
poll_round-HasDistinctKeys now provider j r p h = elim (poll_round_cases now provider j r p) [
  | inl e ↦ rw e h
  | inr (x, e) ↦ rw e (insert-HasDistinctKeys j (expire r) p.expired h)
]

pub poll_loop-HasDistinctKeys :
    (now : ℕ) (provider : String) (s : RestoreRequestStore) (p : Poll)
    → HasDistinctKeys p.expired
    → HasDistinctKeys (poll_loop now provider s p).expired
unfolding poll_loop
poll_loop-HasDistinctKeys now provider [] p h = h
poll_loop-HasDistinctKeys now provider ((j, r) ∷ s) p h =
    poll_loop-HasDistinctKeys now provider s (poll_round now provider j r p)
      (poll_round-HasDistinctKeys now provider j r p h)

transition-IsValid :
    (w : WriteResult) (id : String) (guard : RestoreRequestRecord → Bool)
    (next : RestoreRequestRecord → RestoreRequestRecord) (b : Broker)
    → IsValid b
    → IsValid (transition w id guard next b).1
transition-IsValid w id guard next b v = elim (transition_cases w id guard next b) [
  | inl e ↦ rw e v
  | inr (r, _, _, e) ↦ rw e (
      write_store-IsValid w (insert id (next r) (read_store b)) b
        (insert-HasDistinctKeys id (next r) (read_store b) v) v)
]

pruned-IsValid :
    (w : WriteResult) (s : RestoreRequestStore) (now : ℕ) (b : Broker)
    → HasDistinctKeys s
    → IsValid b
    → IsValid (write_store w (prune_terminal_requests s now b.waited_on).0 b)
pruned-IsValid w s now b h v =
    write_store-IsValid w (prune_terminal_requests s now b.waited_on).0 b
      (prune-HasDistinctKeys s now b.waited_on h) v

-- Every section of the store, whatever becomes of its write, leaves each id at most once.
pub after-IsValid : (e : Event) (b : Broker) → IsValid b → IsValid (after e b)
unfolding after create_request update claim_transition complete_transition retain_while_waiting
    release_wait read_store
after-IsValid (create now w ask) b v =
    pruned-IsValid w (insert ask.request_id (new_restore_request ask) (read_store b)) now b
      (insert-HasDistinctKeys ask.request_id (new_restore_request ask) (read_store b) v) v
after-IsValid (fetch now w id) b v = elim (get_cases now w id b) [
  | inl e ↦ rw e v
  | inr (r, _, _, e) ↦ rw e (
      write_store-IsValid w (insert id (expire r) (read_store b)) b
        (insert-HasDistinctKeys id (expire r) (read_store b) v) v)
]
after-IsValid (poll now w provider) b v = elim (pending_for_cases now w provider b) [
  | inl e ↦ rw e v
  | inr e ↦ rw e (
      pruned-IsValid w (swept now provider (read_store b)).expired now b
        (poll_loop-HasDistinctKeys now provider (read_store b)
          (record { out = []; dirty = false; expired = read_store b }) v)
        v)
]
after-IsValid (claim now w id) b v = transition-IsValid w id _ (claim_record now) b v
after-IsValid (complete now w id outcome reason) b v =
    transition-IsValid w id _ (completion now outcome reason) b v
after-IsValid (wait_on id) b v = v
after-IsValid (stop_waiting id) b v = v

-- Whatever the sections that run, each id stands at most once in the store if it did at the start.
pub run-IsValid : (es : List Event) (b : Broker) → IsValid b → IsValid (run es b)
unfolding run
run-IsValid [] b v = v
run-IsValid (e ∷ es) b v = run-IsValid es (after e b) (after-IsValid e b v)
