-- ===== src/RestoreCalls/Held.antt =====
-- A terminal record that a job waits on, under each of the store's operations.
use hola.Prelude.{
  ℕ, String, ◌≡◌, ◌⊎◌, inl, inr, Bool, true, false, ◌≢◌, Option, none, some, List, [], ◌∷◌, arith,
  Bool-cases, str_eq, eq_iff, includes, lookup, insert, HasDistinctKeys, lookup-insert,
  insert-HasDistinctKeys,
}
use hola.JsonRecordStore.{WriteResult, torn}
use hola.RestoreBroker.{
  RestoreRequestRecord, RestoreRequestStore, Broker, Poll, read_store, expire, write_store,
  transition, get, is_restore_request_expired, pending_for, poll_loop, poll_round, keeps_record,
  find_anchor, prune_terminal_requests, update, is_terminal_restore_request,
}
use hola.RestoreBroker.Cases.{
  write_store_cases, transition_cases, get_cases, poll_round_cases, swept, pending_for_cases,
}
use hola.RestoreBroker.Retention.{lookup-prune}
use hola.RestoreCalls.{RestoreAsk, create_request, new_restore_request}
use hola.RestoreCalls.Lasting.{IsValid, poll_loop-HasDistinctKeys}

-- The store holds each id once, a job waits on `id`, and `r` stands under it.
pub record IsAwaited (id : String) (r : RestoreRequestRecord) (b : Broker) : Type 0 where
  pub valid : IsValid b
  pub pinned : includes b.waited_on id ≡ true
  pub held : lookup id (read_store b) ≡ some r

held-write_store :
    (id : String) (r : RestoreRequestRecord) (w : WriteResult) (s : RestoreRequestStore)
    (b : Broker)
    → w ≢ torn
    → lookup id s ≡ some r
    → lookup id (read_store b) ≡ some r
    → lookup id (read_store (write_store w s b)) ≡ some r
held-write_store id r w s b ok h k = elim (write_store_cases w s b) [
  | inl (_, e) ↦ rw e h
  | inr (inl (_, e)) ↦ rw e k
  | inr (inr (t, e)) ↦ absurd (ok t)
]

keeps_record-pinned :
    (now : ℕ) (retain : List String) (newest : Option (String × ℕ)) (id : String)
    (r : RestoreRequestRecord)
    → includes retain id ≡ true
    → keeps_record now retain newest id r ≡ true
unfolding keeps_record
keeps_record-pinned now retain newest id r h = ground arith

held-prune :
    (id : String) (r : RestoreRequestRecord) (s : RestoreRequestStore) (now : ℕ)
    (retain : List String)
    → HasDistinctKeys s
    → includes retain id ≡ true
    → lookup id s ≡ some r
    → lookup id (prune_terminal_requests s now retain).0 ≡ some r
held-prune id r s now retain d p h =
    rw (lookup-prune s now retain id d)
      (rw h (rw (keeps_record-pinned now retain (find_anchor s none) id r p)))

-- An entry under another key, or a changed record under this one that cannot be.
held-insert :
    (id j : String) (r v : RestoreRequestRecord) (s : RestoreRequestStore)
    → str_eq j id ≡ false
    → lookup id s ≡ some r
    → lookup id (insert j v s) ≡ some r
held-insert id j r v s ne h = rw (lookup-insert j id v s) (ground arith)

pub held-transition :
    (w : WriteResult) (id j : String) (guard : RestoreRequestRecord → Bool)
    (next : RestoreRequestRecord → RestoreRequestRecord) (b : Broker) (r : RestoreRequestRecord)
    → guard r ≡ false
    → w ≢ torn
    → lookup id (read_store b) ≡ some r
    → lookup id (read_store (transition w j guard next b).1) ≡ some r
held-transition w id j guard next b r g ok h = elim (transition_cases w j guard next b) [
  | inl e ↦ rw e h
  | inr (u, found, passes, e) ↦ elim (Bool-cases (str_eq j id)) [
    | inl same ↦ ground (arith, eq_iff j id)
    | inr other ↦ rw e (
        held-write_store id r w (insert j (next u) (read_store b)) b ok
          (held-insert id j r (next u) (read_store b) other h) h)
  ]
]

expired-terminal :
    (r : RestoreRequestRecord) (now : ℕ)
    → is_terminal_restore_request r ≡ true
    → is_restore_request_expired r now ≡ false
unfolding is_restore_request_expired
expired-terminal r now t = ground arith

pub held-get :
    (now : ℕ) (w : WriteResult) (id j : String) (b : Broker) (r : RestoreRequestRecord)
    → is_terminal_restore_request r ≡ true
    → w ≢ torn
    → lookup id (read_store b) ≡ some r
    → lookup id (read_store (get now w j b).1) ≡ some r
held-get now w id j b r t ok h = elim (get_cases now w j b) [
  | inl e ↦ rw e h
  | inr (u, found, x, e) ↦ elim (Bool-cases (str_eq j id)) [
    | inl same ↦ ground (arith, eq_iff j id, expired-terminal r now)
    | inr other ↦ rw e (
        held-write_store id r w (insert j (expire u) (read_store b)) b ok
          (held-insert id j r (expire u) (read_store b) other h) h)
  ]
]

-- In a store that holds each id once, the rest of its entries has `r` under `id`, or nothing.
held-tail :
    (id j : String) (r u : RestoreRequestRecord) (s : RestoreRequestStore)
    → HasDistinctKeys {V = RestoreRequestRecord} ((j, u) ∷ s)
    → (lookup {V = RestoreRequestRecord} id ((j, u) ∷ s) ≡ some r)
      ⊎ (lookup {V = RestoreRequestRecord} id ((j, u) ∷ s) ≡ none)
    → (lookup id s ≡ some r) ⊎ (lookup id s ≡ none)
unfolding lookup
held-tail id j r u s d l = elim (Bool-cases (str_eq j id)) [
  | inl same ↦ inr (ground (arith, eq_iff j id))
  | inr other ↦ rw other at l
]

held-poll_round :
    (now : ℕ) (provider id j : String) (r u : RestoreRequestRecord) (s : RestoreRequestStore)
    (p : Poll)
    → is_terminal_restore_request r ≡ true
    → (lookup {V = RestoreRequestRecord} id ((j, u) ∷ s) ≡ some r)
      ⊎ (lookup {V = RestoreRequestRecord} id ((j, u) ∷ s) ≡ none)
    → lookup id p.expired ≡ some r
    → lookup id (poll_round now provider j u p).expired ≡ some r
unfolding lookup
held-poll_round now provider id j r u s p t l h = elim (poll_round_cases now provider j u p) [
  | inl e ↦ rw e h
  | inr (x, e) ↦ elim (Bool-cases (str_eq j id)) [
    | inl same ↦ ground (arith, l, same, x, expired-terminal r now)
    | inr other ↦ rw e (held-insert id j r (expire u) p.expired other h)
  ]
]

held-poll_loop :
    (now : ℕ) (provider id : String) (r : RestoreRequestRecord) (s : RestoreRequestStore) (p : Poll)
    → is_terminal_restore_request r ≡ true
    → HasDistinctKeys s
    → (lookup id s ≡ some r) ⊎ (lookup id s ≡ none)
    → lookup id p.expired ≡ some r
    → lookup id (poll_loop now provider s p).expired ≡ some r
unfolding poll_loop
held-poll_loop now provider id r [] p t d l h = h
held-poll_loop now provider id r ((j, u) ∷ s) p t d l h =
    held-poll_loop now provider id r s (poll_round now provider j u p) t d.1
      (held-tail id j r u s d l) (held-poll_round now provider id j r u s p t l h)

pub held-pending_for :
    (now : ℕ) (w : WriteResult) (provider id : String) (b : Broker) (r : RestoreRequestRecord)
    → is_terminal_restore_request r ≡ true
    → w ≢ torn
    → IsAwaited id r b
    → lookup id (read_store (pending_for now w provider b).1) ≡ some r
held-pending_for now w provider id b r t ok a = elim (pending_for_cases now w provider b) [
  | inl e ↦ rw e (a.held)
  | inr e ↦
      let p : Poll = record { out = []; dirty = false; expired = read_store b } in
      let s = (swept now provider (read_store b)).expired in
      rw e (
        held-write_store id r w (prune_terminal_requests s now b.waited_on).0 b ok
          (held-prune id r s now b.waited_on
            (poll_loop-HasDistinctKeys now provider (read_store b) p a.valid) a.pinned
            (held-poll_loop now provider id r (read_store b) p t a.valid (inl a.held) a.held))
          a.held)
]

pub held-create_request :
    (now : ℕ) (w : WriteResult) (ask : RestoreAsk) (id : String) (b : Broker)
    (r : RestoreRequestRecord)
    → str_eq ask.request_id id ≡ false
    → w ≢ torn
    → IsAwaited id r b
    → lookup id (read_store (create_request now w ask b)) ≡ some r
unfolding create_request update
held-create_request now w ask id b r ne ok a =
    let v = new_restore_request ask in
    let s = insert ask.request_id v (read_store b) in
    held-write_store id r w (prune_terminal_requests s now b.waited_on).0 b ok
      (held-prune id r s now b.waited_on
        (insert-HasDistinctKeys ask.request_id v (read_store b) a.valid) a.pinned
        (held-insert id ask.request_id r v (read_store b) ne a.held))
      a.held
