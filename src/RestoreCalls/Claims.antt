-- ===== src/RestoreCalls/Claims.antt =====
-- How often a request is claimed, in the order of the callers' sections.
use hola.Prelude.{
  ℕ, ◌+◌, ◌≤◌, String, ◌≡◌, inl, inr, Bool, true, false, ◌&&◌, Option, none, some, List, [], ◌∷◌,
  arith, Option-cases, str_eq, eq_iff, lookup, insert, All,
}
use hola.JsonRecordStore.{WriteResult, written, write, read}
use hola.RestoreBroker.{
  RestoreRequestRecord, RestoreRequestStore, Broker, Poll, is_pending, read_store, write_store,
  split_kept, keeps_record, find_anchor, prune_terminal_requests, update, transition, get, expire,
  poll_round, poll_loop, pending_for, retain_while_waiting, release_wait,
}
use hola.RestoreBroker.Anchors.{prune-eq-split_kept}
use hola.RestoreCalls.{
  RestoreAsk, create_request, new_restore_request, claim_transition, complete_transition, Outcome,
  claim_record, completion,
}
use hola.RestoreCalls.Events.{
  Event, create, fetch, poll, claim, complete, wait_on, stop_waiting, after, run, write_of, one_if,
  claims_in, applied_claims, creates_in, creations,
}

-- The claims that the store still allows for `id`: its entries that are pending.
pub pending_count : String → RestoreRequestStore → ℕ
pending_count id [] = 0
pending_count id ((j, r) ∷ s) = one_if (str_eq j id && is_pending r.status) + pending_count id s

pending_count-insert :
    (id j : String) (v : RestoreRequestRecord) (s : RestoreRequestStore)
    → pending_count id (insert j v s)
      ≤ one_if (str_eq j id && is_pending v.status) + pending_count id s
unfolding pending_count insert
pending_count-insert id j v [] = ground arith
pending_count-insert id j v ((i, r) ∷ s) =
    ground (arith, eq_iff i j, eq_iff j id, eq_iff i id, pending_count-insert id j v s)

pending_count-claim :
    (id : String) (r v : RestoreRequestRecord) (s : RestoreRequestStore)
    → lookup id s ≡ some r
    → is_pending r.status ≡ true
    → is_pending v.status ≡ false
    → pending_count id (insert id v s) + 1 ≤ pending_count id s
unfolding pending_count insert lookup
pending_count-claim id r v [] h p q = cc
pending_count-claim id r v ((i, u) ∷ s) h p q =
    ground (arith, eq_iff i id, pending_count-claim id r v s)

pending_count-split_kept :
    (id : String) (keep : String → RestoreRequestRecord → Bool) (s : RestoreRequestStore)
    → pending_count id (split_kept keep s).0 ≤ pending_count id s
unfolding pending_count split_kept
pending_count-split_kept id keep [] = omega arith
pending_count-split_kept id keep ((i, r) ∷ s) = ground (arith, pending_count-split_kept id keep s)

pending_count-prune :
    (id : String) (s : RestoreRequestStore) (now : ℕ) (retain : List String)
    → pending_count id (prune_terminal_requests s now retain).0 ≤ pending_count id s
pending_count-prune id s now retain =
    rw (prune-eq-split_kept s now retain)
      (pending_count-split_kept id (keeps_record now retain (find_anchor s none)) s)

pending_count-expire :
    (id j : String) (r : RestoreRequestRecord) (s : RestoreRequestStore)
    → pending_count id (insert j (expire r) s) ≤ pending_count id s
unfolding expire
pending_count-expire id j r s = ground (arith, pending_count-insert id j (expire r) s)

pending_count-poll_round :
    (id : String) (now : ℕ) (provider j : String) (r : RestoreRequestRecord) (p : Poll)
    → pending_count id (poll_round now provider j r p).expired ≤ pending_count id p.expired
unfolding poll_round
pending_count-poll_round id now provider j r p =
    ground (arith, pending_count-expire id j r p.expired)

pending_count-poll_loop :
    (id : String) (now : ℕ) (provider : String) (s : RestoreRequestStore) (p : Poll)
    → pending_count id (poll_loop now provider s p).expired ≤ pending_count id p.expired
unfolding poll_loop
pending_count-poll_loop id now provider [] p = omega arith
pending_count-poll_loop id now provider ((j, r) ∷ s) p = omega (
  arith,
  pending_count-poll_loop id now provider s (poll_round now provider j r p),
  pending_count-poll_round id now provider j r p,
)

pub read_store-write_store :
    (w : WriteResult) (s : RestoreRequestStore) (b : Broker)
    → w ≡ written
    → read_store (write_store w s b) ≡ s
unfolding read_store write_store read write
read_store-write_store w s b h = ground arith

pending_count-create :
    (id : String) (now : ℕ) (w : WriteResult) (ask : RestoreAsk) (b : Broker)
    → w ≡ written
    → pending_count id (read_store (create_request now w ask b))
      ≤ one_if (str_eq ask.request_id id) + pending_count id (read_store b)
unfolding create_request update
pending_count-create id now w ask b h =
    let r = new_restore_request ask in
    let s = insert ask.request_id r (read_store b) in
    rw (read_store-write_store w _ b h) (
      ground (
        arith,
        pending_count-prune id s now b.waited_on,
        pending_count-insert id ask.request_id r (read_store b),
      ))

pending_count-get :
    (id : String) (now : ℕ) (w : WriteResult) (j : String) (b : Broker)
    → w ≡ written
    → pending_count id (read_store (get now w j b).1) ≤ pending_count id (read_store b)
unfolding get
pending_count-get id now w j b h = elim (Option-cases (lookup j (read_store b))) [
  | inl e ↦ ground arith
  | inr (r, e) ↦ ground (
    arith,
    pending_count-expire id j r (read_store b),
    read_store-write_store w (insert j (expire r) (read_store b)) b,
  )
]

pending_count-pending_for :
    (id : String) (now : ℕ) (w : WriteResult) (provider : String) (b : Broker)
    → w ≡ written
    → pending_count id (read_store (pending_for now w provider b).1)
      ≤ pending_count id (read_store b)
unfolding pending_for
pending_count-pending_for id now w provider b h =
    let s = read_store b in
    let p = poll_loop now provider s (record { out = []; dirty = false; expired = s }) in
    ground (
      arith,
      pending_count-poll_loop id now provider s (record { out = []; dirty = false; expired = s }),
      pending_count-prune id p.expired now b.waited_on,
      read_store-write_store w (prune_terminal_requests p.expired now b.waited_on).0 b h,
    )

pending_count-claim_transition :
    (id : String) (now : ℕ) (w : WriteResult) (j : String) (b : Broker)
    → w ≡ written
    → one_if (str_eq j id && (claim_transition now w j b).0.0)
        + pending_count id (read_store (claim_transition now w j b).1)
      ≤ pending_count id (read_store b)
unfolding claim_transition transition
pending_count-claim_transition id now w j b h = elim (Option-cases (lookup j (read_store b))) [
  | inl e ↦ ground arith
  | inr (r, e) ↦
      let v : RestoreRequestRecord = claim_record now r in
      ground (
        arith,
        eq_iff j id,
        pending_count-claim j r v (read_store b),
        pending_count-insert id j v (read_store b),
        read_store-write_store w (insert j v (read_store b)) b,
      )
]

pending_count-complete_transition :
    (id : String) (now : ℕ) (w : WriteResult) (j : String) (outcome : Outcome)
    (reason : Option String) (b : Broker)
    → w ≡ written
    → pending_count id (read_store (complete_transition now w j outcome reason b).1)
      ≤ pending_count id (read_store b)
unfolding complete_transition transition
pending_count-complete_transition id now w j outcome reason b h =
    elim (Option-cases (lookup j (read_store b))) [
      | inl e ↦ ground arith
      | inr (r, e) ↦
          let v : RestoreRequestRecord = completion now outcome reason r in
          ground (
            arith,
            pending_count-insert id j v (read_store b),
            read_store-write_store w (insert j v (read_store b)) b,
          )
    ]

abbrev pub AllWritten : List Event → Type 0
AllWritten es = All (λ e. write_of e ≡ written) es

-- One event: what it claims comes out of what the store allowed before, or was created.
claims_in-pending_count :
    (id : String) (e : Event) (b : Broker)
    → write_of e ≡ written
    → claims_in id e b + pending_count id (read_store (after e b))
      ≤ pending_count id (read_store b) + creates_in id e
unfolding claims_in after retain_while_waiting release_wait read_store
claims_in-pending_count id (create now w ask) b h =
    omega (arith, pending_count-create id now w ask b h)
claims_in-pending_count id (fetch now w j) b h = omega (arith, pending_count-get id now w j b h)
claims_in-pending_count id (poll now w provider) b h =
    omega (arith, pending_count-pending_for id now w provider b h)
claims_in-pending_count id (claim now w j) b h =
    omega (arith, pending_count-claim_transition id now w j b h)
claims_in-pending_count id (complete now w j outcome reason) b h =
    omega (arith, pending_count-complete_transition id now w j outcome reason b h)
claims_in-pending_count id (wait_on j) b h = ground arith
claims_in-pending_count id (stop_waiting j) b h = ground arith

-- However the callers' locked sections interleave, and whatever the times and the providers: if
-- every write reached the file, the claims of `id` that were applied, with those still allowed at
-- the end, are at most those allowed at the start and the requests created under that id.
pub claim_budget :
    (id : String) (es : List Event) (b : Broker)
    → AllWritten es
    → applied_claims id es b + pending_count id (read_store (run es b))
      ≤ pending_count id (read_store b) + creations id es
unfolding applied_claims run
claim_budget id [] b h = omega arith
claim_budget id (e ∷ es) b h =
    omega (arith, claim_budget id es (after e b) h.1, claims_in-pending_count id e b h.0)
