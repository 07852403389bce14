-- ===== src/RestoreBroker/Cases.antt =====
-- The store's operations by cases: which of them write, and what.
use hola.Prelude.{
  ℕ, String, ◌≡◌, refl, ◌⊎◌, inl, inr, Bool, true, false, some, [], arith, Option-cases, Bool-cases,
  str_eq, lookup, insert,
}
use hola.JsonRecordStore.{WriteResult, written, kept, torn, read, write}
use hola.RestoreBroker.{
  RestoreRequestRecord, RestoreRequestStore, Broker, Poll, read_store, write_store, expire,
  transition, get, is_restore_request_expired, poll_round, poll_loop, pending_for,
  prune_terminal_requests,
}

-- What `write_store` leaves to be read.
pub write_store_cases :
    (w : WriteResult) (s : RestoreRequestStore) (b : Broker)
    → ((w ≡ written) × (read_store (write_store w s b) ≡ s))
      ⊎ ((w ≡ kept) × (read_store (write_store w s b) ≡ read_store b))
      ⊎ ((w ≡ torn) × (read_store (write_store w s b) ≡ []))
unfolding write_store read_store write read
write_store_cases written s b = inl (refl, refl)
write_store_cases kept s b = inr (inl (refl, refl))
write_store_cases torn s b = inr (inr (refl, refl))

pub transition_cases :
    (w : WriteResult) (id : String) (guard : RestoreRequestRecord → Bool)
    (next : RestoreRequestRecord → RestoreRequestRecord) (b : Broker)
    → ((transition w id guard next b).1 ≡ b)
      ⊎ ((r : RestoreRequestRecord) × (lookup id (read_store b) ≡ some r)
          × (guard r ≡ true)
          × ((transition w id guard next b).1
              ≡ write_store w (insert id (next r) (read_store b)) b))
unfolding transition
transition_cases w id guard next b = elim (Option-cases (lookup id (read_store b))) [
  | inl e ↦ inl (ground arith)
  | inr (r, e) ↦ elim (Bool-cases (guard r)) [
    | inl g ↦ inr (r, e, g, ground arith)
    | inr g ↦ inl (ground arith)
  ]
]

pub get_cases :
    (now : ℕ) (w : WriteResult) (id : String) (b : Broker)
    → ((get now w id b).1 ≡ b)
      ⊎ ((r : RestoreRequestRecord) × (lookup id (read_store b) ≡ some r)
          × (is_restore_request_expired r now ≡ true)
          × ((get now w id b).1 ≡ write_store w (insert id (expire r) (read_store b)) b))
unfolding get
get_cases now w id b = elim (Option-cases (lookup id (read_store b))) [
  | inl e ↦ inl (ground arith)
  | inr (r, e) ↦ elim (Bool-cases (is_restore_request_expired r now)) [
    | inl x ↦ inr (r, e, x, ground arith)
    | inr x ↦ inl (ground arith)
  ]
]

pub poll_round_cases :
    (now : ℕ) (provider id : String) (r : RestoreRequestRecord) (p : Poll)
    → ((poll_round now provider id r p).expired ≡ p.expired)
      ⊎ ((is_restore_request_expired r now ≡ true)
          × ((poll_round now provider id r p).expired ≡ insert id (expire r) p.expired))
unfolding poll_round
poll_round_cases now provider id r p =
    elim (Bool-cases (str_eq r.provider_deployment_id provider)) [
      | inr other ↦ inl (ground arith)
      | inl own ↦ elim (Bool-cases (is_restore_request_expired r now)) [
        | inl x ↦ inr (x, ground arith)
        | inr x ↦ inl (ground arith)
      ]
    ]

-- The loop of `pendingFor` over the store that it copies.
abbrev pub swept : ℕ → String → RestoreRequestStore → Poll
swept now provider s = poll_loop now provider s (record { out = []; dirty = false; expired = s })

pub pending_for_cases :
    (now : ℕ) (w : WriteResult) (provider : String) (b : Broker)
    → ((pending_for now w provider b).1 ≡ b)
      ⊎ ((pending_for now w provider b).1
          ≡ write_store w
              (prune_terminal_requests
                (swept now provider (read_store b)).expired
                now
                b.waited_on).0
              b)
unfolding pending_for
pending_for_cases now w provider b = grind arith
