-- ===== src/RestoreBroker/Retention.antt =====
-- Retention: `pruneTerminalRequests`, record by record.
use hola.Prelude.{
  ℕ, ◌+◌, ◌≤◌, String, ◌≡◌, ◌⊎◌, inl, inr, true, false, Option, none, some, List, arith,
  if◌then◌else◌, Bool-cases, Option-cases, HasDistinctKeys, includes, lookup,
}
use hola.RestoreBroker.{
  RestoreRequestRecord, RestoreRequestStore, terminal_at_ms, find_anchor, keeps_record,
  prune_terminal_requests, is_terminal_restore_request, is_anchor,
}
use hola.RestoreBroker.Anchors.{prune-eq-split_kept}
use hola.RestoreBroker.Prune.{lookup-split_kept}

pub lookup-prune :
    (s : RestoreRequestStore) (now : ℕ) (retain : List String) (id : String)
    → HasDistinctKeys s
    → lookup id (prune_terminal_requests s now retain).0 ≡ (elim (lookup id s) [
      | none ↦ none
      | some r ↦ if keeps_record now retain (find_anchor s none) id r then some r else none
    ])
lookup-prune s now retain id h =
    rw (prune-eq-split_kept s now retain)
      (lookup-split_kept (keeps_record now retain (find_anchor s none)) s id h)

-- What retention allows to go: a terminal record that no job waits on, that is not the newest
-- terminal one, and whose end has no readable time or lies a day back or longer.
abbrev pub MayDrop : ℕ → List String → Option (String × ℕ) → String → RestoreRequestRecord → Type 0
MayDrop now retain newest id r =
    (is_terminal_restore_request r ≡ true)
    × (includes retain id ≡ false)
    × (is_anchor newest id ≡ false)
    × ((terminal_at_ms r ≡ none) ⊎ ((t : ℕ) × (terminal_at_ms r ≡ some t) × (t + 86400000 ≤ now)))

keeps-or-MayDrop :
    (now : ℕ) (retain : List String) (newest : Option (String × ℕ)) (id : String)
    (r : RestoreRequestRecord)
    → ((keeps_record now retain newest id r ≡ true) × (¬ MayDrop now retain newest id r))
      ⊎ ((keeps_record now retain newest id r ≡ false) × MayDrop now retain newest id r)
unfolding keeps_record
keeps-or-MayDrop now retain newest id r = elim (Option-cases (terminal_at_ms r)) [
  | inl e ↦ elim (Bool-cases (keeps_record now retain newest id r)) [
    | inl k ↦ inl (k, λ m. ground arith)
    | inr k ↦ inr (k, (ground arith, ground arith, ground arith, inl e))
  ]
  | inr (t, e) ↦ elim (Bool-cases (keeps_record now retain newest id r)) [
    | inl k ↦ inl (k, λ m. ground arith)
    | inr k ↦ inr (k, (ground arith, ground arith, ground arith, inr (t, e, ground arith)))
  ]
]

-- In a store that holds each id once, pruning drops a record exactly if retention allows it to go,
-- and keeps every other record as it is.
pub lookup-prune_exact :
    (s : RestoreRequestStore) (now : ℕ) (retain : List String) (id : String)
    (r : RestoreRequestRecord)
    → HasDistinctKeys s
    → lookup id s ≡ some r
    → ((lookup id (prune_terminal_requests s now retain).0 ≡ some r)
        × (¬ MayDrop now retain (find_anchor s none) id r))
      ⊎ ((lookup id (prune_terminal_requests s now retain).0 ≡ none)
          × MayDrop now retain (find_anchor s none) id r)
lookup-prune_exact s now retain id r d h = rw (lookup-prune s now retain id d) (
    rw h (elim (keeps-or-MayDrop now retain (find_anchor s none) id r) [
      | inl (k, m) ↦ inl (rw k, m)
      | inr (k, m) ↦ inr (rw k, m)
    ]))
