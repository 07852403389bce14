-- ===== src/RestoreBroker/Prune.antt =====
-- Retention: the newest terminal record, and pruning twice.
use hola.Prelude.{
  ℕ, String, ◌≡◌, refl, sym, ◌∙◌, ap, inl, inr, Bool, Option, none, some, List, [], ◌∷◌, arith, ltb,
  if◌then◌else◌, Bool-cases, eq_iff, HasDistinctKeys, lookup,
}
use hola.RestoreBroker.{
  RestoreRequestRecord, RestoreRequestStore, terminal_at_ms, newer_anchor, find_anchor,
  keeps_record, split_kept, prune_terminal_requests, is_terminal_restore_request,
}
use hola.RestoreBroker.Anchors.{Anchor, prune-eq-split_kept, find_anchor-prune}

-- The time of the latest finish, independently of the search: the greatest time at which a
-- terminal record became terminal.
abbrev pub later : Option ℕ → Option ℕ → Option ℕ
later none o = o
later (some a) none = some a
later (some a) (some b) = some (if ltb a b then b else a)

abbrev pub latest_finish : RestoreRequestStore → Option ℕ
latest_finish [] = none
latest_finish ((id, r) ∷ s) =
    later (if is_terminal_restore_request r then terminal_at_ms r else none) (latest_finish s)

abbrev time_of : Anchor → Option ℕ
time_of none = none
time_of (some (_, t)) = some t

later_assoc : (a b c : Option ℕ) → later (later a b) c ≡ later a (later b c)
later_assoc none b c = refl
later_assoc (some a) none c = refl
later_assoc (some a) (some b) none = refl
later_assoc (some a) (some b) (some c) = ground arith

time_of-newer_anchor :
    (id : String) (r : RestoreRequestRecord) (b : Anchor)
    → time_of (newer_anchor id r b)
      ≡ later (time_of b) (if is_terminal_restore_request r then terminal_at_ms r else none)
unfolding newer_anchor
time_of-newer_anchor id r none = ground arith
time_of-newer_anchor id r (some (i, t)) = ground arith

later-none : (a : Option ℕ) → a ≡ later a none
later-none none = refl
later-none (some a) = refl

find_anchor-latest_finish :
    (s : RestoreRequestStore) (b : Anchor)
    → time_of (find_anchor s b) ≡ later (time_of b) (latest_finish s)
unfolding find_anchor
find_anchor-latest_finish [] b = later-none (time_of b)
find_anchor-latest_finish ((id, r) ∷ s) b =
    find_anchor-latest_finish s (newer_anchor id r b)
    ∙ rw (time_of-newer_anchor id r b) (later_assoc (time_of b) _ (latest_finish s))

-- However old the records are, pruning leaves the time of the latest finish as it was: the newest
-- terminal record survives.
pub latest_finish-prune :
    (s : RestoreRequestStore) (now : ℕ) (retain : List String)
    → latest_finish (prune_terminal_requests s now retain).0 ≡ latest_finish s
latest_finish-prune s now retain =
    sym (find_anchor-latest_finish (prune_terminal_requests s now retain).0 none)
    ∙ ap time_of (find_anchor-prune s now retain)
    ∙ find_anchor-latest_finish s none

split_kept_idem :
    (keep : String → RestoreRequestRecord → Bool) (s : RestoreRequestStore)
    → split_kept keep (split_kept keep s).0 ≡ ((split_kept keep s).0, [])
unfolding split_kept
split_kept_idem keep [] = refl
split_kept_idem keep ((id, r) ∷ s) = elim (Bool-cases (keep id r)) [
  | inl kept ↦ rw kept (rw kept (rw (split_kept_idem keep s)))
  | inr gone ↦ rw gone (split_kept_idem keep s)
]

prune_kept :
    (s : RestoreRequestStore) (now : ℕ) (retain : List String)
    → split_kept (keeps_record now retain (find_anchor s none)) s ≡ (s, [])
    → prune_terminal_requests s now retain ≡ (s, [])
unfolding prune_terminal_requests
prune_kept s now retain h = rw h

-- At one time and with one set of pinned ids, pruning twice prunes what pruning once does: the
-- second run keeps every record.
prune_idem :
    (s : RestoreRequestStore) (now : ℕ) (retain : List String)
    → prune_terminal_requests (prune_terminal_requests s now retain).0 now retain
      ≡ ((prune_terminal_requests s now retain).0, [])
prune_idem s now retain = prune_kept (prune_terminal_requests s now retain).0 now retain (
    rw (find_anchor-prune s now retain) (
      rw (prune-eq-split_kept s now retain)
        (split_kept_idem (keeps_record now retain (find_anchor s none)) s)))

pub lookup-split_kept :
    (keep : String → RestoreRequestRecord → Bool) (s : RestoreRequestStore) (id : String)
    → HasDistinctKeys s
    → lookup id (split_kept keep s).0
      ≡ (elim (lookup id s) [ none ↦ none | some r ↦ if keep id r then some r else none ])
unfolding split_kept lookup
lookup-split_kept keep [] id h = refl
lookup-split_kept keep ((j, r) ∷ s) id h =
    ground (arith, eq_iff j id, lookup-split_kept keep s id h.1)
