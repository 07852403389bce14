-- ===== src/RestoreBroker/Anchors.antt =====
-- The anchor of retention: the search for the newest terminal record, before and after pruning.
use hola.Prelude.{
  ℕ, ◌≤◌, String, ◌≡◌, refl, sym, ◌∙◌, ap, ◌⊎◌, inl, inr, Bool, true, false, Option, none, some,
  List, [], ◌∷◌, arith, Bool-cases, Option-cases, str_eq, eq_refl, eq_iff, ◌≢◌, is_empty,
}
use hola.RestoreBroker.{
  RestoreRequestRecord, RestoreRequestStore, newer_anchor, find_anchor, keeps_record, split_kept,
  prune_terminal_requests, is_anchor,
}

abbrev pub Anchor : Type 0
Anchor = Option (String × ℕ)

split_kept_all :
    (keep : String → RestoreRequestRecord → Bool) (s : RestoreRequestStore)
    → is_empty (split_kept keep s).1 ≡ true
    → (split_kept keep s).0 ≡ s
unfolding split_kept
split_kept_all keep [] h = refl
split_kept_all keep ((id, r) ∷ s) h = ground (arith, split_kept_all keep s)

-- With nothing pruned the source hands back the store itself, which is the same.
pub prune-eq-split_kept :
    (s : RestoreRequestStore) (now : ℕ) (retain : List String)
    → (prune_terminal_requests s now retain).0
      ≡ (split_kept (keeps_record now retain (find_anchor s none)) s).0
unfolding prune_terminal_requests
prune-eq-split_kept s now retain =
    ground (arith, split_kept_all (keeps_record now retain (find_anchor s none)) s)

abbrev TimeLe : Anchor → Anchor → Type 0
TimeLe none b = Unit
TimeLe (some _) none = ⊥
TimeLe (some (_, s)) (some (_, t)) = s ≤ t

-- The search over the kept records is level with the full one, or behind a record that will not
-- be the anchor.
abbrev Tracks : String → Anchor → Anchor → Type 0
Tracks aid a b = (a ≡ b) ⊎ (TimeLe a b × (is_anchor b aid ≡ false))

Tracks-both :
    (aid id : String) (r : RestoreRequestRecord) (a b : Anchor)
    → Tracks aid a b
    → Tracks aid (newer_anchor id r a) (newer_anchor id r b)
unfolding newer_anchor
Tracks-both aid id r a b (inl e) = inl (ap (newer_anchor id r) e)
Tracks-both aid id r none none (inr h) = inl refl
Tracks-both aid id r (some (i, s)) none (inr h) = absurd h.0
Tracks-both aid id r none (some (j, t)) (inr h) = ground arith
Tracks-both aid id r (some (i, s)) (some (j, t)) (inr h) = ground arith

Tracks-skip :
    (aid id : String) (r : RestoreRequestRecord) (a b : Anchor)
    → str_eq aid id ≡ false
    → Tracks aid a b
    → Tracks aid a (newer_anchor id r b)
unfolding newer_anchor
Tracks-skip aid id r none none ne (inl e) = ground arith
Tracks-skip aid id r none none ne (inr h) = ground arith
Tracks-skip aid id r (some (i, s)) none ne (inl e) = ground arith
Tracks-skip aid id r (some (i, s)) none ne (inr h) = absurd h.0
Tracks-skip aid id r none (some (j, t)) ne h = ground arith
Tracks-skip aid id r (some (i, s)) (some (j, t)) ne h = ground arith

module _ (keep : String → RestoreRequestRecord → Bool) where
  find_anchor-split_kept :
      (aid : String) (at : ℕ)
      → ((id : String) (r : RestoreRequestRecord) → keep id r ≡ false → str_eq aid id ≡ false)
      → (s : RestoreRequestStore) (a b : Anchor) → Tracks aid a b
      → find_anchor s b ≡ some (aid, at)
      → find_anchor (split_kept keep s).0 a ≡ some (aid, at)
  unfolding find_anchor split_kept
  find_anchor-split_kept aid at h [] a b (inl e) p = rw e p
  find_anchor-split_kept aid at h [] a b (inr (le, ne)) p = ground (arith, eq_refl aid)
  find_anchor-split_kept aid at h ((id, r) ∷ s) a b t p = elim (Bool-cases (keep id r)) [
    | inl kept ↦ rw kept (
        find_anchor-split_kept aid at h s (newer_anchor id r a) (newer_anchor id r b)
          (Tracks-both aid id r a b t) p)
    | inr gone ↦ rw gone (
        find_anchor-split_kept aid at h s a (newer_anchor id r b)
          (Tracks-skip aid id r a b (h id r gone) t) p)
  ]

newer_anchor-some :
    (id : String) (r : RestoreRequestRecord) (a : String × ℕ) → newer_anchor id r (some a) ≢ none
unfolding newer_anchor
newer_anchor-some id r a = ground arith

find_anchor-some : (s : RestoreRequestStore) (a : String × ℕ) → find_anchor s (some a) ≢ none
unfolding find_anchor
find_anchor-some [] a h = cc
find_anchor-some ((id, r) ∷ s) a h = elim (Option-cases (newer_anchor id r (some a))) [
  | inl e ↦ newer_anchor-some id r a e
  | inr (b, e) ↦ find_anchor-some s b (rw e at h)
]

find_anchor-none :
    (keep : String → RestoreRequestRecord → Bool) (s : RestoreRequestStore)
    → find_anchor s none ≡ none
    → find_anchor (split_kept keep s).0 none ≡ none
unfolding find_anchor split_kept
find_anchor-none keep [] h = refl
find_anchor-none keep ((id, r) ∷ s) h = elim (Option-cases (newer_anchor id r none)) [
  | inl e ↦ ground (arith, find_anchor-none keep s (rw e at h), e)
  | inr (b, e) ↦ absurd (find_anchor-some s b (rw e at h))
]

keeps_record_anchor :
    (now : ℕ) (retain : List String) (aid : String) (at : ℕ) (id : String)
    (r : RestoreRequestRecord)
    → keeps_record now retain (some (aid, at)) id r ≡ false
    → str_eq aid id ≡ false
unfolding keeps_record
keeps_record_anchor now retain aid at id r h = ground (arith, eq_iff aid id, eq_iff id aid)

find_anchor-kept :
    (s : RestoreRequestStore) (now : ℕ) (retain : List String)
    → find_anchor (split_kept (keeps_record now retain (find_anchor s none)) s).0 none
      ≡ find_anchor s none
find_anchor-kept s now retain = elim (Option-cases (find_anchor s none)) [
  | inl e ↦ find_anchor-none (keeps_record now retain (find_anchor s none)) s e ∙ sym e
  | inr ((aid, at), e) ↦ rw e (
      find_anchor-split_kept (keeps_record now retain (some (aid, at))) aid at
        (keeps_record_anchor now retain aid at) s none none (inl refl) e)
]

pub find_anchor-prune :
    (s : RestoreRequestStore) (now : ℕ) (retain : List String)
    → find_anchor (prune_terminal_requests s now retain).0 none ≡ find_anchor s none
find_anchor-prune s now retain =
    rw (prune-eq-split_kept s now retain) (find_anchor-kept s now retain)
