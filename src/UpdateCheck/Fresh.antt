-- ===== src/UpdateCheck/Fresh.antt =====
-- Calls of `check` that overlap, and how old a cached answer is.
use mathlib.Core.List.{List, [], ◌∷◌, ◌++◌}
use mathlib.Core.Path.{subst}
use hola.Prelude.{
  ℕ, zero, suc, ◌+◌, ◌<◌, ◌≡◌, refl, sym, ap, ◌∙◌, inl, inr, ◌⊎◌, Bool, true, false, Option, none,
  some, arith, if◌then◌else◌, ltb, Bool-cases, value_or, All, Among,
}
use hola.UpdateCheck.{
  UpdateCheckResult, UpdateCheckService, Cached, Reply, default_ttl_ms, fetch_latest, check_cache,
  settle_check,
}

-- A caller begins at a time, or the request of the n-th waiting caller ends.
pub data Event : Type 0 where
  calls : ℕ → Event
  ends : ℕ → Reply → Event

-- The service, the callers that wait for GitHub by the time they read, the requests that have ended,
-- and the answers given so far.
pub record Run : Type 0 where
  pub service : UpdateCheckService
  pub waiting : List ℕ
  pub replies : List (ℕ × Reply)
  pub answers : List (ℕ × UpdateCheckResult)

abbrev pub take_at : ℕ → List ℕ → Option (ℕ × List ℕ)
take_at n [] = none
take_at zero (t ∷ ts) = some (t, ts)
take_at (suc n) (t ∷ ts) = elim (take_at n ts) [ none ↦ none | some p ↦ some (p.0, t ∷ p.1) ]

abbrev settle : ℕ × List ℕ → Reply → Run → Run
settle (now, others) reply run =
    let (result, service') = settle_check run.service now reply in
    record {
      service = service';
      waiting = others;
      replies = (now, reply) ∷ run.replies;
      answers = (now, result) ∷ run.answers;
    }

abbrev answer_call : Option UpdateCheckResult → ℕ → Run → Run
answer_call (some value) now run = record run { answers = (now, value) ∷ run.answers }
answer_call none now run = record run { waiting = run.waiting ++ now ∷ [] }

abbrev end_call : Option (ℕ × List ℕ) → Reply → Run → Run
end_call none reply run = run
end_call (some p) reply run = settle p reply run

unfoldable pub step : Event → Run → Run
step (calls now) run = answer_call (check_cache run.service now) now run
step (ends n reply) run = end_call (take_at n run.waiting) reply run

abbrev pub run_all : List Event → Run → Run
run_all [] run = run
run_all (e ∷ events) run = run_all events (step e run)

abbrev pub started : UpdateCheckService → Run
started service = record { service = service; waiting = []; replies = []; answers = [] }

-- The answer at a time is that to a request which its caller began then, or began less than the
-- lifetime of the cache before.
abbrev IsFrom : UpdateCheckService → List (ℕ × Reply) → ℕ × UpdateCheckResult → Type 0
IsFrom service replies (now, value) =
    (t : ℕ) × (reply : Reply) × Among (t, reply) replies
    × (value ≡ fetch_latest service.current reply)
    × ((now ≡ t) ⊎ (now < t + value_or service.ttl_ms default_ttl_ms))

-- The cache holds the answer to a request that has ended.
abbrev pub IsStored : UpdateCheckService → List (ℕ × Reply) → Option Cached → Type 0
IsStored service replies none = Unit
IsStored service replies (some c) =
    (t : ℕ) × (reply : Reply) × Among (t, reply) replies
    × (c.value ≡ fetch_latest service.current reply)
    × (c.expires ≡ t + value_or service.ttl_ms default_ttl_ms)

pub record IsFresh (current : UpdateCheckService) (run : Run) : Type 0 where
  pub same_version : run.service.current ≡ current.current
  pub same_lifetime : run.service.ttl_ms ≡ current.ttl_ms
  pub stored : IsStored current run.replies run.service.cache
  pub answered : All (IsFrom current run.replies) run.answers

young_or_none :
    (now until : ℕ) (v w : UpdateCheckResult)
    → (if ltb now until then some v else none) ≡ some w
    → (now < until) × (v ≡ w)
young_or_none now until v w h = elim (Bool-cases (ltb now until)) [
  | inl young ↦ (ground arith, same (ltb now until) young h)
  | inr old ↦ absurd (clash (ltb now until) old h)
]
  where
    same : (b : Bool) → b ≡ true → (if b then some v else none) ≡ some w → v ≡ w
    same true e h = cc
    same false e h = absurd (cc)

    clash : (b : Bool) → b ≡ false → (if b then some v else none) ≡ some w → ⊥
    clash true e h = cc
    clash false e h = cc

later-IsFrom :
    (service : UpdateCheckService) (x : ℕ × Reply) (replies : List (ℕ × Reply))
    (answers : List (ℕ × UpdateCheckResult))
    → All (IsFrom service replies) answers
    → All (IsFrom service (x ∷ replies)) answers
later-IsFrom service x replies [] h = tt
later-IsFrom service x replies (a ∷ answers) ((t, reply, among, same, young), h) =
    ((t, reply, inr among, same, young), later-IsFrom service x replies answers h)

check_cache-IsFrom :
    (start service : UpdateCheckService) (replies : List (ℕ × Reply)) (now : ℕ)
    (value : UpdateCheckResult)
    → IsStored start replies service.cache
    → check_cache service now ≡ some value
    → IsFrom start replies (now, value)
unfolding check_cache
check_cache-IsFrom start service replies now value = by_cache service.cache
  where
    by_cache :
        (cache : Option Cached)
        → IsStored start replies cache
        → (elim cache as (λ _. Option UpdateCheckResult) [
          | none ↦ none
          | some c ↦ if ltb now c.expires then some c.value else none
        ])
          ≡ some value
        → IsFrom start replies (now, value)
    by_cache none stored h = absurd (cc)
    by_cache (some c) (t, reply, among, same, until) h =
        let (young, known) = young_or_none now c.expires c.value value h in
        (t, reply, among, sym known ∙ same, inr (subst (λ e. now < e) until young))

answer_call-IsFresh :
    (start : UpdateCheckService) (o : Option UpdateCheckResult) (now : ℕ) (run : Run)
    → check_cache run.service now ≡ o
    → IsFresh start run
    → IsFresh start (answer_call o now run)
answer_call-IsFresh start none now run e h = record {
  same_version = h.same_version;
  same_lifetime = h.same_lifetime;
  stored = h.stored;
  answered = h.answered;
}
answer_call-IsFresh start (some value) now run e h = record {
  same_version = h.same_version;
  same_lifetime = h.same_lifetime;
  stored = h.stored;
  answered = (check_cache-IsFrom start run.service run.replies now value h.stored e, h.answered);
}

end_call-IsFresh :
    (start : UpdateCheckService) (o : Option (ℕ × List ℕ)) (reply : Reply) (run : Run)
    → IsFresh start run
    → IsFresh start (end_call o reply run)
unfolding settle_check
end_call-IsFresh start none reply run h = h
end_call-IsFresh start (some (now, others)) reply run h =
    let same = ap (λ c. fetch_latest c reply) h.same_version in
    record {
      same_version = h.same_version;
      same_lifetime = h.same_lifetime;
      stored =
          (now, reply, inl refl, same, ap (λ l. now + value_or l default_ttl_ms) h.same_lifetime);
      answered = (
        (now, reply, inl refl, same, inl refl),
        later-IsFrom start (now, reply) run.replies run.answers h.answered,
      );
    }

step-IsFresh :
    (start : UpdateCheckService) (e : Event) (run : Run)
    → IsFresh start run
    → IsFresh start (step e run)
unfolding step
step-IsFresh start (calls now) run h =
    answer_call-IsFresh start (check_cache run.service now) now run refl h
step-IsFresh start (ends n reply) run h = end_call-IsFresh start (take_at n run.waiting) reply run h

further-IsFresh :
    (start : UpdateCheckService) (events : List Event) (run : Run)
    → IsFresh start run
    → IsFresh start (run_all events run)
further-IsFresh start [] run h = h
further-IsFresh start (e ∷ events) run h =
    further-IsFresh start events (step e run) (step-IsFresh start e run h)

-- However the calls of `check` overlap, from an empty cache on: each answer is what the reply to a
-- request gives that has ended, and that request's caller began at the time of the answer, or the
-- answer's time is less than the cache's lifetime past it. The cache holds such an answer and the end
-- of its lifetime.
pub run_all-IsFresh :
    (service : UpdateCheckService) (events : List Event)
    → service.cache ≡ none
    → IsFresh service (run_all events (started service))
run_all-IsFresh service events empty = further-IsFresh service events (started service) (record {
  same_version = refl;
  same_lifetime = refl;
  stored = subst (λ c. IsStored service [] c) (sym empty) tt;
  answered = tt;
})
