-- ===== src/Jobs/Sound.antt =====
-- The jobs and the sections that hold a key: arrivals, and the starts of jobs.
use hola.Prelude.{
  ℕ, zero, suc, ◌+◌, ◌≤◌, ◌<◌, String, ◌≡◌, inl, inr, Bool, true, false, some, List, [], ◌∷◌,
  length, arith, ltb, if◌then◌else◌, Bool-cases, Option-cases, str_eq, eq_iff,
}
use hola.Jobs.{
  Entry, Section, Scheduler, entry_of, is_runnable, take_runnable, dispatch, tick_loop, tick,
  take_first,
}

abbrev pub one_if : Bool → ℕ
one_if b = if b then 1 else 0

abbrev count {ℓ} : {A : Type ℓ} → (A → Bool) → List A → ℕ
count test [] = 0
count test (x ∷ xs) = one_if (test x) + count test xs

abbrev pub section_of : String → Section → Bool
section_of key i = str_eq i.key key

-- How many jobs and sections act on the deployment.
abbrev pub holders : String → Scheduler → ℕ
holders key s = count (entry_of key) s.active + count (section_of key) s.inside

-- A key is held exactly if one job or section acts on its deployment, nobody waits for a free key,
-- and the jobs that run are counted and within the limit.
pub record IsSound (max_concurrency : ℕ) (s : Scheduler) : Type 0 where
  pub held_once : (k : String) → holders k s ≡ one_if (s.held k)
  pub nobody_waits : (k : String) → s.held k ≡ false → s.waiters k ≡ []
  pub counted : s.running ≡ length s.active
  pub bounded : s.running ≤ max_concurrency

pub count-take_first {ℓ} :
    {A : Type ℓ} (test p : A → Bool) (xs : List A) (found : A) (others : List A)
    → take_first test xs ≡ some (found, others)
    → count p xs ≡ one_if (p found) + count p others
unfolding take_first
count-take_first test p [] found others h = ground arith
count-take_first test p (x ∷ xs) found others h = elim (Bool-cases (test x)) [
  | inl t ↦ ground arith
  | inr f ↦ elim (Option-cases (take_first test xs)) [
    | inl e ↦ ground arith
    | inr ((y, ys), e) ↦ ground (arith, count-take_first test p xs y ys e)
  ]
]

pub length-take_first {ℓ} :
    {A : Type ℓ} (test : A → Bool) (xs : List A) (found : A) (others : List A)
    → take_first test xs ≡ some (found, others)
    → length xs ≡ length others + 1
unfolding take_first
length-take_first test [] found others h = ground arith
length-take_first test (x ∷ xs) found others h = elim (Bool-cases (test x)) [
  | inl t ↦ ground arith
  | inr f ↦ elim (Option-cases (take_first test xs)) [
    | inl e ↦ ground arith
    | inr ((y, ys), e) ↦ ground (arith, length-take_first test xs y ys e)
  ]
]

take_runnable-is_runnable :
    (held : String → Bool) (queue : List Entry) (e : Entry) (others : List Entry)
    → take_runnable held queue ≡ some (e, others)
    → is_runnable held e ≡ true
unfolding take_runnable
take_runnable-is_runnable held [] e others h = ground arith
take_runnable-is_runnable held (x ∷ queue) e others h = elim (Bool-cases (is_runnable held x)) [
  | inl t ↦ ground arith
  | inr f ↦ elim (Option-cases (take_runnable held queue)) [
    | inl n ↦ ground arith
    | inr ((y, ys), n) ↦ ground (arith, take_runnable-is_runnable held queue y ys n)
  ]
]

dispatch-IsSound :
    (max_concurrency : ℕ) (e : Entry) (others : List Entry) (s : Scheduler)
    → is_runnable s.held e ≡ true
    → s.running < max_concurrency
    → IsSound max_concurrency s
    → IsSound max_concurrency (dispatch e others s)
unfolding dispatch
dispatch-IsSound max_concurrency e others s free room v = elim (Option-cases e.deployment_id) [
  | inl n ↦ record {
    held_once = λ k. ground (arith, v.held_once k);
    nobody_waits = λ k h. ground (arith, v.nobody_waits k);
    counted = omega (arith, v.counted);
    bounded = omega arith;
  }
  | inr (d, n) ↦ record {
    held_once = λ k. ground (arith, v.held_once k, eq_iff d k, eq_iff k d);
    nobody_waits = λ k h. ground (arith, v.nobody_waits k);
    counted = omega (arith, v.counted);
    bounded = omega arith;
  }
]

tick_loop-IsSound :
    (max_concurrency fuel : ℕ) (s : Scheduler)
    → IsSound max_concurrency s
    → IsSound max_concurrency (tick_loop max_concurrency fuel s)
unfolding tick_loop
tick_loop-IsSound max_concurrency zero s v = v
tick_loop-IsSound max_concurrency (suc fuel) s v =
    elim (Bool-cases (ltb s.running max_concurrency)) [
      | inr full ↦ rw (tick_loop, full) v
      | inl room ↦ elim (Option-cases (take_runnable s.held s.queue)) [
        | inl n ↦ rw (tick_loop, room, n) v
        | inr ((e, others), n) ↦
            rw (tick_loop, room, n)
              (tick_loop-IsSound max_concurrency fuel (dispatch e others s) (
                dispatch-IsSound max_concurrency e others s
                  (take_runnable-is_runnable s.held s.queue e others n) (ground arith) v))
      ]
    ]

pub tick-IsSound :
    (max_concurrency : ℕ) (s : Scheduler)
    → IsSound max_concurrency s
    → IsSound max_concurrency (tick max_concurrency s)
unfolding tick
tick-IsSound max_concurrency s v = tick_loop-IsSound max_concurrency (length s.queue) s v
