-- ===== src/Jobs/Exclusion.antt =====
-- The jobs and the sections that hold a deployment's key: their ends, and whole runs.
use hola.Prelude.{
  ℕ, ◌+◌, ◌-◌, ◌≤◌, String, ◌≡◌, refl, inl, inr, ◌⊎◌, false, some, List, [], ◌∷◌, length, arith,
  Bool-cases, Option-cases, str_eq, eq_iff,
}
use hola.Jobs.{
  Entry, Scheduler, entry_of, acquire, release, enqueue, take_first, release_for, finish, leave,
  discard_deployment, drop_queued, Event, create, job_ends, enter, section_ends, discard, cancel,
  after, run,
}
use hola.Jobs.Sound.{
  one_if, section_of, holders, IsSound, count-take_first, length-take_first, tick-IsSound,
}

-- The holder of the key has just ended.
record IsLeft (max_concurrency : ℕ) (key : String) (s : Scheduler) : Type 0 where
  held_once : (k : String) → holders k s + one_if (str_eq key k) ≡ one_if (s.held k)
  nobody_waits : (k : String) → s.held k ≡ false → s.waiters k ≡ []
  counted : s.running ≡ length s.active
  bounded : s.running ≤ max_concurrency

waiting :
    (names : List String) → (names ≡ []) ⊎ ((n : String) × (ns : List String) × (names ≡ n ∷ ns))
waiting [] = inl refl
waiting (n ∷ ns) = inr (n, ns, refl)

release-IsSound :
    (max_concurrency : ℕ) (key : String) (s : Scheduler)
    → IsLeft max_concurrency key s
    → IsSound max_concurrency (release key s)
unfolding release
release-IsSound max_concurrency key s v = elim (waiting (s.waiters key)) [
  | inl none_left ↦
      rw (release, none_left)
        (record {
          held_once = λ k. ground (arith, v.held_once k, eq_iff key k, eq_iff k key);
          nobody_waits = λ k h. ground (arith, v.nobody_waits k, eq_iff key k, eq_iff k key);
          counted = v.counted;
          bounded = v.bounded;
        })
  | inr (next, others, some_left) ↦
      rw (release, some_left)
        (record {
          held_once = λ k. ground (arith, v.held_once k);
          nobody_waits =
              λ k h. ground (arith, v.nobody_waits k, v.held_once k, eq_iff key k, eq_iff k key);
          counted = v.counted;
          bounded = v.bounded;
        })
]

acquire-IsSound :
    (max_concurrency : ℕ) (key name : String) (s : Scheduler)
    → IsSound max_concurrency s
    → IsSound max_concurrency (acquire key name s)
unfolding acquire
acquire-IsSound max_concurrency key name s v = elim (Bool-cases (s.held key)) [
  | inl busy ↦ rw busy (record {
    held_once = v.held_once;
    nobody_waits = λ k h. ground (arith, v.nobody_waits k, eq_iff k key);
    counted = v.counted;
    bounded = v.bounded;
  })
  | inr free ↦ rw free (record {
    held_once = λ k. ground (arith, v.held_once k, eq_iff key k, eq_iff k key);
    nobody_waits = λ k h. ground (arith, v.nobody_waits k);
    counted = v.counted;
    bounded = v.bounded;
  })
]

ended :
    (max_concurrency : ℕ) (id : String) (s : Scheduler) (e : Entry) (others : List Entry)
    → take_first (λ j. str_eq j.id id) s.active ≡ some (e, others)
    → IsSound max_concurrency s
    → IsSound max_concurrency
        (release_for e (record s { running = s.running - 1; active = others }))
ended max_concurrency id s e others n v =
    let shorter = length-take_first (λ j. str_eq j.id id) s.active e others n in
    elim (Option-cases e.deployment_id) [
      | inl free ↦ rw free (record {
        held_once = λ k. ground (
          arith,
          v.held_once k,
          count-take_first (λ j. str_eq j.id id) (entry_of k) s.active e others n,
        );
        nobody_waits = v.nobody_waits;
        counted = omega (arith, v.counted);
        bounded = omega (arith, v.bounded);
      })
      | inr (d, mine) ↦ rw mine (
          release-IsSound max_concurrency d (record s { running = s.running - 1; active = others })
            (record {
              held_once = λ k. ground (
                arith,
                v.held_once k,
                count-take_first (λ j. str_eq j.id id) (entry_of k) s.active e others n,
              );
              nobody_waits = v.nobody_waits;
              counted = omega (arith, v.counted);
              bounded = omega (arith, v.bounded);
            }))
    ]

finish-IsSound :
    (max_concurrency : ℕ) (id : String) (s : Scheduler)
    → IsSound max_concurrency s
    → IsSound max_concurrency (finish max_concurrency id s)
unfolding finish
finish-IsSound max_concurrency id s v =
    elim (Option-cases (take_first (λ e. str_eq e.id id) s.active)) [
      | inl n ↦ rw (finish, n) v
      | inr ((e, others), n) ↦
          rw (finish, n) (tick-IsSound max_concurrency _ (ended max_concurrency id s e others n v))
    ]

leave-IsSound :
    (max_concurrency : ℕ) (name : String) (s : Scheduler)
    → IsSound max_concurrency s
    → IsSound max_concurrency (leave max_concurrency name s)
unfolding leave
leave-IsSound max_concurrency name s v =
    elim (Option-cases (take_first (λ i. str_eq i.name name) s.inside)) [
      | inl n ↦ rw (leave, n) v
      | inr ((i, others), n) ↦
          rw (leave, n)
            (tick-IsSound max_concurrency _ (
              release-IsSound max_concurrency i.key (record s { inside = others })
                (record {
                  held_once = λ k. omega (
                    arith,
                    v.held_once k,
                    count-take_first (λ j. str_eq j.name name) (section_of k) s.inside i others n,
                  );
                  nobody_waits = v.nobody_waits;
                  counted = v.counted;
                  bounded = v.bounded;
                })))
    ]

with_queue :
    (max_concurrency : ℕ) (queue : List Entry) (s : Scheduler)
    → IsSound max_concurrency s
    → IsSound max_concurrency (record s { queue = queue })
with_queue max_concurrency queue s v = record {
  held_once = v.held_once;
  nobody_waits = v.nobody_waits;
  counted = v.counted;
  bounded = v.bounded;
}

after-IsSound :
    (max_concurrency : ℕ) (e : Event) (s : Scheduler)
    → IsSound max_concurrency s
    → IsSound max_concurrency (after max_concurrency e s)
unfolding after enqueue discard_deployment drop_queued
after-IsSound max_concurrency (create id deployment_id) s v =
    tick-IsSound max_concurrency _ (with_queue max_concurrency _ s v)
after-IsSound max_concurrency (job_ends id) s v = finish-IsSound max_concurrency id s v
after-IsSound max_concurrency (enter key name) s v = acquire-IsSound max_concurrency key name s v
after-IsSound max_concurrency (section_ends name) s v = leave-IsSound max_concurrency name s v
after-IsSound max_concurrency (discard key) s v = with_queue max_concurrency _ s v
after-IsSound max_concurrency (cancel id) s v = with_queue max_concurrency _ s v

-- If it is so at the start, it stays so through any sequence of arrivals, ends, sections, discards and
-- cancellations: a deployment's key is
-- held exactly if one job or section acts on it, and then only one; nobody waits for a free key; and
-- the jobs that run are those counted, at most as many as the limit.
pub run-IsSound :
    (max_concurrency : ℕ) (es : List Event) (s : Scheduler)
    → IsSound max_concurrency s
    → IsSound max_concurrency (run max_concurrency es s)
unfolding run
run-IsSound max_concurrency [] s v = v
run-IsSound max_concurrency (e ∷ es) s v =
    run-IsSound max_concurrency es (after max_concurrency e s) (after-IsSound max_concurrency e s v)
