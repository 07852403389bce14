-- ===== src/Jobs/Progress.antt =====
-- What waits in the queue, and which entry goes first.
use hola.Prelude.{
  ℕ, zero, suc, ◌+◌, ◌≤◌, ◌≡◌, refl, inl, inr, ◌⊎◌, String, Bool, true, false, none, some, List, [],
  ◌∷◌, ◌++◌, length, arith, ltb, Bool-cases, Option-cases, All, str_eq, select,
}
use hola.Jobs.{
  Entry, Scheduler, is_runnable, take_runnable, dispatch, tick_loop, tick, enqueue, take_first,
  finish, leave, acquire, discard_deployment, drop_queued, Event, create, job_ends, enter,
  section_ends, discard, cancel, after, run, add_key,
}

abbrev AllBlocked : (String → Bool) → List Entry → Type 0
AllBlocked held es = All (λ e. is_runnable held e ≡ false) es

-- The dispatcher takes the first entry of the queue that can run: those before it belong to
-- deployments whose key is held, and the order of the others is kept. It takes none only if the keys
-- of all are held.
take_runnable_first :
    (held : String → Bool) (queue : List Entry)
    → ((take_runnable held queue ≡ none) × AllBlocked held queue)
      ⊎ ((before : List Entry) × (e : Entry) × (behind : List Entry) × (take_runnable held queue
            ≡ some (e, before ++ behind))
          × (queue ≡ before ++ e ∷ behind)
          × (is_runnable held e ≡ true)
          × AllBlocked held before)
unfolding take_runnable
take_runnable_first held [] = inl (refl, tt)
take_runnable_first held (x ∷ queue) = elim (Bool-cases (is_runnable held x)) [
  | inl free ↦ inr ([], x, queue, rw free refl, refl, free, tt)
  | inr busy ↦ elim (take_runnable_first held queue) [
    | inl (n, b) ↦ inl (rw busy (rw n refl), (busy, b))
    | inr (before, e, behind, n, q, free, b) ↦
        inr (x ∷ before, e, behind, rw busy (rw n refl), rw q refl, free, (busy, b))
  ]
]

-- All slots are taken, or all that waits is blocked.
abbrev pub IsSaturated : ℕ → Scheduler → Type 0
IsSaturated max_concurrency s = (max_concurrency ≤ s.running) ⊎ AllBlocked s.held s.queue

length-take_runnable :
    (held : String → Bool) (queue : List Entry) (e : Entry) (others : List Entry)
    → take_runnable held queue ≡ some (e, others)
    → length queue ≡ length others + 1
unfolding take_runnable
length-take_runnable held [] e others h = ground arith
length-take_runnable held (x ∷ queue) e others h = elim (Bool-cases (is_runnable held x)) [
  | inl t ↦ ground arith
  | inr f ↦ elim (Option-cases (take_runnable held queue)) [
    | inl n ↦ ground arith
    | inr ((y, ys), n) ↦ ground (arith, length-take_runnable held queue y ys n)
  ]
]

blocked :
    (held : String → Bool) (queue : List Entry)
    → take_runnable held queue ≡ none
    → AllBlocked held queue
unfolding take_runnable
blocked held [] h = tt
blocked held (x ∷ queue) h = elim (Bool-cases (is_runnable held x)) [
  | inl t ↦ ground arith
  | inr f ↦ (f, blocked held queue (ground arith))
]

no_entries : (queue : List Entry) → length queue ≤ 0 → queue ≡ []
no_entries [] h = refl
no_entries (x ∷ queue) h = absurd (omega arith)

shorter :
    (s : Scheduler) (e : Entry) (others : List Entry) (fuel : ℕ)
    → take_runnable s.held s.queue ≡ some (e, others)
    → length s.queue ≤ suc fuel
    → length (dispatch e others s).queue ≤ fuel
unfolding dispatch
shorter s e others fuel n h = omega (arith, length-take_runnable s.held s.queue e others n)

tick_loop-IsSaturated :
    (max_concurrency fuel : ℕ) (s : Scheduler)
    → length s.queue ≤ fuel
    → IsSaturated max_concurrency (tick_loop max_concurrency fuel s)
unfolding tick_loop
tick_loop-IsSaturated max_concurrency zero s h = inr (rw (no_entries s.queue h) tt)
tick_loop-IsSaturated max_concurrency (suc fuel) s h =
    elim (Bool-cases (ltb s.running max_concurrency)) [
      | inr full ↦ rw (tick_loop, full) (inl (ground arith))
      | inl room ↦ elim (Option-cases (take_runnable s.held s.queue)) [
        | inl n ↦ rw (tick_loop, room, n) (inr (blocked s.held s.queue n))
        | inr ((e, others), n) ↦
            rw (tick_loop, room, n)
              (tick_loop-IsSaturated max_concurrency fuel (dispatch e others s)
                (shorter s e others fuel n h))
      ]
    ]

tick-IsSaturated :
    (max_concurrency : ℕ) (s : Scheduler) → IsSaturated max_concurrency (tick max_concurrency s)
unfolding tick
tick-IsSaturated max_concurrency s =
    tick_loop-IsSaturated max_concurrency (length s.queue) s (omega arith)

AllBlocked-select :
    (held : String → Bool) (keep : Entry → Bool) (es : List Entry)
    → AllBlocked held es
    → AllBlocked held (select keep es)
AllBlocked-select held keep [] b = tt
AllBlocked-select held keep (e ∷ es) (b, bs) = elim (Bool-cases (keep e)) [
  | inl kept ↦ rw kept (b, AllBlocked-select held keep es bs)
  | inr dropped ↦ rw dropped (AllBlocked-select held keep es bs)
]

AllBlocked-add_key :
    (held : String → Bool) (key : String) (es : List Entry)
    → AllBlocked held es
    → AllBlocked (add_key key held) es
AllBlocked-add_key held key [] b = tt
AllBlocked-add_key held key (e ∷ es) (b, bs) = (ground arith, AllBlocked-add_key held key es bs)

select-IsSaturated :
    (max_concurrency : ℕ) (keep : Entry → Bool) (s : Scheduler)
    → IsSaturated max_concurrency s
    → IsSaturated max_concurrency (record s { queue = select keep s.queue })
select-IsSaturated max_concurrency keep s (inl full) = inl full
select-IsSaturated max_concurrency keep s (inr b) = inr (AllBlocked-select s.held keep s.queue b)

acquire-IsSaturated :
    (max_concurrency : ℕ) (key name : String) (s : Scheduler)
    → IsSaturated max_concurrency s
    → IsSaturated max_concurrency (acquire key name s)
unfolding acquire
acquire-IsSaturated max_concurrency key name s i = elim (Bool-cases (s.held key)) [
  | inl busy ↦ rw (acquire, busy) i
  | inr free ↦ elim i [
    | inl full ↦ rw (acquire, free) (inl full)
    | inr b ↦ rw (acquire, free) (inr (AllBlocked-add_key s.held key s.queue b))
  ]
]

finish-IsSaturated :
    (max_concurrency : ℕ) (id : String) (s : Scheduler)
    → IsSaturated max_concurrency s
    → IsSaturated max_concurrency (finish max_concurrency id s)
unfolding finish
finish-IsSaturated max_concurrency id s i =
    elim (Option-cases (take_first (λ e. str_eq e.id id) s.active)) [
      | inl n ↦ rw (finish, n) i
      | inr ((e, others), n) ↦ rw (finish, n) (tick-IsSaturated max_concurrency _)
    ]

leave-IsSaturated :
    (max_concurrency : ℕ) (name : String) (s : Scheduler)
    → IsSaturated max_concurrency s
    → IsSaturated max_concurrency (leave max_concurrency name s)
unfolding leave
leave-IsSaturated max_concurrency name s i =
    elim (Option-cases (take_first (λ j. str_eq j.name name) s.inside)) [
      | inl n ↦ rw (leave, n) i
      | inr ((j, others), n) ↦ rw (leave, n) (tick-IsSaturated max_concurrency _)
    ]

after-IsSaturated :
    (max_concurrency : ℕ) (e : Event) (s : Scheduler)
    → IsSaturated max_concurrency s
    → IsSaturated max_concurrency (after max_concurrency e s)
unfolding after enqueue discard_deployment drop_queued
after-IsSaturated max_concurrency (create id deployment_id) s i = tick-IsSaturated max_concurrency _
after-IsSaturated max_concurrency (job_ends id) s i = finish-IsSaturated max_concurrency id s i
after-IsSaturated max_concurrency (enter key name) s i =
    acquire-IsSaturated max_concurrency key name s i
after-IsSaturated max_concurrency (section_ends name) s i =
    leave-IsSaturated max_concurrency name s i
after-IsSaturated max_concurrency (discard key) s i = select-IsSaturated max_concurrency _ s i
after-IsSaturated max_concurrency (cancel id) s i = select-IsSaturated max_concurrency _ s i

-- No job waits without need. If it is so at the start, it stays so through any sequence of events: all
-- slots are taken, or each entry of the queue belongs to a deployment whose key is held.
pub run-IsSaturated :
    (max_concurrency : ℕ) (es : List Event) (s : Scheduler)
    → IsSaturated max_concurrency s
    → IsSaturated max_concurrency (run max_concurrency es s)
unfolding run
run-IsSaturated max_concurrency [] s i = i
run-IsSaturated max_concurrency (e ∷ es) s i =
    run-IsSaturated max_concurrency es (after max_concurrency e s)
      (after-IsSaturated max_concurrency e s i)
