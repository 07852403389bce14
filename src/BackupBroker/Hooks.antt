-- ===== src/BackupBroker/Hooks.antt =====
-- Which apps still hold what a pre-hook left behind, read off the hook calls made so far.
use mathlib.Core.Path.{subst}
use hola.Prelude.{
  ◌≡◌, refl, ap, sym, ◌∙◌, ◌≢◌, ◌⊎◌, inl, inr, Bool, true, false, List, [], ◌∷◌, ◌++◌, map, arith,
  Bool-cases, is_some, select, Among, Among-append_left, Among-append_right,
}
use hola.BackupBroker.{
  BackupParticipant, Executor, HookCall, pre, post, run_post_hooks, Round, go_on, stop,
  job_cancelled, pre_hook_failed, prepare_round,
}

abbrev pub HasPostHook : BackupParticipant → Type 0
HasPostHook p = is_some p.post_hook ≡ true

-- The newest of the calls of the participant's two hooks is that of its pre-hook.
abbrev pub IsHeld : BackupParticipant → List HookCall → Type 0
IsHeld p [] = ⊥
IsHeld p (c ∷ log) = (c ≡ pre p) ⊎ ((c ≢ post p) × IsHeld p log)

post-ne-pre : (p q : BackupParticipant) → post p ≢ pre q
post-ne-pre p q e = cc

IsHeld-post :
    (p q : BackupParticipant) (log : List HookCall)
    → IsHeld p (post q ∷ log)
    → (post q ≢ post p) × IsHeld p log
IsHeld-post p q log (inl e) = absurd (post-ne-pre q p e)
IsHeld-post p q log (inr h) = h

-- The calls made one after another.
abbrev pub made : List HookCall → List HookCall → List HookCall
made [] log = log
made (c ∷ cs) log = made cs (c ∷ log)

made-append :
    (cs ds : List HookCall) (log : List HookCall) → made (cs ++ ds) log ≡ made ds (made cs log)
made-append [] ds log = refl
made-append (c ∷ cs) ds log = made-append cs ds (c ∷ log)

abbrev has_post_hook : BackupParticipant → Bool
has_post_hook p = is_some p.post_hook

abbrev pub post_calls : List BackupParticipant → List HookCall
post_calls ps = map post (select has_post_hook ps)

-- The post-hooks of those that have one are run, all of them, in their order.
pub run_post_hooks-made :
    (exec : Executor) (ps : List BackupParticipant) (log : List HookCall)
    → (run_post_hooks exec ps log).1 ≡ made (post_calls ps) log
unfolding run_post_hooks
run_post_hooks-made exec [] log = refl
run_post_hooks-made exec (p ∷ ps) log = elim (Bool-cases (is_some p.post_hook)) [
  | inl has ↦ rw (has, run_post_hooks) (run_post_hooks-made exec ps (post p ∷ log))
  | inr without ↦ rw (without, run_post_hooks) (run_post_hooks-made exec ps log)
]

IsHeld-made :
    (p : BackupParticipant) (ps : List BackupParticipant) (log : List HookCall)
    → IsHeld p (made (map post ps) log)
    → IsHeld p log
IsHeld-made p [] log h = h
IsHeld-made p (q ∷ ps) log h = (IsHeld-post p q log (IsHeld-made p ps (post q ∷ log) h)).1

made-releases :
    (p : BackupParticipant) (ps : List BackupParticipant) (log : List HookCall)
    → Among p ps
    → IsHeld p (made (map post ps) log)
    → ⊥
made-releases p [] log h held = h
made-releases p (q ∷ ps) log (inl e) held =
    (IsHeld-post p q log (IsHeld-made p ps (post q ∷ log) held)).0 (ap post e)
made-releases p (q ∷ ps) log (inr h) held = made-releases p ps (post q ∷ log) h held

Among-select :
    (p : BackupParticipant) (ps : List BackupParticipant)
    → HasPostHook p
    → Among p ps
    → Among p (select has_post_hook ps)
Among-select p [] has h = h
Among-select p (q ∷ ps) has (inl e) = rw (ap has_post_hook e ∙ has) (inl e)
Among-select p (q ∷ ps) has (inr h) = elim (Bool-cases (has_post_hook q)) [
  | inl yes_post ↦ rw yes_post (inr (Among-select p ps has h))
  | inr without ↦ rw without (Among-select p ps has h)
]

-- Post-hooks leave nothing behind that was not there before.
pub IsHeld-run_post_hooks :
    (exec : Executor) (p : BackupParticipant) (ps : List BackupParticipant) (log : List HookCall)
    → IsHeld p (run_post_hooks exec ps log).1
    → IsHeld p log
IsHeld-run_post_hooks exec p ps log h =
    IsHeld-made p (select has_post_hook ps) log (rw (← run_post_hooks-made exec ps log) h)

-- The participants whose post-hooks were run hold nothing any more.
pub run_post_hooks-releases :
    (exec : Executor) (p : BackupParticipant) (ps : List BackupParticipant) (log : List HookCall)
    → HasPostHook p
    → Among p ps
    → IsHeld p (run_post_hooks exec ps log).1
    → ⊥
run_post_hooks-releases exec p ps log has h held =
    made-releases p (select has_post_hook ps) log (Among-select p ps has h)
      (rw (← run_post_hooks-made exec ps log) held)

-- The three ways in which a round ends.
module _ (exec : Executor) (b : Bool) (p : BackupParticipant) (started : List BackupParticipant)
    (log : List HookCall) where
  pub round_cancelled :
      b ≡ true
      → prepare_round exec b p started log ≡ stop job_cancelled (run_post_hooks exec started log).1
  unfolding prepare_round
  round_cancelled c = rw c

  pub round_done :
      b ≡ false
      → (exec log (pre p)).ok ≡ true
      → prepare_round exec b p started log ≡ go_on (started ++ p ∷ []) (pre p ∷ log)
  unfolding prepare_round
  round_done live good = ground arith

  pub round_failed :
      b ≡ false
      → (exec log (pre p)).ok ≡ false
      → prepare_round exec b p started log
        ≡ stop (pre_hook_failed p) (run_post_hooks exec (started ++ p ∷ []) (pre p ∷ log)).1
  unfolding prepare_round
  round_failed live bad = ground arith

-- What a round changes of who holds a dump: `p` may be one more; whoever of those started has a
-- post-hook holds nothing if the job ends.
abbrev pub IsRoundSound :
    BackupParticipant → List BackupParticipant → List HookCall → Round → Type 0
IsRoundSound p started log (stop error log') =
    ((q : BackupParticipant) → IsHeld q log' → IsHeld q log ⊎ (p ≡ q))
    × ((q : BackupParticipant)
        → HasPostHook q
        → IsHeld q log'
        → IsHeld q log × (Among q started → ⊥))
IsRoundSound p started log (go_on started' log') =
    ((q : BackupParticipant) → IsHeld q log' → IsHeld q log ⊎ (p ≡ q))
    × ((q : BackupParticipant) → Among q started ⊎ (p ≡ q) → Among q started')

IsHeld-pre :
    (p q : BackupParticipant) (log : List HookCall)
    → IsHeld q (pre p ∷ log)
    → IsHeld q log ⊎ (p ≡ q)
IsHeld-pre p q log (inl e) = inr (ground arith)
IsHeld-pre p q log (inr h) = inl h.1

Among-last :
    (q p : BackupParticipant) (started : List BackupParticipant)
    → Among q started ⊎ (p ≡ q)
    → Among q (started ++ p ∷ [])
Among-last q p started (inl h) = Among-append_left q started (p ∷ []) h
Among-last q p started (inr e) = Among-append_right q started (p ∷ []) (inl e)

module _ (exec : Executor) (p : BackupParticipant) (started : List BackupParticipant)
    (log : List HookCall) where
  cancel-IsRoundSound :
      IsRoundSound p started log (stop job_cancelled (run_post_hooks exec started log).1)
  cancel-IsRoundSound = (
    λ q held. inl (IsHeld-run_post_hooks exec q started log held),
    λ q has held. (
      IsHeld-run_post_hooks exec q started log held,
      λ mine. run_post_hooks-releases exec q started log has mine held,
    ),
  )

  fail-IsRoundSound :
      IsRoundSound p started log
        (stop (pre_hook_failed p) (run_post_hooks exec (started ++ p ∷ []) (pre p ∷ log)).1)
  fail-IsRoundSound = (
    λ q held.
        IsHeld-pre p q log (IsHeld-run_post_hooks exec q (started ++ p ∷ []) (pre p ∷ log) held),
    λ q has held.
        let gone = λ (mine : Among q started ⊎ (p ≡ q)).
          run_post_hooks-releases exec q (started ++ p ∷ []) (pre p ∷ log) has
            (Among-last q p started mine) held in
        (
          elim (IsHeld-pre p q log
              (IsHeld-run_post_hooks exec q (started ++ p ∷ []) (pre p ∷ log) held)) [
                | inl h ↦ h
                | inr e ↦ absurd (gone (inr e))
              ],
          λ mine. gone (inl mine),
        ),
  )

  pub prepare_round-IsRoundSound :
      (b : Bool) → IsRoundSound p started log (prepare_round exec b p started log)
  prepare_round-IsRoundSound b =
      let sound = IsRoundSound p started log in
      elim (Bool-cases b) [
        | inl gone ↦
            subst sound (sym (round_cancelled exec b p started log gone)) cancel-IsRoundSound
        | inr live ↦ elim (Bool-cases (exec log (pre p)).ok) [
          | inl good ↦
              subst sound (sym (round_done exec b p started log live good))
                (λ q. IsHeld-pre p q log, λ q. Among-last q p started)
          | inr bad ↦
              subst sound (sym (round_failed exec b p started log live bad)) fail-IsRoundSound
        ]
      ]
