-- ===== src/BackupBroker/Prepare.antt =====
-- The job of a prepare: which hooks it calls and what it leaves.
use mathlib.Core.Path.{subst}
use hola.Prelude.{
  Result, ok, err, ℕ, String, ◌≡◌, refl, ap, sym, ◌∙◌, inl, inr, Bool, true, false, List, [], ◌∷◌,
  ◌++◌, map, arith, Bool-cases, select,
}
use mathlib.Core.List.{append_assoc, append-nil}
use hola.JsonRecordStore.{WriteResult}
use hola.BackupBroker.{
  BackupParticipant, Executor, HookCall, pre, Round, go_on, stop, PrepareError, job_cancelled,
  pre_hook_failed, prepare_round, prepare_loop, Installed, backup_participants, has_pre_hook,
}
use hola.BackupBroker.Server.{Host, open_prepare, run_contract_backup_prepare, end_job}
use hola.BackupBroker.Hooks.{
  made, post_calls, run_post_hooks-made, round_cancelled, round_done, round_failed,
}

-- Each of the pre-hooks succeeds when they are called in this order after the calls of the log.
abbrev Succeed : Executor → List BackupParticipant → List HookCall → Type 0
Succeed exec [] log = Unit
Succeed exec (p ∷ ps) log = ((exec log (pre p)).ok ≡ true) × Succeed exec ps (pre p ∷ log)

abbrev pre_calls : List BackupParticipant → List HookCall
pre_calls ps = map pre ps

-- What the loop is to do from the participations left on: all succeed, or the post-hooks of those
-- started are called, of the others none.
module _ (exec : Executor) (started ps : List BackupParticipant) (log : List HookCall) where
  abbrev Stops : PrepareError → List HookCall → Type 0
  Stops job_cancelled log' =
      (s : List BackupParticipant) × (rest : List BackupParticipant) × (ps ≡ s ++ rest)
      × Succeed exec s log
      × (log' ≡ made (pre_calls s ++ post_calls (started ++ s)) log)
  Stops (pre_hook_failed p) log' =
      (s : List BackupParticipant) × (rest : List BackupParticipant) × (ps ≡ s ++ p ∷ rest)
      × Succeed exec s log
      × ((exec (made (pre_calls s) log) (pre p)).ok ≡ false)
      × (log' ≡ made (pre_calls (s ++ p ∷ []) ++ post_calls (started ++ (s ++ p ∷ []))) log)

  abbrev Describes : Round → Type 0
  Describes (go_on started' log') =
      (started' ≡ started ++ ps) × Succeed exec ps log × (log' ≡ made (pre_calls ps) log)
  Describes (stop error log') = Stops error log'

regroup :
    (p : BackupParticipant) (started s : List BackupParticipant) (cs : List HookCall)
    (log log' : List HookCall)
    → log' ≡ made (cs ++ post_calls ((started ++ p ∷ []) ++ s)) log
    → log' ≡ made (cs ++ post_calls (started ++ p ∷ s)) log
regroup p started s cs log log' e =
    subst (λ xs. log' ≡ made (cs ++ post_calls xs) log) (append_assoc started (p ∷ []) s) e

extend :
    (exec : Executor) (p : BackupParticipant) (ps started : List BackupParticipant)
    (log : List HookCall) (r : Round)
    → (exec log (pre p)).ok ≡ true
    → Describes exec (started ++ p ∷ []) ps (pre p ∷ log) r
    → Describes exec started (p ∷ ps) log r
extend exec p ps started log (go_on started' log') good (e, ok_rest, l) =
    (e ∙ append_assoc started (p ∷ []) ps, (good, ok_rest), l)
extend exec p ps started log (stop job_cancelled log') good (s, rest, e, ok_s, l) = (
  p ∷ s,
  rest,
  ap (λ xs. p ∷ xs) e,
  (good, ok_s),
  regroup p started s (pre_calls s) (pre p ∷ log) log' l,
)
extend exec p ps started log (stop (pre_hook_failed q) log') good (s, rest, e, ok_s, bad, l) = (
  p ∷ s,
  rest,
  ap (λ xs. p ∷ xs) e,
  (good, ok_s),
  bad,
  regroup p started (s ++ q ∷ []) (pre_calls (s ++ q ∷ [])) (pre p ∷ log) log' l,
)

abbrev loop_after : Executor → (List HookCall → Bool) → List BackupParticipant → Round → Round
loop_after exec cancelled ps (stop error log) = stop error log
loop_after exec cancelled ps (go_on started log) = prepare_loop exec cancelled ps started log

loop_step :
    (exec : Executor) (cancelled : List HookCall → Bool) (p : BackupParticipant)
    (ps started : List BackupParticipant) (log : List HookCall) (r : Round)
    → prepare_round exec (cancelled log) p started log ≡ r
    → prepare_loop exec cancelled (p ∷ ps) started log ≡ loop_after exec cancelled ps r
unfolding prepare_loop
loop_step exec cancelled p ps started log (stop error log') e = ground arith
loop_step exec cancelled p ps started log (go_on started' log') e = ground arith

-- The loop, from any state of it: all pre-hooks succeeded, or it was stopped.
prepare_loop-described :
    (exec : Executor) (cancelled : List HookCall → Bool) (ps started : List BackupParticipant)
    (log : List HookCall)
    → Describes exec started ps log (prepare_loop exec cancelled ps started log)
unfolding prepare_loop
prepare_loop-described exec cancelled [] started log = (sym (append-nil started), tt, refl)
prepare_loop-described exec cancelled (p ∷ ps) started log =
    let ends =
      λ (r : Round) (e : prepare_round exec (cancelled log) p started log ≡ r)
          (d : Describes exec started (p ∷ ps) log (loop_after exec cancelled ps r)).
        subst (Describes exec started (p ∷ ps) log)
          (sym (loop_step exec cancelled p ps started log r e)) d in
    elim (Bool-cases (cancelled log)) [
      | inl gone ↦
          ends _
            (round_cancelled exec (cancelled log) p started log gone
              ∙ ap (stop job_cancelled) (run_post_hooks-made exec started log))
            ([], p ∷ ps, refl, tt, ap (λ xs. made (post_calls xs) log) (sym (append-nil started)))
      | inr live ↦ elim (Bool-cases (exec log (pre p)).ok) [
        | inl good ↦ ends _ (round_done exec (cancelled log) p started log live good) (
            extend exec p ps started log _ good
              (prepare_loop-described exec cancelled ps (started ++ p ∷ []) (pre p ∷ log)))
        | inr bad ↦
            ends _
              (round_failed exec (cancelled log) p started log live bad
                ∙ ap (stop (pre_hook_failed p))
                    (run_post_hooks-made exec (started ++ p ∷ []) (pre p ∷ log)))
              ([], ps, refl, tt, bad, refl)
      ]
    ]

-- What a prepare is to leave of the host.
module _ (exec : Executor) (deployments : List Installed) (timeout_ms now : ℕ) (w : WriteResult)
    (id : String) (h : Host) where
  abbrev prepared : List BackupParticipant
  prepared = select has_pre_hook (backup_participants deployments)

  abbrev pub IsPrepared : Result PrepareError (Unit {0}) × Host → Type 0
  IsPrepared (ok _, h') =
      Succeed exec prepared h.log
      × (h' ≡ open_prepare timeout_ms now w id (record h { log = made (pre_calls prepared) h.log }))
  IsPrepared (err e, h') = Stops exec [] prepared h.log e h'.log × (h' ≡ record h { log = h'.log })

  end_job-IsPrepared :
      (r : Round)
      → Describes exec [] prepared h.log r
      → IsPrepared (end_job timeout_ms now w id h r)
  unfolding end_job
  end_job-IsPrepared (stop error log') d = (d, refl)
  end_job-IsPrepared (go_on started' log') (e, good, l) =
      (good, ap (λ log. open_prepare timeout_ms now w id (record h { log = log })) l)

  -- The job of a prepare either calls all pre-hooks, in their order and each with success, and only
  -- then opens the prepare; or it stops at a cancellation or at the first pre-hook that fails, has
  -- called the post-hooks of exactly the participations that it started, in the same order, and
  -- leaves the record, the timer and the other jobs alone.
  pub run_contract_backup_prepare_undone :
      (cancelled : List HookCall → Bool)
      → IsPrepared (run_contract_backup_prepare exec cancelled deployments timeout_ms now w id h)
  unfolding run_contract_backup_prepare
  run_contract_backup_prepare_undone cancelled =
      end_job-IsPrepared (prepare_loop exec cancelled prepared [] h.log)
        (prepare_loop-described exec cancelled prepared [] h.log)
