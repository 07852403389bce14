-- ===== src/Coverage/Sound.antt =====
-- The verdicts on coverage, and the databases that the hooks name.
use hola.Prelude.{
  String, ◌≡◌, refl, Bool, true, false, ◌&&◌, Option, none, some, List, [], ◌∷◌, length, is_empty,
  arith, str_eq, eq_refl, includes, All, any,
}
use hola.Coverage.{
  AppBackupParticipation, AppRestoreDeclaration, pre_service, counts_service, backup_targets,
  backup_state, quiesced, judge_backup_coverage, restore_targets, restore_declared, restore_state,
  restorable, hook_ids, judge_restore_coverage, recognised_service, add_target,
}
use hola.Coverage.Targets.{IsTargets, IsTargets-all, IsTargets-add_target}

-- The participation's pre-hook runs in the service.
abbrev pub quiesces : String → AppBackupParticipation → Bool
quiesces y p = elim (pre_service p) [ none ↦ false | some s ↦ str_eq s y ]

-- Its pre-hook does, and a restore declaration with a hook has its id.
abbrev pub reloads : List AppRestoreDeclaration → String → AppBackupParticipation → Bool
reloads declarations y p = quiesces y p && includes (hook_ids declarations) p.id

counts-recognised :
    (databases : List String) (o : Option String)
    → counts_service databases o ≡ true
    → recognised_service databases o ≡ true
counts-recognised databases none h = cc
counts-recognised databases (some s) h = ground arith

quiesces-of_eq :
    (p : AppBackupParticipation) (y : String) → pre_service p ≡ some y → quiesces y p ≡ true
quiesces-of_eq p y e = ground (arith, e, eq_refl y)

backup_targets-IsTargets :
    (databases : List String) (named : String → Bool) (ps : List AppBackupParticipation)
    (xs : List String)
    → All (λ p. (y : String) → quiesces y p ≡ true → named y ≡ true) ps
    → IsTargets databases named xs
    → IsTargets databases named (backup_targets databases ps xs)
unfolding backup_targets
backup_targets-IsTargets databases named [] xs n t = t
backup_targets-IsTargets databases named (p ∷ ps) xs n t =
    let counted = counts_service databases (pre_service p) in
    backup_targets-IsTargets databases named ps (add_target counted (pre_service p) xs) n.1 (
      IsTargets-add_target databases named counted (pre_service p) xs
        (counts-recognised databases (pre_service p)) (λ y c e. n.0 y (quiesces-of_eq p y e)) t)

restore_targets-IsTargets :
    (databases : List String) (named : String → Bool) (ds : List AppRestoreDeclaration)
    (ps : List AppBackupParticipation) (xs : List String)
    → All (λ p. (y : String) → reloads ds y p ≡ true → named y ≡ true) ps
    → IsTargets databases named xs
    → IsTargets databases named (restore_targets databases (hook_ids ds) ps xs)
unfolding restore_targets
restore_targets-IsTargets databases named ds [] xs n t = t
restore_targets-IsTargets databases named ds (p ∷ ps) xs n t =
    let counted = restore_declared databases (hook_ids ds) p in
    restore_targets-IsTargets databases named ds ps (add_target counted (pre_service p) xs) n.1 (
      IsTargets-add_target databases named counted (pre_service p) xs (λ c. ground arith)
        (λ y c e. n.0 y (ground (arith, quiesces-of_eq p y e))) t)

-- Some participation answers for the service.
All-any :
    (test : String → AppBackupParticipation → Bool) (ps qs : List AppBackupParticipation)
    → ((y : String) → any (test y) qs ≡ true → any (test y) ps ≡ true)
    → All (λ p. (y : String) → test y p ≡ true → any (test y) ps ≡ true) qs
All-any test ps [] h = tt
All-any test ps (q ∷ qs) h =
    (λ y t. h y (ground arith), All-any test ps qs (λ y t. h y (ground arith)))

not_empty : (xs : List String) (y : String) → includes xs y ≡ true → is_empty xs ≡ false
not_empty [] y h = cc
not_empty (x ∷ xs) y h = refl

quiesced_verdict :
    (accepts : Bool) (ps : List AppBackupParticipation) (databases : List String)
    → (judge_backup_coverage accepts ps databases).state ≡ quiesced
    → is_empty databases ≡ false
    → (accepts ≡ true) × (length (backup_targets databases ps []) ≡ length databases)
unfolding judge_backup_coverage backup_state
quiesced_verdict accepts ps databases h e = ground arith

restorable_verdict :
    (accepts : Bool) (ps : List AppBackupParticipation) (ds : List AppRestoreDeclaration)
    (databases : List String)
    → (judge_restore_coverage accepts ps ds databases).state ≡ restorable
    → is_empty databases ≡ false
    → (accepts ≡ true) × (length (restore_targets databases (hook_ids ds) ps []) ≡ length databases)
unfolding judge_restore_coverage restore_state
restorable_verdict accepts ps ds databases h e = ground arith

-- The verdict `quiesced` on an app with recognised databases is true: it accepts backups, and the
-- pre-hook of some participation runs in each database service.
pub quiesced_sound :
    (accepts : Bool) (ps : List AppBackupParticipation) (databases : List String) (y : String)
    → (judge_backup_coverage accepts ps databases).state ≡ quiesced
    → includes databases y ≡ true
    → (accepts ≡ true) × (any (quiesces y) ps ≡ true)
quiesced_sound accepts ps databases y h d =
    let verdict = quiesced_verdict accepts ps databases h (not_empty databases y d) in
    (
      verdict.0,
      IsTargets-all databases (λ z. any (quiesces z) ps) (backup_targets databases ps []) y
          (backup_targets-IsTargets databases (λ z. any (quiesces z) ps) ps []
            (All-any quiesces ps ps (λ z q. q))
            (record { distinct = tt; within = tt; told = λ z q. cc }))
          verdict.1 d,
    )

-- The verdict `restorable` on an app with recognised databases is true: it accepts restores, and for
-- each database service some participation with a pre-hook there has a restore declaration with a
-- hook.
pub restorable_sound :
    (accepts : Bool) (ps : List AppBackupParticipation) (ds : List AppRestoreDeclaration)
    (databases : List String) (y : String)
    → (judge_restore_coverage accepts ps ds databases).state ≡ restorable
    → includes databases y ≡ true
    → (accepts ≡ true) × (any (reloads ds y) ps ≡ true)
restorable_sound accepts ps ds databases y h d =
    let verdict = restorable_verdict accepts ps ds databases h (not_empty databases y d) in
    (
      verdict.0,
      IsTargets-all databases (λ z. any (reloads ds z) ps)
          (restore_targets databases (hook_ids ds) ps []) y
          (restore_targets-IsTargets databases (λ z. any (reloads ds z) ps) ds ps []
            (All-any (reloads ds) ps ps (λ z q. q))
            (record { distinct = tt; within = tt; told = λ z q. cc }))
          verdict.1 d,
    )
