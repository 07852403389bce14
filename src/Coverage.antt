-- ===== src/Coverage.antt =====
-- packages/shared/src/contracts.ts: the judgements of backup and of restore coverage. A `Set` of
-- texts is the list of its members in insertion order.
pub mod Targets
pub mod Sound
use hola.Prelude.{
  ℕ, String, Bool, true, false, ◌&&◌, ◌||◌, not, Option, none, some, List, [], ◌∷◌, ◌++◌, map,
  length, ltb, ◌==◌, if◌then◌else◌, str_eq, includes, is_some, is_empty,
}

pub record AppBackupHook : Type 0 where
  pub service : String
  pub command : List String

pub record AppBackupParticipation : Type 0 where
  pub id : String
  pub pre_hook : Option AppBackupHook
  pub post_hook : Option AppBackupHook

-- The parts of a restore declaration that the judgement reads.
pub record AppRestoreDeclaration : Type 0 where
  pub id : String
  pub hook : Option AppBackupHook

pub data BackupCoverageState : Type 0 where
  quiesced partial as_is uncovered : BackupCoverageState

pub data RestoreCoverageState : Type 0 where
  restorable copy_back incomplete undeclared : RestoreCoverageState

pub record BackupPart : Type 0 where
  pub id : String
  pub service : Option String

pub record ContractCoverage : Type 0 where
  pub state : BackupCoverageState
  pub targeted : ℕ
  pub recognised : ℕ
  pub participations : List BackupPart
  pub databases : List String

-- `set.add(s)`
abbrev pub set_add : String → List String → List String
set_add s xs = if includes xs s then xs else xs ++ s ∷ []

-- `p.preHook?.service`
abbrev pub pre_service : AppBackupParticipation → Option String
pre_service p = elim p.pre_hook [ none ↦ none | some h ↦ some h.service ]

-- A text is truthy unless it is empty.
abbrev pub counts_service : List String → Option String → Bool
counts_service databases none = false
counts_service databases (some s) = not (str_eq s "") && includes databases s

-- One round: a service is added if it counts.
unfoldable pub add_target : Bool → Option String → List String → List String
add_target counted none targeted = targeted
add_target counted (some s) targeted = if counted then set_add s targeted else targeted

unfoldable pub backup_targets :
    List String → List AppBackupParticipation → List String → List String
backup_targets databases [] targeted = targeted
backup_targets databases (p ∷ ps) targeted =
    backup_targets databases ps
      (add_target (counts_service databases (pre_service p)) (pre_service p) targeted)

unfoldable pub backup_state : Bool → Bool → ℕ → ℕ → BackupCoverageState
backup_state accepts none_participate targeted recognised =
    if not accepts
    then uncovered
    else if recognised == 0
    then (if none_participate then as_is else quiesced)
    else if targeted == recognised
    then quiesced
    else partial

unfoldable pub judge_backup_coverage :
    Bool → List AppBackupParticipation → List String → ContractCoverage
judge_backup_coverage accepts participations databases =
    let targeted = length (backup_targets databases participations []) in
    record {
      state = backup_state accepts (is_empty participations) targeted (length databases);
      targeted = targeted;
      recognised = length databases;
      participations = map (λ p. record { id = p.id; service = pre_service p }) participations;
      databases = databases;
    }

pub record RestorePart : Type 0 where
  pub id : String
  pub service : Option String
  pub declared : Bool

pub record RestoreCoverage : Type 0 where
  pub state : RestoreCoverageState
  pub targeted : ℕ
  pub recognised : ℕ
  pub participations : List RestorePart
  pub databases : List String

-- The ids of the declarations that carry a hook: the keys of `hookById`.
unfoldable pub hook_ids : List AppRestoreDeclaration → List String
hook_ids [] = []
hook_ids (d ∷ ds) = let rest = hook_ids ds in if is_some d.hook then d.id ∷ rest else rest

abbrev pub recognised_service : List String → Option String → Bool
recognised_service databases none = false
recognised_service databases (some s) = includes databases s

abbrev pub restore_declared : List String → List String → AppBackupParticipation → Bool
restore_declared databases hooks p =
    recognised_service databases (pre_service p) && includes hooks p.id

unfoldable pub restore_targets :
    List String → List String → List AppBackupParticipation → List String → List String
restore_targets databases hooks [] targeted = targeted
restore_targets databases hooks (p ∷ ps) targeted =
    restore_targets databases hooks ps
      (add_target (restore_declared databases hooks p) (pre_service p) targeted)

unfoldable pub restore_state : Bool → Bool → ℕ → ℕ → RestoreCoverageState
restore_state accepts no_hooks targeted recognised =
    if not accepts
    then undeclared
    else if recognised == 0
    then (if no_hooks then copy_back else restorable)
    else if targeted == recognised
    then restorable
    else incomplete

unfoldable pub judge_restore_coverage :
    Bool → List AppBackupParticipation → List AppRestoreDeclaration → List String → RestoreCoverage
judge_restore_coverage accepts participations declarations databases =
    let hooks = hook_ids declarations in
    let targeted = length (restore_targets databases hooks participations []) in
    record {
      state = restore_state accepts (is_empty hooks) targeted (length databases);
      targeted = targeted;
      recognised = length databases;
      participations =
          map
            (λ p. record {
              id = p.id;
              service = pre_service p;
              declared = restore_declared databases hooks p;
            })
            participations;
      databases = databases;
    }
