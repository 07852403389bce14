-- ===== src/Tests/Databases.antt =====
-- Judgements of the backup and the restore coverage of an app with two databases.
use hola.Prelude.{◌≡◌, refl, true, none, some, String, List, [], ◌∷◌, any}
use hola.Coverage.{
  AppBackupParticipation, AppRestoreDeclaration, judge_backup_coverage, judge_restore_coverage,
  backup_state, restore_state, backup_targets, restore_targets, add_target, hook_ids, quiesced,
  restorable, partial,
}
use hola.Coverage.Sound.{quiesces, reloads, quiesced_sound, restorable_sound}

abbrev main_database : AppBackupParticipation
main_database = record {
  id = "main";
  pre_hook = some (record { service = "db"; command = "pg_dump" ∷ [] });
  post_hook = none;
}

abbrev cache : AppBackupParticipation
cache = record {
  id = "cache";
  pre_hook = some (record { service = "redis"; command = "save" ∷ [] });
  post_hook = none;
}

abbrev participations : List AppBackupParticipation
participations = main_database ∷ cache ∷ []

abbrev declarations : List AppRestoreDeclaration
declarations =
    record { id = "main"; hook = some (record { service = "db"; command = "psql" ∷ [] }) }
    ∷ record { id = "cache"; hook = some (record { service = "redis"; command = "load" ∷ [] }) }
    ∷ []

abbrev databases : List String
databases = "db" ∷ "redis" ∷ []

unfoldable judging : Unit {0}
unfolding judge_backup_coverage judge_restore_coverage backup_state restore_state backup_targets
    restore_targets add_target hook_ids
judging = tt

one_of_two : (judge_backup_coverage true (main_database ∷ []) databases).state ≡ partial
unfolding judging
one_of_two = refl

all_quiesced : (judge_backup_coverage true participations databases).state ≡ quiesced
unfolding judging
all_quiesced = refl

all_restorable :
    (judge_restore_coverage true participations declarations databases).state ≡ restorable
unfolding judging
all_restorable = refl

quiesced_sound_example : (true ≡ true) × (any (quiesces "redis") participations ≡ true)
quiesced_sound_example = quiesced_sound true participations databases "redis" all_quiesced refl

restorable_sound_example : (true ≡ true) × (any (reloads declarations "db") participations ≡ true)
restorable_sound_example =
    restorable_sound true participations declarations databases "db" all_restorable refl
