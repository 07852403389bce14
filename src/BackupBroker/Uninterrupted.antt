-- ===== src/BackupBroker/Uninterrupted.antt =====
-- A finalize or an expiry between whose steps nobody else acts.
use hola.Prelude.{ℕ, List, [], ◌∷◌}
use hola.JsonRecordStore.{WriteResult}
use hola.BackupBroker.{BackupParticipant}
use hola.BackupBroker.Steps.{Step, cleanup}

-- The steps of a cleanup of these participations: one for each, and the one that ends it.
abbrev pub steps_of : List BackupParticipant → ℕ → WriteResult → List Step
steps_of [] now w = cleanup 0 now w ∷ []
steps_of (p ∷ ps) now w = cleanup 0 now w ∷ steps_of ps now w
