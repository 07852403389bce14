-- ===== src/JsonRecordStore.antt =====
-- packages/server/src/services/core/json-record-store.ts: one JSON record under the server's own
-- data directory, read fail-open and written warn-only. The file system is the environment: what
-- became of a write is an argument of `write`.

-- The file behind a store. `unreadable` stands for a text that does not parse and for a read that
-- throws.
pub data File {ℓ} (T : Type ℓ) : Type ℓ where
  missing unreadable : File T
  holds : T → File T

-- What became of a write: it was done, it failed and left the old file, or it failed half-way.
pub data WriteResult : Type 0 where
  written kept torn : WriteResult

module _ {ℓ} {T : Type ℓ} where
  -- `read`: `empty` is the `{}` of the source.
  unfoldable pub read : T → File T → T
  read empty missing = empty
  read empty unreadable = empty
  read empty (holds t) = t

  -- `write`: a failure is logged and never thrown, so the caller goes on either way.
  unfoldable pub write : WriteResult → T → File T → File T
  write written t file = holds t
  write kept t file = file
  write torn t file = unreadable
