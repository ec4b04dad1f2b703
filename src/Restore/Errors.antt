-- ===== src/Restore/Errors.antt =====
-- The errors of a restore: createRestoreError in frontend/src/services/backup/restore/pipeline.ts.
-- Messages leave out the values that a template puts into them. The cause of an error, and the outer
-- `catch` that wraps the errors of other modules, are not modelled.
use private_communication.Common.{String, Result, ok, err, ok-injective, ◌≡◌, ap}

-- BackupRestoreErrorCode, as far as the parser uses it.
pub data Code : Type 0 where
  restore_canceled malformed_backup wrong_passphrase corrupted_backup : Code

-- BackupRestoreProgressStage, as far as the parser uses it.
pub data Stage : Type 0 where
  parsing_prelude deriving_root_key authenticating_header unwrapping_content_key : Stage
  decrypting_records : Stage

-- What is thrown on the way: a BackupRestoreError, or an Error of another module.
pub data Thrown : Type 0 where
  restore : Code → String → Stage → Thrown
  plain : String → Thrown

-- The most frequent throw of the parser.
abbrev pub malformed : String → Thrown
malformed message = restore malformed_backup message decrypting_records

-- A call into a module that throws plain errors.
abbrev pub lift {ℓ} : {A : Type ℓ} → Result String A → Result Thrown A
lift (ok a) = ok a
lift (err message) = err (plain message)

-- A call whose errors are replaced by one of the parser's.
abbrev pub rethrow {ℓ} : {A : Type ℓ} → Thrown → Result String A → Result Thrown A
rethrow t (ok a) = ok a
rethrow t (err message) = err t

pub lift-eq-ok {ℓ} : {A : Type ℓ} (r : Result String A) {a : A} → lift r ≡ ok a → r ≡ ok a
lift-eq-ok (ok a) e = ap ok (ok-injective e)
lift-eq-ok (err m) e = cc

pub rethrow-eq-ok {ℓ} :
    {A : Type ℓ} (t : Thrown) (r : Result String A) {a : A} → rethrow t r ≡ ok a → r ≡ ok a
rethrow-eq-ok t (ok a) e = ap ok (ok-injective e)
rethrow-eq-ok t (err m) e = cc
