-- ===== src/State/Lock.antt =====
-- src/state/repo-lock.ts: the lock file of a repository, and `clearConfirmedStaleLock` of
-- src/state/recovery.ts. The file is absent, or holds bytes that decode to metadata or do not; a
-- process creates it empty before it writes.
pub mod Contention
pub mod Ownership
pub mod Exclusion
pub mod Overlap
pub mod Waiting
use omp_lazy.Prelude.{
  ℕ, zero, suc, ◌-◌, String, Bool, true, false, ◌&&◌, not, Option, none, some, if◌then◌else◌, ltb,
  leb, ◌==◌, string_eq, nat_eq,
}
use omp_lazy.Prelude.Result.{Result, ok, err, ◌>>=◌, ◌>>◌, stop_if, or_err}

pub data LockPurpose : Type 0 where
  stop command : LockPurpose

pub record LockMetadata : Type 0 where
  pub nonce : String
  pub pid : ℕ
  pub session_id : String
  pub purpose : LockPurpose
  pub acquired_at : String

pub data LockStateError : Type 0 where
  malformed_lock : LockStateError

-- The text of a lock file: of the shape of the metadata, or of another shape, as when it is empty.
pub data LockText : Type 0 where
  shapeless : LockText
  shaped : LockMetadata → LockText

-- `null` when the file does not exist
abbrev pub LockFile : Type 0
LockFile = Option LockText

abbrev pub metadata_schema : LockMetadata → Bool
metadata_schema m = ltb 0 m.pid

unfoldable pub decode_metadata : LockText → Result LockStateError LockMetadata
decode_metadata shapeless = err malformed_lock
decode_metadata (shaped m) = if metadata_schema m then ok m else err malformed_lock

abbrev pub has_nonce : String → Result LockStateError LockMetadata → Bool
has_nonce nonce (ok current) = current.nonce == nonce
has_nonce nonce (err malformed_lock) = false

-- `LockHandle.release` up to the `unlink`: whether the file still holds the handle's lock
unfoldable pub release_reads : LockMetadata → LockFile → Bool
unfolding decode_metadata
release_reads metadata none = false
release_reads metadata (some text) = has_nonce metadata.nonce (decode_metadata text)

-- `LockHandle.release`: its answer and the file
unfoldable pub release : LockMetadata → LockFile → Bool × LockFile
release metadata file = if release_reads metadata file then (true, none) else (false, file)

unfoldable pub read_metadata : LockFile → Result LockStateError (Option LockMetadata)
read_metadata none = ok none
read_metadata (some text) = decode_metadata text >>= λ m. ok (some m)

pub data ClearError : Type 0 where
  confirmation_required owner_alive lock_missing nonce_mismatch malformed : ClearError

abbrev pub read_or_throw :
    Result LockStateError (Option LockMetadata) → Result ClearError (Option LockMetadata)
read_or_throw (ok m) = ok m
read_or_throw (err malformed_lock) = err malformed

abbrev pub cleared : Bool × LockFile → Result ClearError LockFile
cleared (true, file) = ok file
cleared (false, file) = err nonce_mismatch

-- `clearConfirmedStaleLock`, with the file that it leaves; `malformed` is what `readMetadata`
-- throws.
unfoldable pub clear_confirmed_stale_lock :
    String → Bool → Bool → LockFile → Result ClearError LockFile
clear_confirmed_stale_lock expected_nonce is_owner_alive confirmed file = do
  stop_if (not confirmed) confirmation_required
  stop_if is_owner_alive owner_alive
  found ← read_or_throw (read_metadata file)
  metadata ← or_err found lock_missing
  stop_if (not (metadata.nonce == expected_nonce)) nonce_mismatch
  cleared (release metadata file)

-- `open(path, "wx")`: nothing when the file is there (`EEXIST`)
unfoldable pub open_exclusive : LockFile → Option LockFile
open_exclusive none = some (some shapeless)
open_exclusive (some text) = none

pub data Acquisition : Type 0 where
  acquired : ℕ → Acquisition
  timed_out : Acquisition
  out_of_fuel : Acquisition

abbrev pub min : ℕ → ℕ → ℕ
min a b = if leb a b then a else b

-- `deadlineAfter`: its two answers at the time `now`
abbrev pub remaining_ms : ℕ → ℕ → ℕ
remaining_ms expires_at now = expires_at - now

abbrev pub is_valid : ℕ → ℕ → Bool
is_valid expires_at now = ltb now expires_at

-- The time that an attempt has left, and the test of its loop
abbrev pub remaining : ℕ → ℕ → ℕ → ℕ
remaining expires_at wait_until now = min (remaining_ms expires_at now) (wait_until - now)

abbrev pub may_try : ℕ → ℕ → ℕ → Bool
may_try expires_at wait_until now = is_valid expires_at now && leb now wait_until

-- `RepoLock.tryAcquire` with its loop on fuel, where time passes only in a sleep: `taken` says when the file exists, and `wake now ms`
-- is the time at which a sleep of `ms` from `now` ends.
module _ (wake : ℕ → ℕ → ℕ) (taken : ℕ → Bool) (expires_at wait_until : ℕ) where
  unfoldable pub try_acquire : ℕ → ℕ → Acquisition
  try_acquire zero now = out_of_fuel
  try_acquire (suc fuel) now =
      let left = remaining expires_at wait_until now in
      let rest = try_acquire fuel (wake now (min 5 left)) in
      if may_try expires_at wait_until now
      then if taken now then if leb left 0 then timed_out else rest else acquired now
      else timed_out
