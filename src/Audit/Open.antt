-- ===== src/Audit/Open.antt =====
-- `verify_audit_file` and the opening of an `AuditLogger` of src/gpthands/audit.py, on POSIX.
use gpthands.Prelude.{
  Bool, true, false, not, ◌&&◌, Option, none, some, ◌≡◌, arith, if◌then◌else◌, ok, os_error,
  lock_error, ◌>>◌,
}
use gpthands.Prelude.Errors.{Result, require}
use gpthands.Policy.Defs.{FilePath}
use gpthands.Policy.Paths.{inside}
use gpthands.Audit.Defs.{Runtime, LogFile, AuditVerification, verify_stream}

-- The log's path as the file system sees it: the path that `resolve` gives, whether the file opens, is
-- regular, is the user's and takes the mode, whether its lock is taken, and what it holds.
pub record LogPath : Type 0 where
  pub parent : Bool
  pub symlink : Bool
  pub exists : Bool
  pub resolved : FilePath
  pub opens : Bool
  pub regular : Bool
  pub owned : Bool
  pub takes_mode : Bool
  pub locks : Bool
  pub content : LogFile

-- What is answered of a file that is not read, with or without an error.
abbrev pub unread : Bool → AuditVerification
unread valid = record {
  valid = valid;
  chained_records = 0;
  legacy_records = 0;
  anchored = false;
  last_hash = none;
  fault = none;
}

-- Whether a workspace is given and holds the path.
unfoldable pub holds : Option FilePath → FilePath → Bool
holds none path = false
holds (some workspace) path = inside workspace path

module _ (rt : Runtime) where
  unfoldable pub verify_audit_file : LogPath → AuditVerification
  verify_audit_file p =
      if p.symlink
      then unread false
      else if not p.exists
      then unread true
      else if p.opens && p.locks
      then verify_stream rt p.content
      else unread false

  -- AuditLogger.__init__: the log that the logger writes to, for a workspace that may be given
  unfoldable pub open_log : Option FilePath → LogPath → Result LogFile
  open_log workspace p = do
    require p.parent os_error "mkdir"
    require (not p.symlink) os_error "audit log must not be a symlink"
    require (not (holds workspace p.resolved)) os_error
        "audit log must be outside the MCP workspace"
    require p.opens os_error "open"
    require p.regular os_error "audit log must be a regular file"
    require p.owned os_error "audit log must be owned by the current user"
    require p.takes_mode os_error "fchmod"
    require p.locks lock_error "timed out acquiring lock"
    require (verify_stream rt p.content).valid os_error "audit chain verification failed"
    ok p.content

  -- A log that a logger has been opened on verifies, also by `verify_audit_file`, and lies outside the
  -- workspace.
  open_log-verifies :
      (workspace : FilePath) (p : LogPath) (f : LogFile)
      → p.exists ≡ true
      → open_log (some workspace) p ≡ ok f
      → (verify_stream rt f ≡ verify_audit_file p)
        × ((verify_audit_file p).valid ≡ true)
        × (inside workspace p.resolved ≡ false)
  unfolding open_log verify_audit_file holds
  open_log-verifies workspace p f there opened = ground arith
