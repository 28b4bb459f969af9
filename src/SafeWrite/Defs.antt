-- ===== src/SafeWrite/Defs.antt =====
-- `_write_fd_all` and `_posix_atomic_write` of src/gpthands/safe_write.py, on the directory that
-- `dir_fd` holds open. Bytes are held as texts.
use gpthands.Prelude.{
  ℕ, String, ◌<>◌, Bool, true, false, not, ◌&&◌, Option, none, some, List, [], ◌∷◌, ◌==◌, ◌=?◌,
  if◌then◌else◌, is_empty, take_chars, drop_chars, policy_error, os_error, ok, raise,
}
use gpthands.Prelude.Errors.{Result}

pub data Entry : Type 0 where
  file : String → Entry
  directory : Entry
  symlink : Entry

abbrev pub Directory : Type 0
Directory = String → Option Entry

unfoldable pub set_entry : String → Option Entry → Directory → Directory
set_entry name e d n = if n =? name then e else d n

-- What the operating system answers in one call: `writes` are the counts that os.write returns, up to
-- the one that raises, and `changes` what others did to the directory's names between the first
-- look and the commit. A tolerated failure of the last fsync counts as none.
pub record Host : Type 0 where
  pub opens : Bool
  pub parent_is_dir : Bool
  pub temp_name : String
  pub creates : Bool
  pub writes : List ℕ
  pub syncs : Bool
  pub changes : String → Option (Option Entry)
  pub replaces : Bool
  pub links : Bool
  pub unlinks : Bool
  pub syncs_parent : Bool

-- The loop of _write_fd_all: whether all was written, and what the file holds.
unfoldable pub write_all : String → String → List ℕ → Bool × String
write_all written view [] = (is_empty view, written)
write_all written view (n ∷ ns) =
    let rest = write_all (written <> take_chars n view) (drop_chars n view) ns in
    if is_empty view then (true, written) else if n == 0 then (false, written) else rest

abbrev pub is_some : Option Entry → Bool
is_some none = false
is_some (some e) = true

unfoldable pub is_directory : Option Entry → Bool
is_directory (some directory) = true
is_directory _ = false

module _ (h : Host) where
  unfoldable pub after_others : Directory → Directory
  after_others d n = elim (h.changes n) [ none ↦ d n | some e ↦ e ]

  -- The `finally` while the temporary file is still there.
  unfoldable pub cleaned : Directory → Directory
  cleaned d = if h.unlinks then set_entry h.temp_name none d else d

  unfoldable pub sync_parent : Directory → Result (Unit {0}) × Directory
  sync_parent d = if h.syncs_parent then (ok tt, d) else (raise os_error "fsync failed", d)

  -- os.replace(temp_name, name), and the removal of the temporary file where it raises
  unfoldable pub commit_replace : String → Directory → Result (Unit {0}) × Directory
  commit_replace name d =
      if not h.replaces
      then (raise os_error "cannot replace the target", cleaned d)
      else if is_directory (d name)
      then (raise os_error "target is a directory", cleaned d)
      else sync_parent (set_entry h.temp_name none (set_entry name (d h.temp_name) d))

  -- os.link(temp_name, name) and os.unlink(temp_name)
  unfoldable pub commit_link : String → Directory → Result (Unit {0}) × Directory
  commit_link name d =
      if is_some (d name)
      then (raise policy_error "target was created concurrently; refusing to overwrite", cleaned d)
      else if not h.links
      then (raise os_error "cannot link the target", cleaned d)
      else if not h.unlinks
      then (raise os_error "cannot remove the temporary file", set_entry name (d h.temp_name) d)
      else sync_parent (set_entry h.temp_name none (set_entry name (d h.temp_name) d))

  unfoldable pub commit : Bool → String → Directory → Result (Unit {0}) × Directory
  commit true name d = commit_replace name d
  commit false name d = commit_link name d

  -- From the creation of the temporary file on.
  unfoldable pub write_temp : String → Bool → String → Directory → Result (Unit {0}) × Directory
  write_temp data_bytes overwrite name d =
      let written = write_all "" data_bytes h.writes in
      let filled = set_entry h.temp_name (some (file written.1)) d in
      if is_some (d h.temp_name)
      then (raise os_error "file exists", d)
      else if not h.creates
      then (raise os_error "cannot create the temporary file", d)
      else if not (written.0 && h.syncs)
      then (raise os_error "short write while creating atomic file", cleaned filled)
      else commit overwrite name (after_others filled)

  -- _posix_atomic_write
  unfoldable pub posix_atomic_write :
      String → Bool → String → Directory → Result (Unit {0}) × Directory
  posix_atomic_write data_bytes overwrite name d =
      if not h.opens
      then (raise policy_error "cannot securely open write parent", d)
      else if not h.parent_is_dir
      then (raise policy_error "write parent is not a directory", d)
      else if is_directory (d name)
      then (raise policy_error "target is a directory", d)
      else if is_some (d name) && not overwrite
      then (raise policy_error "target already exists; set overwrite=true explicitly", d)
      else write_temp data_bytes overwrite name d
