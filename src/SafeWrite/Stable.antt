-- ===== src/SafeWrite/Stable.antt =====
-- `stable_atomic_write` of src/gpthands/safe_write.py on the whole disk, away from Windows.
use gpthands.Prelude.{
  String, Bool, true, false, not, Option, none, some, [], ◌∷◌, ◌++◌, leb, len, ◌=?◌, elem, join,
  if◌then◌else◌, policy_error, ok, err, ◌>>=◌, ◌>>◌,
}
use gpthands.Prelude.Errors.{Result, require}
use gpthands.Policy.Defs.{Policy, FilePath}
use gpthands.Policy.Paths.{Resolver, inside, file_name, resolve_path}
use gpthands.SafeWrite.Defs.{Entry, Directory, Host, is_directory, posix_atomic_write}

-- What stands at each resolved path.
abbrev pub Disk : Type 0
Disk = FilePath → Option Entry

-- path.parent
unfoldable pub parent_of : FilePath → FilePath
parent_of [] = []
parent_of (part ∷ []) = []
parent_of (part ∷ next ∷ parts) = part ∷ parent_of (next ∷ parts)

-- The name of a path in a folder, where it stands directly in it.
unfoldable pub child_of : FilePath → FilePath → Option String
child_of [] (name ∷ []) = some name
child_of (part ∷ folder) (other ∷ path) = if part =? other then child_of folder path else none
child_of _ _ = none

unfoldable pub entries_of : FilePath → Disk → Directory
entries_of folder disk name = disk (folder ++ name ∷ [])

unfoldable pub with_entries : FilePath → Directory → Disk → Disk
with_entries folder d disk path = elim (child_of folder path) [
  | none ↦ disk path
  | some name ↦ d name
]

-- path.relative_to(root), for a path inside the root
unfoldable pub below : FilePath → FilePath → FilePath
below [] path = path
below (part ∷ root) [] = []
below (part ∷ root) (other ∷ path) = below root path

-- str(path) of a relative path
unfoldable pub relative_text : FilePath → String
relative_text [] = "."
relative_text (part ∷ parts) = join "/" (part ∷ parts)

module _ (resolve : Resolver) (p : Policy) where
  -- _workspace_relative
  unfoldable pub workspace_relative : FilePath → Result String
  workspace_relative path = do
    real ← resolve false path
    require (inside p.workspace real) policy_error "write parent escapes workspace"
    ok (relative_text (below p.workspace real))

  -- The checks before the write, up to the folder it goes to.
  unfoldable pub write_parent : FilePath → String → Disk → Result FilePath
  write_parent path content disk = do
    require (leb (len content) p.max_write_bytes) policy_error "content exceeds max_write_bytes"
    require (not (elem (file_name path) ("" ∷ "." ∷ ".." ∷ []))) policy_error
        "invalid write target name"
    target ← workspace_relative (parent_of path)
    parent ← resolve_path resolve p target true
    require (is_directory (disk parent)) policy_error "parent directory does not exist"
    ok parent

  unfoldable pub stable_atomic_write :
      Host → FilePath → String → Bool → Disk → Result (Unit {0}) × Disk
  stable_atomic_write h path content overwrite disk = elim (write_parent path content disk) [
    | err e ↦ (err e, disk)
    | ok parent ↦
        let written =
          posix_atomic_write h content overwrite (file_name path) (entries_of parent disk) in
        (written.0, with_entries parent written.1 disk)
  ]
