-- ===== src/SafeWrite/Placed.antt =====
-- Where `stable_atomic_write` of src/gpthands/safe_write.py writes, and what it leaves alone.
use gpthands.Prelude.{
  String, Bool, true, false, none, some, [], ◌∷◌, ◌++◌, len, leb, leb→le, ◌≤◌, ◌≡◌, ◌≢◌, refl,
  arith, ok, =?_refl, Result-cases, Option-cases, inl, inr,
}
use gpthands.Policy.Defs.{Policy, FilePath}
use gpthands.Policy.Paths.{Resolver, inside, file_name, resolve_path}
use gpthands.SafeWrite.Defs.{file, Host}
use gpthands.SafeWrite.Atomic.{posix_atomic_write_whole}
use gpthands.SafeWrite.Stable.{
  Disk, child_of, entries_of, with_entries, workspace_relative, write_parent, stable_atomic_write,
  parent_of,
}

pub child_of-append :
    (folder : FilePath) (name : String) → child_of folder (folder ++ name ∷ []) ≡ some name
unfolding child_of
child_of-append [] name = refl
child_of-append (part ∷ folder) name = ground (arith, =?_refl part, child_of-append folder name)

inside-child_of :
    (root folder path : FilePath) (name : String)
    → inside root folder ≡ true
    → child_of folder path ≡ some name
    → inside root path ≡ true
unfolding inside child_of
inside-child_of [] folder path name h k = refl
inside-child_of (r ∷ root) [] path name h k = absurd (ground arith)
inside-child_of (r ∷ root) (part ∷ folder) [] name h k = absurd (ground arith)
inside-child_of (r ∷ root) (part ∷ folder) (other ∷ path) name h k =
    ground (arith, inside-child_of root folder path name)

module _ (resolve : Resolver) (p : Policy) where
  pub resolve_path-inside :
      (target : String) (strict : Bool) (path : FilePath)
      → resolve_path resolve p target strict ≡ ok path
      → inside p.workspace path ≡ true
  unfolding resolve_path
  resolve_path-inside target strict path h = ground arith

  write_parent-inside :
      (path : FilePath) (content : String) (disk : Disk) (parent : FilePath)
      → write_parent resolve p path content disk ≡ ok parent
      → inside p.workspace parent ≡ true
  unfolding write_parent
  write_parent-inside path content disk parent h =
      elim (Result-cases (workspace_relative resolve p (parent_of path))) [
        | inl (e, fails) ↦ absurd (ground arith)
        | inr (target, found) ↦ elim (Result-cases (resolve_path resolve p target true)) [
          | inl (e, fails) ↦ absurd (ground arith)
          | inr (folder, resolved) ↦ ground (arith, resolve_path-inside target true folder resolved)
        ]
      ]

  -- Whatever the operating system answers, and whether the write returns or raises, what stands at any
  -- path outside the workspace stays as it was.
  pub stable_atomic_write_confined :
      (h : Host) (path : FilePath) (content : String) (overwrite : Bool) (disk : Disk)
      (elsewhere : FilePath)
      → inside p.workspace elsewhere ≡ false
      → (stable_atomic_write resolve p h path content overwrite disk).1 elsewhere ≡ disk elsewhere
  unfolding stable_atomic_write with_entries
  stable_atomic_write_confined h path content overwrite disk elsewhere outside =
      elim (Result-cases (write_parent resolve p path content disk)) [
        | inl (e, fails) ↦ ground arith
        | inr (parent, found) ↦ elim (Option-cases (child_of parent elsewhere)) [
          | inl apart ↦ ground arith
          | inr (name, child) ↦ absurd (
              ground (
                arith,
                inside-child_of p.workspace parent elsewhere name
                    (write_parent-inside path content disk parent found) child,
              ))
        ]
      ]

  -- A write that returns was within the limit, and the file in the folder it was checked for holds it.
  pub record IsWritten (path : FilePath) (content : String) (before after : Disk) : Type 0 where
    pub fits : len content ≤ p.max_write_bytes
    pub folder : FilePath
    pub checked : write_parent resolve p path content before ≡ ok folder
    pub holds : after (folder ++ file_name path ∷ []) ≡ some (file content)

  write_parent-fits :
      (path : FilePath) (content : String) (disk : Disk) (parent : FilePath)
      → write_parent resolve p path content disk ≡ ok parent
      → leb (len content) p.max_write_bytes ≡ true
  unfolding write_parent
  write_parent-fits path content disk parent h = ground arith

  pub stable_atomic_write-IsWritten :
      (h : Host) (path : FilePath) (content : String) (overwrite : Bool) (disk : Disk)
      → file_name path ≢ h.temp_name
      → h.changes h.temp_name ≡ none
      → (stable_atomic_write resolve p h path content overwrite disk).0 ≡ ok tt
      → IsWritten path content disk (stable_atomic_write resolve p h path content overwrite disk).1
  unfolding stable_atomic_write with_entries
  stable_atomic_write-IsWritten h path content overwrite disk apart private returns =
      elim (Result-cases (write_parent resolve p path content disk)) [
        | inl (e, fails) ↦ absurd (ground arith)
        | inr (parent, found) ↦ record {
          fits = leb→le _ _ (write_parent-fits path content disk parent found);
          folder = parent;
          checked = found;
          holds = ground (
            arith,
            child_of-append parent (file_name path),
            (posix_atomic_write_whole h (file_name path) content overwrite (entries_of parent disk)
                  apart private).0
                (ground arith),
          );
        }
      ]
