-- ===== src/SafeWrite/Returns.antt =====
-- When `_posix_atomic_write` of src/gpthands/safe_write.py returns.
use gpthands.Prelude.{String, Bool, true, false, none, ◌≡◌, ◌≢◌, ◌⊎◌, ap, arith, ok}
use gpthands.SafeWrite.Defs.{
  Directory, Host, write_all, is_some, is_directory, after_others, sync_parent, commit_replace,
  commit_link, commit, write_temp, posix_atomic_write,
}
use gpthands.SafeWrite.Atomic.{filled, seen-other}

-- The operating system refuses nothing, and os.write takes all of the content in the end.
pub record IsWilling (h : Host) (content : String) : Type 0 where
  pub opens : h.opens ≡ true
  pub parent : h.parent_is_dir ≡ true
  pub creates : h.creates ≡ true
  pub writes : (write_all "" content h.writes).0 ≡ true
  pub syncs : h.syncs ≡ true
  pub replaces : h.replaces ≡ true
  pub links : h.links ≡ true
  pub unlinks : h.unlinks ≡ true
  pub syncs_parent : h.syncs_parent ≡ true

module _ (h : Host) (name content : String) (d : Directory) (willing : IsWilling h content) where
  commit_replace-returns :
      (e : Directory) → is_directory (e name) ≡ false → (commit_replace h name e).0 ≡ ok tt
  unfolding commit_replace sync_parent
  commit_replace-returns e free = ground (arith, willing.replaces, willing.syncs_parent)

  commit_link-returns :
      (e : Directory) → is_some (e name) ≡ false → (commit_link h name e).0 ≡ ok tt
  unfolding commit_link sync_parent
  commit_link-returns e free = ground (arith, willing.links, willing.unlinks, willing.syncs_parent)

  module _ (apart : name ≢ h.temp_name) (private : h.changes h.temp_name ≡ none)
      (fresh : d h.temp_name ≡ none) where
    seen :
        (overwrite : Bool) (part : String)
        → after_others h (filled h name content overwrite d apart private part) name
          ≡ after_others h d name
    seen overwrite part = seen-other h name content overwrite d apart private part name apart

    commit-returns :
        (overwrite : Bool) (part : String)
        → is_directory (after_others h d name) ≡ false
        → (overwrite ≡ true) ⊎ (is_some (after_others h d name) ≡ false)
        → (commit h overwrite name
            (after_others h (filled h name content overwrite d apart private part))).0
          ≡ ok tt
    unfolding commit
    commit-returns true part no_dir allowed =
        commit_replace-returns _ (ground (arith, ap is_directory (seen true part)))
    commit-returns false part no_dir allowed =
        commit_link-returns _ (ground (arith, ap is_some (seen false part)))

    -- Where the operating system refuses nothing and takes all the content, the temporary name is free,
    -- the target is no directory, and it is absent if overwrite is not set, both at the first look
    -- and at the commit, the write returns.
    pub posix_atomic_write_returns :
        (overwrite : Bool)
        → is_directory (d name) ≡ false
        → is_directory (after_others h d name) ≡ false
        → (overwrite ≡ true)
          ⊎ ((is_some (d name) ≡ false) × (is_some (after_others h d name) ≡ false))
        → (posix_atomic_write h content overwrite name d).0 ≡ ok tt
    unfolding posix_atomic_write write_temp
    posix_atomic_write_returns overwrite first last allowed =
        let part = (write_all "" content h.writes).1 in
        let committed = commit-returns overwrite part last (ground arith) in
        ground (
          arith, committed, willing.opens, willing.parent, willing.creates, willing.writes,
          willing.syncs,
        )
