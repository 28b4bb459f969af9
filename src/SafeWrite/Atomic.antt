-- ===== src/SafeWrite/Atomic.antt =====
-- The promises of `_posix_atomic_write` of src/gpthands/safe_write.py: all or nothing, no clobbering,
-- nothing left behind.
use mathlib.Core.Path.{subst}
use gpthands.Prelude.{
  String, Bool, true, not, ◌&&◌, none, some, ◌≡◌, ◌≢◌, ◌⊎◌, inl, inr, refl, sym, ap, ◌∙◌, arith, ok,
  err,
}
use package.text.Mathlib.TextLemmas.{nil-append}
use gpthands.Prelude.Errors.{Result, Error}
use gpthands.SafeWrite.Defs.{
  file, Directory, set_entry, Host, write_all, is_some, is_directory, after_others, cleaned, commit,
  write_temp, posix_atomic_write,
}
use gpthands.SafeWrite.Complete.{
  write_all_complete, set_entry-same, set_entry-other, Committed, commit-Committed, Committed-name,
  Committed-other, Committed-temp, cleaned-other, cleaned-temp, if-intro,
}

-- Others leave the temporary file alone: its name has 128 random bits.
module _ (h : Host) (name content : String) (overwrite : Bool) (d : Directory)
    (apart : name ≢ h.temp_name) (private : h.changes h.temp_name ≡ none) where
  abbrev pub filled : String → Directory
  filled part = set_entry h.temp_name (some (file part)) d

  pub seen-other :
      (part n : String) → n ≢ h.temp_name → after_others h (filled part) n ≡ after_others h d n
  unfolding after_others
  seen-other part n b = ground (arith, set_entry-other h.temp_name n (some (file part)) d b)

  pub seen-temp : (part : String) → after_others h (filled part) h.temp_name ≡ some (file part)
  unfolding after_others
  seen-temp part = ground (arith, private, set_entry-same h.temp_name (some (file part)) d)

  data Written : Result (Unit {0}) × Directory → Type 0 where
    unstarted : (e : Error) → Written (err e, d)
    spoiled : (e : Error) (part : String) → Written (err e, cleaned h (filled part))
    finished :
        (part : String) (r : Result (Unit {0}) × Directory)
        → part ≡ content
        → r ≡ commit h overwrite name (after_others h (filled part))
        → Written r

  write_temp-Written : Written (write_temp h content overwrite name d)
  unfolding write_temp
  write_temp-Written =
      if-intro Written (is_some (d h.temp_name)) _ _ (λ e. unstarted _)
        (λ e.
          if-intro Written (not h.creates) _ _ (λ f. unstarted _)
            (λ f.
              if-intro Written (not ((write_all "" content h.writes).0 && h.syncs)) _ _
                (λ g. spoiled _ _)
                (λ g.
                  finished _ _
                    (write_all_complete "" content h.writes (ground (arith, g))
                      ∙ nil-append content)
                    refl)))

  posix_atomic_write-Written : Written (posix_atomic_write h content overwrite name d)
  unfolding posix_atomic_write
  posix_atomic_write-Written =
      if-intro Written (not h.opens) _ _ (λ e. unstarted _)
        (λ e.
          if-intro Written (not h.parent_is_dir) _ _ (λ f. unstarted _)
            (λ f.
              if-intro Written (is_directory (d name)) _ _ (λ g. unstarted _)
                (λ g.
                  if-intro Written (is_some (d name) && not overwrite) _ _ (λ k. unstarted _)
                    (λ k. write_temp-Written))))

  abbrev committed : String → Result (Unit {0}) × Directory
  committed part = commit h overwrite name (after_others h (filled part))

  committed-Committed :
      (part : String)
      → Committed h name
          (after_others h (filled part))
          part
          overwrite
          (seen-temp part)
          apart
          (committed part)
  committed-Committed part =
      commit-Committed h name (after_others h (filled part)) part overwrite (seen-temp part) apart

  -- The target holds all of the content where the call returns, and else what it held or others put
  -- there, or all of the content.
  abbrev Whole : Result (Unit {0}) × Directory → Type 0
  Whole r =
      (r.0 ≡ ok tt → r.1 name ≡ some (file content))
      × ((r.1 name ≡ d name)
          ⊎ (r.1 name ≡ after_others h d name)
          ⊎ (r.1 name ≡ some (file content)))

  commit-Whole : (part : String) → part ≡ content → Whole (committed part)
  commit-Whole part same =
      elim (Committed-name h name _ part overwrite (seen-temp part) apart _
        (committed-Committed part)) [
          | inl (kept, fails) ↦
              (λ k. absurd (fails k), inr (inl (kept ∙ seen-other part name apart)))
          | inr new ↦ (
            λ k. new ∙ ap (λ c. some (file c)) same,
            inr (inr (new ∙ ap (λ c. some (file c)) same)),
          )
        ]

  written-Whole : (r : Result (Unit {0}) × Directory) → Written r → Whole r
  written-Whole _ (unstarted e) = (λ k. ground (arith, k), inl refl)
  written-Whole _ (spoiled e part) = (
    λ k. ground (arith, k),
    inl (
        cleaned-other h name (filled part) part overwrite (set_entry-same h.temp_name _ d) apart
          name apart
        ∙ set_entry-other h.temp_name name _ d apart),
  )
  written-Whole r (finished part _ same e) = subst Whole (sym e) (commit-Whole part same)

  -- Whatever the operating system answers and others do meanwhile, a write that returns has put all of
  -- the content at the target, and one that raises has left there what was there before or what
  -- others put there, or all of the content, and never a part of it. The temporary file's name is
  -- not the target's, and others do not touch it.
  pub posix_atomic_write_whole :
      ((posix_atomic_write h content overwrite name d).0 ≡ ok tt
        → (posix_atomic_write h content overwrite name d).1 name ≡ some (file content))
      × (((posix_atomic_write h content overwrite name d).1 name ≡ d name)
          ⊎ ((posix_atomic_write h content overwrite name d).1 name ≡ after_others h d name)
          ⊎ ((posix_atomic_write h content overwrite name d).1 name ≡ some (file content)))
  posix_atomic_write_whole = written-Whole _ posix_atomic_write-Written

  abbrev Elsewhere : Result (Unit {0}) × Directory → Type 0
  Elsewhere r =
      ((n : String) → n ≢ name → n ≢ h.temp_name → (r.1 n ≡ d n) ⊎ (r.1 n ≡ after_others h d n))
      × (d h.temp_name ≡ none → h.unlinks ≡ true → r.1 h.temp_name ≡ none)

  commit-Elsewhere : (part : String) → Elsewhere (committed part)
  commit-Elsewhere part = (
    λ n a b. inr (
        Committed-other h name _ part overwrite (seen-temp part) apart _ (committed-Committed part)
          n a b
        ∙ seen-other part n b),
    λ fresh gone.
        Committed-temp h name _ part overwrite (seen-temp part) apart _ (committed-Committed part)
          gone,
  )

  written-Elsewhere : (r : Result (Unit {0}) × Directory) → Written r → Elsewhere r
  written-Elsewhere _ (unstarted e) = (λ n a b. inl refl, λ fresh gone. fresh)
  written-Elsewhere _ (spoiled e part) = (
    λ n a b. inl (
        cleaned-other h name (filled part) part overwrite (set_entry-same h.temp_name _ d) apart n b
        ∙ set_entry-other h.temp_name n _ d b),
    λ fresh gone.
        cleaned-temp h name (filled part) part overwrite (set_entry-same h.temp_name _ d) apart
          gone,
  )
  written-Elsewhere r (finished part _ same e) = subst Elsewhere (sym e) (commit-Elsewhere part)

  -- Whatever happens, a name other than the target's and the temporary file's keeps its entry or has
  -- the one that others gave it; and where the temporary name was free and files can be
  -- unlinked, no temporary file is left behind, whether the write returns or raises.
  pub posix_atomic_write_elsewhere :
      ((n : String)
        → n ≢ name
        → n ≢ h.temp_name
        → ((posix_atomic_write h content overwrite name d).1 n ≡ d n)
          ⊎ ((posix_atomic_write h content overwrite name d).1 n ≡ after_others h d n))
      × (d h.temp_name ≡ none
          → h.unlinks ≡ true
          → (posix_atomic_write h content overwrite name d).1 h.temp_name ≡ none)
  posix_atomic_write_elsewhere = written-Elsewhere _ posix_atomic_write-Written
