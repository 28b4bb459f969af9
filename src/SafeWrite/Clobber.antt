-- ===== src/SafeWrite/Clobber.antt =====
-- Without `overwrite`, what stands at the target stays: src/gpthands/safe_write.py.
use gpthands.Prelude.{
  String, true, false, not, ◌&&◌, none, ◌≡◌, ◌≢◌, ◌⊎◌, inl, inr, refl, ap, ◌∙◌, arith, ok, err,
}
use gpthands.Prelude.Errors.{Result, Error}
use gpthands.SafeWrite.Defs.{
  Directory, Host, write_all, is_some, is_directory, after_others, cleaned, commit, commit_link,
  write_temp, posix_atomic_write,
}
use gpthands.SafeWrite.Complete.{set_entry-same, set_entry-other, cleaned-other, if-intro}
use gpthands.SafeWrite.Atomic.{filled, seen-other, seen-temp}

module _ (h : Host) (name content : String) (d : Directory) (apart : name ≢ h.temp_name)
    (private : h.changes h.temp_name ≡ none)
    (taken : (is_some (d name) ≡ true) ⊎ (is_some (after_others h d name) ≡ true)) where
  abbrev Refused : Result (Unit {0}) × Directory → Type 0
  Refused r = (r.0 ≢ ok tt) × ((r.1 name ≡ d name) ⊎ (r.1 name ≡ after_others h d name))

  unstarted : (e : Error) → Refused (err e, d)
  unstarted e = (λ k. ground (arith, k), inl refl)

  spoiled :
      (e : Error) (part : String)
      → Refused (err e, cleaned h (filled h name content false d apart private part))
  spoiled e part = (
    λ k. ground (arith, k),
    inl (
        cleaned-other h name (filled h name content false d apart private part) part false
          (set_entry-same h.temp_name _ d) apart name apart
        ∙ set_entry-other h.temp_name name _ d apart),
  )

  commit-Refused :
      (part : String)
      → is_some (after_others h d name) ≡ true
      → Refused
          (commit h false name (after_others h (filled h name content false d apart private part)))
  unfolding commit commit_link
  commit-Refused part there =
      let same = seen-other h name content false d apart private part name apart in
      if-intro Refused
        (is_some (after_others h (filled h name content false d apart private part) name)) _ _
        (λ e. (
          λ k. ground (arith, k),
          inr (
              cleaned-other h name _ part false
                (seen-temp h name content false d apart private part) apart name apart
              ∙ same),
        ))
        (λ e. absurd (ground (arith, e, ap is_some same, there)))

  -- Where overwrite is not set and the target exists when the call looks first or when it commits, the
  -- call raises, and the target's entry is what it was or what others made it.
  pub posix_atomic_write_no_clobber :
      ((posix_atomic_write h content false name d).0 ≢ ok tt)
      × (((posix_atomic_write h content false name d).1 name ≡ d name)
          ⊎ ((posix_atomic_write h content false name d).1 name ≡ after_others h d name))
  unfolding posix_atomic_write write_temp
  posix_atomic_write_no_clobber =
      if-intro Refused (not h.opens) _ _ (λ e. unstarted _)
        (λ e.
          if-intro Refused (not h.parent_is_dir) _ _ (λ f. unstarted _)
            (λ f.
              if-intro Refused (is_directory (d name)) _ _ (λ g. unstarted _)
                (λ g.
                  if-intro Refused (is_some (d name) && true) _ _ (λ k. unstarted _)
                    (λ k.
                      if-intro Refused (is_some (d h.temp_name)) _ _ (λ l. unstarted _)
                        (λ l.
                          if-intro Refused (not h.creates) _ _ (λ m. unstarted _)
                            (λ m.
                              if-intro Refused (not ((write_all "" content h.writes).0 && h.syncs))
                                _ _ (λ o. spoiled _ _)
                                (λ o. commit-Refused _ (ground (arith, k, taken)))))))))
