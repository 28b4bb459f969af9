-- ===== src/SafeWrite/Tests.antt =====
-- One directory with a file, and a host that lets everything pass.
use package.text.Mathlib.TextEquality.{eq_iff}
use gpthands.Prelude.{
  String, true, false, none, some, ◌∷◌, [], ◌≡◌, ◌≢◌, ◌⊎◌, inl, refl, arith, ok, =?_refl, is_empty,
  take_chars, drop_chars, string_discrete, ◌=?◌, if◌then◌else◌,
}
use gpthands.SafeWrite.Defs.{
  is_directory, write_all, file, Directory, Host, is_some, after_others, posix_atomic_write,
}
use gpthands.SafeWrite.Atomic.{posix_atomic_write_whole, posix_atomic_write_elsewhere}
use gpthands.SafeWrite.Returns.{IsWilling, posix_atomic_write_returns}
use gpthands.SafeWrite.Clobber.{posix_atomic_write_no_clobber}

abbrev host : Host
host = record {
  opens = true;
  parent_is_dir = true;
  temp_name = ".gpthands-00";
  creates = true;
  writes = 2 ∷ 3 ∷ [];
  syncs = true;
  changes = λ n. none;
  replaces = true;
  links = true;
  unlinks = true;
  syncs_parent = true;
}

abbrev before : Directory
before n = if n =? "a.txt" then some (file "old") else none

apart : ◌≢◌ {A = String} "a.txt" ".gpthands-00"
apart e = ground (arith, e, eq_iff "a.txt" ".gpthands-00")

posix_atomic_write_whole_example :
    ((posix_atomic_write host "new!!" true "a.txt" before).0 ≡ ok tt
      → (posix_atomic_write host "new!!" true "a.txt" before).1 "a.txt" ≡ some (file "new!!"))
    × (((posix_atomic_write host "new!!" true "a.txt" before).1 "a.txt" ≡ before "a.txt")
        ⊎ ((posix_atomic_write host "new!!" true "a.txt" before).1 "a.txt"
            ≡ after_others host before "a.txt")
        ⊎ ((posix_atomic_write host "new!!" true "a.txt" before).1 "a.txt" ≡ some (file "new!!")))
posix_atomic_write_whole_example =
    posix_atomic_write_whole host "a.txt" "new!!" true before apart refl

posix_atomic_write_elsewhere_example :
    ((n : String)
      → n ≢ "a.txt"
      → n ≢ ".gpthands-00"
      → ((posix_atomic_write host "new!!" true "a.txt" before).1 n ≡ before n)
        ⊎ ((posix_atomic_write host "new!!" true "a.txt" before).1 n ≡ after_others host before n))
    × (before ".gpthands-00" ≡ none
        → true ≡ true
        → (posix_atomic_write host "new!!" true "a.txt" before).1 ".gpthands-00" ≡ none)
posix_atomic_write_elsewhere_example =
    posix_atomic_write_elsewhere host "a.txt" "new!!" true before apart refl

there : is_some (before "a.txt") ≡ true
there = ground (arith, =?_refl "a.txt")

posix_atomic_write_no_clobber_example :
    ((posix_atomic_write host "new!!" false "a.txt" before).0 ≢ ok tt)
    × (((posix_atomic_write host "new!!" false "a.txt" before).1 "a.txt" ≡ before "a.txt")
        ⊎ ((posix_atomic_write host "new!!" false "a.txt" before).1 "a.txt"
            ≡ after_others host before "a.txt"))
posix_atomic_write_no_clobber_example =
    posix_atomic_write_no_clobber host "a.txt" "new!!" before apart refl (inl there)

willing : IsWilling host "new!!"
unfolding write_all is_empty take_chars drop_chars
willing = record {
  opens = refl;
  parent = refl;
  creates = refl;
  writes = refl;
  syncs = refl;
  replaces = refl;
  links = refl;
  unlinks = refl;
  syncs_parent = refl;
}

fresh : before ".gpthands-00" ≡ none
unfolding string_discrete
fresh = refl

no_dir : is_directory (before "a.txt") ≡ false
unfolding is_directory string_discrete
no_dir = refl

no_dir_later : is_directory (after_others host before "a.txt") ≡ false
unfolding is_directory after_others string_discrete
no_dir_later = refl

posix_atomic_write_returns_example : (posix_atomic_write host "new!!" true "a.txt" before).0 ≡ ok tt
posix_atomic_write_returns_example =
    posix_atomic_write_returns host "a.txt" "new!!" before willing apart refl fresh true no_dir
      no_dir_later (inl refl)
