-- ===== src/Bootstrap/Tests.antt =====
-- Two wheels of one version, and an older one.
use package.text.Mathlib.TextEquality.{eq_iff}
use gpthands.Prelude.{
  arith, ◌≢◌, String, true, false, none, some, [], ◌∷◌, ◌≡◌, refl, string_discrete, ok, has_suffix,
  has_prefix, is_empty, all_chars, strip, lower, lstrip, rstrip,
}
use gpthands.Json.{
  Json, int, pos, text, arr, nil, Fields, field, end, get, put, as_fields, equals_int, equals_text,
}
use gpthands.ReleaseGate.Defs.{is_lower_hex, text_before}
use gpthands.Server.Handle.{truthy}
use gpthands.Server.Read.{texts_of}
use gpthands.Bootstrap.Wheel.{
  Wheel, normalize_sha256, verify_wheel_sha256, metadata_of, release_of, is_version_char,
  inspect_wheel,
}
use gpthands.Bootstrap.Defs.{
  Site, done, Host, find_release, load_manifest, check_manifest, read_object, digests_in,
  check_digests, is_list, digests_of, digest_of, texts_in, history_of, drop, last_ten, without,
  pop_last, insert_sorted, sort_keys, python_in, launcher_text, release_info, marker_digest,
  check_marker, load_release_info,
}
use gpthands.Bootstrap.Install.{
  new_release, manifest_of, holding, succeeded, smoke_release, build_release, add_release,
  place_release, atomic_text, write_launcher, write_manifest, point_at, accept_wheel,
  refuse_release, check_recorded, open_site, history_after, make_current, install_release, install,
}
use gpthands.Bootstrap.Commands.{
  no_file, run_command, plan_rollback, previous_release, recorded_digest, history_before, uninstall,
  remove_launcher, remove_manifest, rollback, install_wheel, remove, roll_back, exit_code,
  is_refusal, status,
}
use gpthands.Bootstrap.OneDigest.{after_commands, install_once}
use gpthands.Bootstrap.Back.{install-rollback}
use gpthands.Bootstrap.Current.{IsCurrent, run_command-IsCurrent}

abbrev digest : String
digest = "00112233445566778899aabbccddeeff00112233445566778899aabbccddeeff"

abbrev wheel : Wheel
wheel = record {
  is_symlink = false;
  is_file = true;
  sha256 = digest;
  suffix = ".whl";
  members = some (
      ("gpthands/cli.py", "", "")
      ∷ ("gpthands-1.2.0.dist-info/METADATA", "GPTHands", "1.2.0")
      ∷ []);
}

abbrev host : Host
host = record {
  makes_dirs = true;
  makes_target = true;
  venv = ok tt;
  pip = ok true;
  smoke = λ version. ok true;
  marker_write = true;
  launcher_write = done;
  manifest_write = done;
  unlinks_launcher = true;
  unlinks_manifest = true;
}

abbrev empty_site : Site
empty_site = record {
  root = "/opt/gpthands";
  root_exists = false;
  root_symlink = false;
  bin_symlink = false;
  releases_symlink = false;
  manifest = no_file;
  releases = [];
  launcher = record { exists = false; is_symlink = false; content = "" };
}

abbrev str_of : Json → String
str_of v = ""

abbrev manifest : Fields
manifest = manifest_of "1.2.0" [] (field "1.2.0" (text digest) end) "/bin/gpthands"

abbrev installed : Site
installed = (install str_of "/bin/gpthands" host wheel digest empty_site).1

inspected : inspect_wheel wheel ≡ ok ("gpthands", "1.2.0")
unfolding inspect_wheel release_of metadata_of string_discrete has_suffix has_prefix strip lstrip
    rstrip lower is_empty all_chars is_version_char
inspected = refl

first : (install str_of "/bin/gpthands" host wheel digest empty_site).0 ≡ ok manifest
unfolding install accept_wheel verify_wheel_sha256 normalize_sha256 install_release open_site
    refuse_release find_release load_manifest check_recorded digest_of digests_of place_release
    build_release succeeded smoke_release release_info add_release make_current history_after
    history_of last_ten drop texts_in point_at write_launcher write_manifest atomic_text
    inspect_wheel release_of metadata_of string_discrete has_suffix has_prefix strip lstrip rstrip
    lower is_empty all_chars is_version_char is_lower_hex get put as_fields sort_keys insert_sorted
    truthy
first = refl

-- The folder outlives its manifest.
again :
    (install str_of "/bin/gpthands" host wheel digest
      (after_commands str_of "/bin/gpthands" ((host, roll_back) ∷ (host, remove) ∷ []) installed)).0
    ≡ ok manifest
unfolding install accept_wheel verify_wheel_sha256 normalize_sha256 install_release open_site
    refuse_release find_release load_manifest check_recorded digest_of digests_of place_release
    build_release succeeded smoke_release release_info add_release make_current history_after
    history_of last_ten drop texts_in point_at write_launcher write_manifest atomic_text
    inspect_wheel release_of metadata_of string_discrete has_suffix has_prefix strip lstrip rstrip
    lower is_empty all_chars is_version_char is_lower_hex get put as_fields sort_keys insert_sorted
    truthy run_command rollback plan_rollback check_manifest read_object digests_in check_digests
    is_list equals_int equals_text previous_release pop_last recorded_digest load_release_info
    check_marker marker_digest history_before uninstall remove_launcher remove_manifest without
    texts_of text_before
again = refl

install_once_example : wheel.sha256 ≡ wheel.sha256
install_once_example =
    install_once str_of "/bin/gpthands" host host wheel wheel digest digest empty_site
      ((host, roll_back) ∷ (host, remove) ∷ []) "gpthands" "gpthands" "1.2.0" manifest manifest
      inspected inspected first again

-- A manifest that holds an array ends `status` by a traceback instead of a refusal.
array_manifest :
    exit_code (
      status (record empty_site {
        manifest = record {
          exists = true;
          symlink = false;
          is_file = true;
          content = some (arr nil);
        };
      }))
    ≡ none
unfolding exit_code is_refusal status load_manifest check_manifest read_object
array_manifest = refl

install_command :
    (run_command str_of "/bin/gpthands" host (install_wheel wheel digest) empty_site).0
    ≡ ok manifest
unfolding run_command
install_command = first

run_command-IsCurrent_example :
    IsCurrent
      (run_command str_of "/bin/gpthands" host (install_wheel wheel digest) empty_site).1
      manifest
run_command-IsCurrent_example =
    run_command-IsCurrent str_of "/bin/gpthands" host (install_wheel wheel digest) empty_site
      manifest refl install_command

abbrev older : String
older = "ffeeddccbbaa99887766554433221100ffeeddccbbaa99887766554433221100"

abbrev old_manifest : Fields
old_manifest = manifest_of "1.1.0" [] (field "1.1.0" (text older) end) "/bin/gpthands"

abbrev old_info : Fields
old_info =
    field "schema" (int (pos 1))
      (field "version" (text "1.1.0") (field "wheel_sha256" (text older) end))

abbrev old_site : Site
old_site = record {
  root = "/opt/gpthands";
  root_exists = true;
  root_symlink = false;
  bin_symlink = false;
  releases_symlink = false;
  manifest = holding old_manifest;
  releases = ("1.1.0", new_release old_info) ∷ [];
  launcher = record {
    exists = true;
    is_symlink = false;
    content = launcher_text (python_in "/opt/gpthands" "1.1.0");
  };
}

old_names :
    (get "current" old_manifest ≡ some (text "1.1.0"))
    × (digest_of "1.1.0" (digests_of old_manifest) ≡ some older)
    × (find_release "1.1.0" old_site.releases ≡ some (new_release old_info))
unfolding get digest_of digests_of as_fields sort_keys insert_sorted find_release string_discrete
old_names = (refl, refl, refl)

old_loads : load_release_info (some (new_release old_info)) "1.1.0" older ≡ ok old_info
unfolding load_release_info check_marker read_object marker_digest normalize_sha256 get equals_int
    equals_text string_discrete strip lstrip rstrip lower all_chars is_lower_hex
old_loads = refl

abbrev old_current : IsCurrent old_site old_manifest
old_current = record {
  version = "1.1.0";
  digest = older;
  recorded = refl;
  named = old_names.0;
  digest_recorded = old_names.1;
  bound = record {
    release = new_release old_info;
    found = old_names.2;
    info = old_info;
    loads = old_loads;
  };
  starts = refl;
}

abbrev new_manifest : Fields
new_manifest =
    manifest_of "1.2.0" ("1.1.0" ∷ [])
      (field "1.1.0" (text older) (field "1.2.0" (text digest) end)) "/bin/gpthands"

updated : (install str_of "/bin/gpthands" host wheel digest old_site).0 ≡ ok new_manifest
unfolding install accept_wheel verify_wheel_sha256 normalize_sha256 install_release open_site
    refuse_release find_release load_manifest check_recorded digest_of digests_of place_release
    build_release succeeded smoke_release release_info add_release make_current history_after
    history_of last_ten drop texts_in point_at write_launcher write_manifest atomic_text
    inspect_wheel release_of metadata_of string_discrete has_suffix has_prefix strip lstrip rstrip
    lower is_empty all_chars is_version_char is_lower_hex get put as_fields sort_keys insert_sorted
    truthy run_command rollback plan_rollback check_manifest read_object digests_in check_digests
    is_list equals_int equals_text previous_release pop_last recorded_digest load_release_info
    check_marker marker_digest history_before uninstall remove_launcher remove_manifest without
    texts_of text_before
updated = refl

versions_differ : (◌≢◌ {A = String} "1.2.0" "1.1.0") × (is_empty "1.1.0" ≡ false)
unfolding is_empty
versions_differ = (λ e. ground (arith, e, eq_iff "1.2.0" "1.1.0"), refl)

install-rollback_example :
    let s = (install str_of "/bin/gpthands" host wheel digest old_site).1 in
    (m : Fields) × ((rollback "/bin/gpthands" host s).0 ≡ ok m)
    × (get "current" m ≡ some (text "1.1.0"))
    × ((rollback "/bin/gpthands" host s).1.launcher.content
        ≡ launcher_text (python_in s.root "1.1.0"))
install-rollback_example =
    install-rollback str_of "/bin/gpthands" host host wheel digest old_site old_manifest
      new_manifest old_current "gpthands" "1.2.0" inspected versions_differ.0 versions_differ.1
      updated refl (refl, refl)
