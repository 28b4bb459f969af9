-- ===== src/Bootstrap/Defs.antt =====
-- The installation that src/scripts/release_bootstrap.py keeps, on POSIX: its manifest, its release
-- folders and its launcher.
use gpthands.Prelude.{
  ℕ, suc, ◌-◌, String, ◌<>◌, Bool, true, false, not, ◌&&◌, Option, none, some, List, [], ◌∷◌, ◌=?◌,
  if◌then◌else◌, length, replace_char, bootstrap_error, attribute_error, ok, raise, ◌>>=◌, ◌>>◌,
}
use gpthands.Prelude.Errors.{Result, require}
use gpthands.Json.{
  pos, Json, null, int, text, arr, obj, Items, nil, cons, Fields, end, field, get, put, as_fields,
  equals_int, equals_text,
}
use gpthands.State.{StateFile}
use gpthands.ReleaseGate.Defs.{text_before}
use gpthands.Bootstrap.Wheel.{normalize_sha256}

-- A release's folder, with its marker .gpthands-release.json.
pub record Release : Type 0 where
  pub is_symlink : Bool
  pub is_dir : Bool
  pub marker : StateFile

-- The launcher's path: whether anything exists there, and the text of the file.
pub record Launcher : Type 0 where
  pub exists : Bool
  pub is_symlink : Bool
  pub content : String

-- The root with what is below it, and the folder of the launcher. A release is named by its version.
pub record Site : Type 0 where
  pub root : String
  pub root_exists : Bool
  pub root_symlink : Bool
  pub bin_symlink : Bool
  pub releases_symlink : Bool
  pub manifest : StateFile
  pub releases : List (String × Release)
  pub launcher : Launcher

-- How a write of a managed file ends: it raises with nothing replaced, raises after os.replace, or is done.
pub data Writing : Type 0 where
  fails fails_late done : Writing

-- What the operating system and the started programs answer in one call: whether the root and the
-- launcher's folder can be made, whether the version's folder can, with the releases folder above it,
-- the venv's creation, whether pip and the smoke test of a version succeed, the writes, and whether the
-- two files of `uninstall` can be removed.
pub record Host : Type 0 where
  pub makes_dirs : Bool
  pub makes_target : Bool
  pub venv : Result (Unit {0})
  pub pip : Result Bool
  pub smoke : String → Result Bool
  pub marker_write : Bool
  pub launcher_write : Writing
  pub manifest_write : Writing
  pub unlinks_launcher : Bool
  pub unlinks_manifest : Bool

-- _refuse_symlink
abbrev pub refuse_symlink : Bool → Result (Unit {0})
refuse_symlink is_symlink =
    require (not is_symlink) bootstrap_error "managed path must not be a symlink"

unfoldable pub find_release : String → List (String × Release) → Option Release
find_release version [] = none
find_release version (entry ∷ entries) =
    if entry.0 =? version then some entry.1 else find_release version entries

-- The manifest where there is none yet.
abbrev pub no_manifest : Fields
no_manifest =
    field "schema" (int (pos 1))
      (field "current" null (field "history" (arr nil) (field "digests" (obj end) end)))

unfoldable pub check_digests : Fields → Result (Unit {0})
check_digests end = ok tt
check_digests (field version (text digest) rest) = do
  normal ← normalize_sha256 digest
  check_digests rest
check_digests (field version _ rest) =
    raise bootstrap_error "install manifest digest entries must be strings"

unfoldable pub is_list : Option Json → Bool
is_list (some (arr items)) = true
is_list _ = false

-- data.get("digests", {}), which has to be a dict
unfoldable pub digests_in : Fields → Result Fields
digests_in stored = elim (get "digests" stored) [
  | none ↦ ok end
  | some (obj digests) ↦ ok digests
  | some _ ↦ raise bootstrap_error "install manifest digests must be an object"
]

-- What is read of a manifest or a marker: `data.get` fails on a value that is no dict.
unfoldable pub read_object : StateFile → String → Result Fields
read_object f message = elim f.content [
  | none ↦ raise bootstrap_error message
  | some (obj stored) ↦ ok stored
  | some _ ↦ raise attribute_error "object has no attribute 'get'"
]

unfoldable pub check_manifest : StateFile → Result Fields
check_manifest f = do
  refuse_symlink f.symlink
  stored ← read_object f "invalid install manifest"
  require (equals_int (get "schema" stored) 1 && is_list (get "history" stored)) bootstrap_error
      "unsupported install manifest"
  digests ← digests_in stored
  check_digests digests
  ok (put "digests" (obj digests) stored)

-- _load_manifest
unfoldable pub load_manifest : StateFile → Result Fields
load_manifest f = if not f.exists then ok no_manifest else check_manifest f

-- manifest.get("digests", {})
unfoldable pub digests_of : Fields → Fields
digests_of manifest = elim (as_fields (get "digests" manifest)) [
  | none ↦ end
  | some digests ↦ digests
]

-- digests.get(version), which has to be a text
unfoldable pub digest_of : String → Fields → Option String
digest_of version digests = elim (get version digests) [
  | some (text digest) ↦ some digest
  | _ ↦ none
]

-- [item for item in manifest.get("history", []) if isinstance(item, str)]
unfoldable pub texts_in : Items → List String
texts_in nil = []
texts_in (cons (text t) items) = t ∷ texts_in items
texts_in (cons _ items) = texts_in items

unfoldable pub history_of : Fields → List String
history_of manifest = elim (get "history" manifest) [ some (arr items) ↦ texts_in items | _ ↦ [] ]

unfoldable pub drop : ℕ → List String → List String
drop ℕ.zero items = items
drop (suc n) [] = []
drop (suc n) (item ∷ items) = drop n items

-- history[-10:]
unfoldable pub last_ten : List String → List String
last_ten items = drop (length items - 10) items

unfoldable pub without : String → List String → List String
without item [] = []
without item (x ∷ xs) = let rest = without item xs in if x =? item then rest else x ∷ rest

-- history.pop(): the last item, and the list before it
unfoldable pub pop_last : List String → Option (String × List String)
pop_last [] = none
pop_last (item ∷ items) = elim (pop_last items) [
  | none ↦ some (item, [])
  | some (last, before) ↦ some (last, item ∷ before)
]

-- dict(sorted(digests.items()))
unfoldable pub insert_sorted : String → Json → Fields → Fields
insert_sorted key value end = field key value end
insert_sorted key value (field k v rest) =
    let later = insert_sorted key value rest in
    if text_before k key then field k v later else field key value (field k v rest)

unfoldable pub sort_keys : Fields → Fields
sort_keys end = end
sort_keys (field k v rest) = insert_sorted k v (sort_keys rest)

-- _python_in and _launcher_text
unfoldable pub python_in : String → String → String
python_in root version = root <> ("/releases/" <> (version <> "/bin/python"))

unfoldable pub launcher_text : String → String
launcher_text python =
    "#!/bin/sh\nexec '" <> (replace_char 39 "'\\''" python <> "' -m gpthands.cli \"$@\"\n")

-- The payload of _write_release_info
unfoldable pub release_info : String → String → Result Fields
release_info version digest = do
  normal ← normalize_sha256 digest
  ok (
      field "schema" (int (pos 1))
        (field "version" (text version) (field "wheel_sha256" (text normal) end)))

-- data.get("wheel_sha256"), which has to be a text
unfoldable pub marker_digest : Fields → Result String
marker_digest stored = elim (get "wheel_sha256" stored) [
  | some (text digest) ↦ ok digest
  | _ ↦ raise bootstrap_error "release integrity marker is missing wheel_sha256"
]

unfoldable pub check_marker : StateFile → String → String → Result Fields
check_marker f version expected = do
  refuse_symlink f.symlink
  require f.is_file bootstrap_error "release integrity marker is missing"
  stored ← read_object f "invalid release integrity marker"
  require (equals_int (get "schema" stored) 1 && equals_text (get "version" stored) version)
      bootstrap_error "release integrity marker version mismatch"
  digest ← marker_digest stored
  normal ← normalize_sha256 digest
  wanted ← normalize_sha256 expected
  require (normal =? wanted) bootstrap_error
      "installed release is bound to a different wheel digest"
  ok stored

-- _load_release_info
unfoldable pub load_release_info : Option Release → String → String → Result Fields
load_release_info none version expected = raise bootstrap_error "release directory is missing"
load_release_info (some r) version expected = do
  refuse_symlink r.is_symlink
  require r.is_dir bootstrap_error "release directory is missing"
  check_marker r.marker version expected
