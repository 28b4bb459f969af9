-- ===== src/State.antt =====
-- The state files of src/gpthands/state.py, given by what the file system and json.loads show of them.
-- A file that is written is read back as the value, whose keys are found whatever their order.
use gpthands.Prelude.{
  ◌≡◌, refl, arith, String, Bool, true, false, not, ◌||◌, Option, none, some, if◌then◌else◌,
  state_error, value_error, os_error, ok, raise,
}
use gpthands.Prelude.Errors.{Result}
use gpthands.Json.{put, Json, obj, Fields, end, field}

pub record StateFile : Type 0 where
  pub exists : Bool
  pub symlink : Bool
  pub is_file : Bool
  pub content : Option Json

unfoldable pub read_json_object : StateFile → Result Fields
read_json_object f =
    if not f.exists
    then ok end
    else if f.symlink || not f.is_file
    then raise state_error "state file must be a regular non-symlink file"
    else elim f.content [
      | none ↦ raise value_error "state file is not JSON"
      | some (obj raw) ↦ ok raw
      | some _ ↦ raise state_error "state file root must be an object"
    ]

-- secure_write_json: `writes` says whether the system calls of the write succeed.
unfoldable pub secure_write_json : Bool → Json → StateFile → Result (Unit {0}) × StateFile
secure_write_json writes value f =
    if f.symlink
    then (raise state_error "refusing to replace a symlink state file", f)
    else if not writes
    then (raise os_error "cannot write the state file", f)
    else (ok tt, record { exists = true; symlink = false; is_file = true; content = some value })

abbrev pub is_none : Option Fields → Bool
is_none none = true
is_none (some d) = false

abbrev pub no_fields : Fields → Bool
no_fields end = true
no_fields (field k v rest) = false

pub no_fields-put : (key : String) (value : Json) (d : Fields) → no_fields (put key value d) ≡ false
unfolding put
no_fields-put key value end = refl
no_fields-put key value (field k v rest) = ground arith
