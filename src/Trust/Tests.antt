-- ===== src/Trust/Tests.antt =====
-- A workspace that is trusted, and another that is not.
use gpthands.Prelude.{String, true, false, none, ◌≡◌, ◌≢◌, refl, ok}
use gpthands.State.{StateFile, read_json_object, secure_write_json}
use gpthands.Trust.Defs.{
  Workspace, load_store, workspace_key, trust_record, opened_store, trust, is_trusted,
}
use gpthands.Trust.Store.{trust-is_trusted}

abbrev digest : String → String
digest t = t

abbrev work : Workspace
work = record { is_dir = true; canonical = "/work"; dir_name = "work" }

abbrev no_file : StateFile
no_file = record { exists = false; symlink = false; is_file = false; content = none }

trusted : (trust digest true work 100 none no_file).0 ≡ ok (trust_record digest work 100 none)
unfolding trust opened_store workspace_key load_store read_json_object secure_write_json
trusted = refl

trust-is_trusted_example :
    (is_trusted digest work (trust digest true work 100 none no_file).1 ≡ ok true)
    × ((w : Workspace)
        → w.is_dir ≡ true
        → ◌≢◌ {A = String} "/work" w.canonical
        → is_trusted digest w (trust digest true work 100 none no_file).1
          ≡ is_trusted digest w no_file)
trust-is_trusted_example =
    trust-is_trusted digest work 100 none no_file (trust_record digest work 100 none) true trusted
