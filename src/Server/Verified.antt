-- ===== src/Server/Verified.antt =====
-- The audit log across a call of `_call_tool` of src/gpthands/server.py: it verifies before and after.
use gpthands.Prelude.{◌+◌, String, true, ◌≡◌, ok, Result}
use gpthands.Json.{Json, Fields}
use gpthands.Audit.Defs.{Scan, verify_stream}
use gpthands.Audit.Recording.{IsKept, IsReadBack}
use gpthands.Server.World.{World, Surroundings}
use gpthands.Server.Call.{entry}

-- What redaction and the JSON library make of the record of one outcome of a call: the record keeps its
-- audit object, and the line that is written reads back as it but for the order of its keys.
pub record IsWritable (s : Surroundings) (request_id : Json) (name outcome : String) (detail : Json)
    (scan : Scan) : Type 0 where
  pub fields : Fields
  pub audit : Fields
  pub kept : IsKept s.runtime (entry s request_id name outcome detail) scan fields audit
  pub back : IsReadBack s.runtime scan fields audit

-- The call has answered, and its log verifies with one chained record more than before.
pub record IsVerified (s : Surroundings) (scan : Scan) (r : Result Json × World) : Type 0 where
  pub answer : Json
  pub answers : r.0 ≡ ok answer
  pub valid : (verify_stream s.runtime r.1.log).valid ≡ true
  pub one_more : (verify_stream s.runtime r.1.log).chained_records ≡ scan.chained + 1
  pub others : (verify_stream s.runtime r.1.log).legacy_records ≡ scan.legacy
