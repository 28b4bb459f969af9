-- ===== src/Approval/Defs.antt =====
-- The replay store and the tokens of src/gpthands/approval.py.
use Prim.Native.Char.{Char, code}
use gpthands.Prelude.{
  ℕ, String, Bool, true, not, ◌&&◌, ◌||◌, List, [], ◌∷◌, ◌++◌, leb, if◌then◌else◌, elem, is_empty,
  strip, cons_char, ok, err, raise, approval_error, ◌>>◌, ◌>>=◌, ◌<>◌, take_chars, os_error,
}
use gpthands.Audit.Defs.{Written, written_whole, written_short, write_fails}
use gpthands.Prelude.Errors.{Result, Error, require}

-- The replay store on disk, as `stat` and a read of its text see it. `posix` is `os.name != "nt"`.
pub record UsedFile : Type 0 where
  pub posix : Bool
  pub exists : Bool
  pub symlink : Bool
  pub regular : Bool
  pub private : Bool
  pub owned : Bool
  pub lines : List String
  -- what stands after the last newline
  pub rest : String

-- What the operating system answers to one use of the replay store: whether the lock is taken in time,
-- whether the file is read, opened for appending, asked for its status and given its mode, and the
-- outcomes of os.write, which includes the encoding of the line, and of os.fsync.
pub record StoreIo : Type 0 where
  pub locked : Bool
  pub reads : Bool
  pub opens : Bool
  pub stats : Bool
  pub secures : Bool
  pub writes : Written
  pub syncs : Bool

-- _validate_used_store_unlocked
unfoldable pub validate_used_store : UsedFile → Result (Unit {0})
validate_used_store f = do
  require (not f.symlink) approval_error "approval replay store must not be a symlink"
  require (not f.exists || f.regular) approval_error "approval replay store must be a regular file"
  require (not f.exists || (not f.posix || f.private)) approval_error
      "approval replay store permissions must be 0600"
  require (not f.exists || (not f.posix || f.owned)) approval_error
      "approval replay store must be owned by current user"

-- The loop over the lines of the store.
unfoldable pub nonces : List String → List String
nonces [] = []
nonces (line ∷ lines) =
    let rest = nonces lines in if is_empty (strip line) then rest else strip line ∷ rest

-- str.splitlines; where a line is empty or blank does not matter to the store
unfoldable pub is_line_break : ℕ → Bool
is_line_break c = (leb 10 c && leb c 13) || (leb 28 c && leb c 30)

unfoldable pub onto_first : Char → List String → List String
onto_first c [] = cons_char c "" ∷ []
onto_first c (line ∷ lines) = cons_char c line ∷ lines

unfoldable pub split_lines : String → List String
unfolding is_line_break onto_first
split_lines String.[] = "" ∷ []
split_lines (String.◌∷◌ c s) =
    if is_line_break (code c) then "" ∷ split_lines s else onto_first c (split_lines s)

-- _load_consumed_unlocked, where the file can be read
unfoldable pub load_consumed : UsedFile → Result (List String)
load_consumed f = do
  validate_used_store f
  ok (if f.exists then nonces (f.lines ++ split_lines f.rest) else [])

-- The file and the manager's copy of what it holds.
pub record Store : Type 0 where
  pub file : UsedFile
  pub consumed : List String

-- The file after `os.open` with O_CREAT and the mode 0600.
abbrev pub opened : UsedFile → UsedFile
opened f = record {
  posix = f.posix;
  exists = true;
  symlink = f.symlink;
  regular = if f.exists then f.regular else true;
  private = if f.exists then f.private else true;
  owned = if f.exists then f.owned else true;
  lines = if f.exists then f.lines else [];
  rest = if f.exists then f.rest else "";
}

-- The file after `os.fchmod`, which only POSIX has.
abbrev pub secured : UsedFile → UsedFile
secured f = record f { private = if f.posix then true else f.private }

-- The file after the `os.write` of a nonce and a newline, whose count of bytes nobody looks at.
unfoldable pub with_nonce : Written → String → UsedFile → UsedFile
with_nonce written_whole nonce f = record f {
  lines = f.lines ++ split_lines (f.rest <> nonce);
  rest = "";
}
with_nonce (written_short n) nonce f = record f { rest = f.rest <> take_chars n nonce }
with_nonce write_fails nonce f = f

-- What os.write and os.fsync answer.
unfoldable pub written : StoreIo → Result (Unit {0})
written io = elim io.writes [
  | write_fails ↦ raise os_error "cannot write the replay store"
  | _ ↦ if io.syncs then ok tt else raise os_error "cannot sync the replay store"
]

abbrev already_used : Error
already_used = Error.error approval_error "approval token was already used"

-- _load_consumed_unlocked
unfoldable pub read_consumed : StoreIo → UsedFile → Result (List String)
read_consumed io f = do
  current ← load_consumed f
  require (not f.exists || io.reads) approval_error "cannot read approval replay store"
  ok current

-- _is_consumed
unfoldable pub is_consumed : StoreIo → String → Store → Result Bool × Store
is_consumed io nonce s =
    if not io.locked
    then (raise approval_error "timed out acquiring lock", s)
    else elim (read_consumed io s.file) [
      | err e ↦ (err e, s)
      | ok current ↦ (ok (elem nonce current), record s { consumed = current })
    ]

-- What _consume_nonce does with a nonce that is not in the store, on the file as it is opened.
unfoldable pub append_nonce : StoreIo → String → List String → Store → Result (Unit {0}) × Store
append_nonce io nonce current s =
    let f = opened s.file in
    if not io.stats
    then (raise os_error "cannot stat the replay store", record s { file = f })
    else if not f.regular
    then (
      raise approval_error "approval replay store must be a regular file",
      record s { file = f },
    )
    else if f.posix && not io.secures
    then (raise os_error "cannot change the mode of the replay store", record s { file = f })
    else if f.posix && not f.owned
    then (
      raise approval_error "approval replay store must be owned by current user",
      record s { file = secured f },
    )
    else elim (written io) [
      | err e ↦ (err e, record s { file = with_nonce io.writes nonce (secured f) })
      | ok done ↦ (
        ok tt,
        record { file = with_nonce io.writes nonce (secured f); consumed = current ++ nonce ∷ [] },
      )
    ]

-- _consume_nonce
unfoldable pub consume_nonce : StoreIo → String → Store → Result (Unit {0}) × Store
consume_nonce io nonce s =
    if not io.locked
    then (raise approval_error "timed out acquiring lock", s)
    else elim (read_consumed io s.file) [
      | err e ↦ (err e, s)
      | ok current ↦
          if elem nonce current
          then (err already_used, record s { consumed = current })
          else if not io.opens
          then (raise os_error "cannot open the replay store", s)
          else append_nonce io nonce current s
    ]
