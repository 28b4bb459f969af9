-- ===== src/Approval/Replay.antt =====
-- A nonce that is used up stays used up: src/gpthands/approval.py, the replay store.
use Prim.Native.Char.{Char, code}
use Prim.Native.String.append
use gpthands.Audit.Defs.{written_whole}
use gpthands.Prelude.{
  inl, inr, Result-cases, ◌<>◌, ℕ, String, Bool, true, false, ◌&&◌, ◌||◌, List, [], ◌∷◌, ◌++◌, ◌≡◌,
  ◌≢◌, arith, leb, is_empty, elem, strip, lstrip, rstrip, cons_char, all_chars, is_space,
  cons_trimmed, ok, refl, ap, ◌∙◌, if◌then◌else◌, =?_refl,
}
use gpthands.Approval.Defs.{
  Store, StoreIo, nonces, split_lines, onto_first, is_line_break, validate_used_store,
  load_consumed, is_consumed, consume_nonce, append_nonce, with_nonce, read_consumed,
}

-- A digit of what secrets.token_hex returns.
unfoldable pub is_hex : ℕ → Bool
is_hex c = (leb b'0' c && leb c b'9') || (leb b'a' c && leb c b'f')

abbrev pub IsHex : String → Type 0
IsHex s = all_chars is_hex s ≡ true

cons_trimmed_hex :
    (c : Char) (s : String) → is_hex (code c) ≡ true → cons_trimmed c s ≡ cons_char c s
unfolding cons_trimmed is_space is_hex
cons_trimmed_hex c String.[] h = ground arith
cons_trimmed_hex c (String.◌∷◌ d s) h = refl

rstrip_hex : (s : String) → IsHex s → rstrip s ≡ s
unfolding rstrip all_chars
rstrip_hex String.[] h = refl
rstrip_hex (String.◌∷◌ c s) h =
    ap (cons_trimmed c) (rstrip_hex s (ground arith)) ∙ cons_trimmed_hex c s (ground arith)

lstrip_hex : (s : String) → IsHex s → lstrip s ≡ s
unfolding lstrip all_chars is_hex is_space
lstrip_hex String.[] h = ground arith
lstrip_hex (String.◌∷◌ c s) h = ground arith

strip_hex : (s : String) → IsHex s → strip s ≡ s
unfolding strip
strip_hex s h = rw (lstrip_hex s h) (rstrip_hex s h)

split_lines_hex : (s : String) → IsHex s → split_lines s ≡ s ∷ []
unfolding split_lines onto_first all_chars is_hex is_line_break
split_lines_hex String.[] h = ground arith
split_lines_hex (String.◌∷◌ c s) h = ground (arith, split_lines_hex s)

pub nonces-split_lines_hex :
    (s : String) → IsHex s → is_empty s ≡ false → nonces (split_lines s) ≡ s ∷ []
unfolding nonces
nonces-split_lines_hex s h full = rw (split_lines_hex s h) (ground (arith, strip_hex s h))

elem-nonces-split_lines :
    (x : String) → IsHex x → is_empty x ≡ false → elem x (nonces (split_lines x)) ≡ true
unfolding elem
elem-nonces-split_lines x hex full = ground (arith, nonces-split_lines_hex x hex full, =?_refl x)

pub elem-nonces_append :
    (x : String) (ls ms : List String)
    → elem x (nonces (ls ++ ms)) ≡ (elem x (nonces ls) || elem x (nonces ms))
unfolding nonces elem
elem-nonces_append x [] ms = ground arith
elem-nonces_append x (l ∷ ls) ms = ground (arith, elem-nonces_append x ls ms)

-- The nonce stands in the store's file.
pub record IsUsed (x : String) (s : Store) : Type 0 where
  pub exists : s.file.exists ≡ true
  pub listed : elem x (nonces s.file.lines) ≡ true

-- One call on the store: with what the operating system answers, to use a nonce up or to look it up.
pub record Call : Type 0 where
  pub io : StoreIo
  pub consume : Bool
  pub nonce : String

unfoldable pub after_call : Call → Store → Store
after_call c s =
    if c.consume then (consume_nonce c.io c.nonce s).1 else (is_consumed c.io c.nonce s).1

unfoldable pub after_calls : List Call → Store → Store
after_calls [] s = s
after_calls (c ∷ cs) s = after_calls cs (after_call c s)

module _ (x : String) where
  consume_nonce-keeps :
      (io : StoreIo) (y : String) (s : Store) → IsUsed x s → IsUsed x (consume_nonce io y s).1
  unfolding consume_nonce append_nonce with_nonce
  consume_nonce-keeps io y s used = record {
    exists = ground arith;
    listed = ground (arith, elem-nonces_append x s.file.lines (split_lines (s.file.rest <> y)));
  }

  is_consumed-keeps :
      (io : StoreIo) (y : String) (s : Store) → IsUsed x s → IsUsed x (is_consumed io y s).1
  unfolding is_consumed
  is_consumed-keeps io y s used = record { exists = ground arith; listed = ground arith }

  pub after_calls-keeps : (cs : List Call) (s : Store) → IsUsed x s → IsUsed x (after_calls cs s)
  unfolding after_calls after_call
  after_calls-keeps [] s used = used
  after_calls-keeps (c ∷ cs) s used =
      after_calls-keeps cs _
        (elim c.consume
          as (λ b.
            IsUsed x
              (if b then (consume_nonce c.io c.nonce s).1 else (is_consumed c.io c.nonce s).1)) [
                | true ↦ consume_nonce-keeps c.io c.nonce s used
                | false ↦ is_consumed-keeps c.io c.nonce s used
              ])

  -- What is read of the store holds the nonce.
  read_consumed-listed :
      (io : StoreIo) (s : Store)
      → IsUsed x s
      → (current : List String) → read_consumed io s.file ≡ ok current
      → elem x current ≡ true
  unfolding read_consumed load_consumed validate_used_store
  read_consumed-listed io s used current h =
      ground (arith, elem-nonces_append x s.file.lines (split_lines s.file.rest))

  pub consume_nonce-refuses :
      (io : StoreIo) (s : Store) → IsUsed x s → (consume_nonce io x s).0 ≢ ok tt
  unfolding consume_nonce
  consume_nonce-refuses io s used h = elim (Result-cases (read_consumed io s.file)) [
    | inl (e, r) ↦ ground arith
    | inr (current, r) ↦ ground (arith, read_consumed-listed io s used current r)
  ]

  pub is_consumed-refuses :
      (io : StoreIo) (s : Store) → IsUsed x s → (is_consumed io x s).0 ≢ ok false
  unfolding is_consumed
  is_consumed-refuses io s used h = elim (Result-cases (read_consumed io s.file)) [
    | inl (e, r) ↦ ground arith
    | inr (current, r) ↦ ground (arith, read_consumed-listed io s used current r)
  ]

  pub consume_nonce-IsUsed :
      (io : StoreIo) (s : Store)
      → IsHex x
      → is_empty x ≡ false
      → io.writes ≡ written_whole
      → s.file.rest ≡ ""
      → (consume_nonce io x s).0 ≡ ok tt
      → IsUsed x (consume_nonce io x s).1
  unfolding consume_nonce append_nonce with_nonce
  consume_nonce-IsUsed io s hex full whole ended h = record {
    exists = ground arith;
    listed = ground (
      arith,
      elem-nonces_append x (if s.file.exists then s.file.lines else [])
          (split_lines ((if s.file.exists then s.file.rest else "") <> x)),
      elem-nonces-split_lines x hex full,
      append.nil x,
    );
  }

  -- Once a call of `_consume_nonce` with a nonce of hex digits has returned, its write whole and the
  -- store ending in a newline before, then after any sequence
  -- of further calls on the store, of this nonce or others, `_consume_nonce` does not return for it
  -- again, and `_is_consumed` does not answer False.
  pub consume_nonce-once :
      (io again : StoreIo) (s : Store) (cs : List Call)
      → IsHex x
      → is_empty x ≡ false
      → io.writes ≡ written_whole
      → s.file.rest ≡ ""
      → (consume_nonce io x s).0 ≡ ok tt
      → ((consume_nonce again x (after_calls cs (consume_nonce io x s).1)).0 ≢ ok tt)
        × ((is_consumed again x (after_calls cs (consume_nonce io x s).1)).0 ≢ ok false)
  consume_nonce-once io again s cs hex full whole ended h =
      let used = after_calls-keeps cs _ (consume_nonce-IsUsed io s hex full whole ended h) in
      (consume_nonce-refuses again _ used, is_consumed-refuses again _ used)
