-- ===== src/Approval/OneUse.antt =====
-- `ApprovalManager.validate` of src/gpthands/approval.py as a whole: who gets through, and how often.
use mathlib.Core.Path.{subst}
use gpthands.Prelude.{
  String, Bool, true, false, List, ◌≡◌, ◌≢◌, arith, is_empty, ok, err, Result-cases, inl, inr, refl,
  ◌∙◌, sym, ap,
}
use gpthands.Prelude.Errors.{Result}
use gpthands.Json.{Fields, get}
use gpthands.Audit.Defs.{Runtime}
use gpthands.Approval.Defs.{Store, StoreIo}
use gpthands.Audit.Defs.{written_whole}
use gpthands.Approval.Tokens.{
  Crypto, Demand, text_of, spend, unless_used, returning, inspect, validate,
}
use gpthands.Approval.Acceptance.{IsGranted, inspect-IsGranted, IsGranted-fields}
use gpthands.Approval.Replay.{
  IsHex, IsUsed, Call, after_calls, after_calls-keeps, consume_nonce-IsUsed, consume_nonce-refuses,
  is_consumed-refuses,
}

returning-ok :
    (payload fields : Fields) (r : Result (Unit {0}) × Store)
    → (returning payload r).0 ≡ ok fields
    → (payload ≡ fields) × (r.0 ≡ ok tt) × ((returning payload r).1 ≡ r.1)
unfolding returning
returning-ok payload fields (err e, s) h = ground arith
returning-ok payload fields (ok tt, s) h = ground arith

unless_used-ok : (r : Result Bool × Store) → (unless_used r).0 ≡ ok tt → r.0 ≡ ok false
unfolding unless_used
unless_used-ok (err e, s) h = ground arith
unless_used-ok (ok true, s) h = ground arith
unless_used-ok (ok false, s) h = refl

spend-refuses :
    (x : String) (io : StoreIo) (consume : Bool) (s : Store)
    → IsUsed x s
    → (spend io consume x s).0 ≢ ok tt
unfolding spend
spend-refuses x io true s used h = consume_nonce-refuses x io s used h
spend-refuses x io false s used h = is_consumed-refuses x io s used (unless_used-ok _ h)

spend-IsUsed :
    (x : String) (io : StoreIo) (consume : Bool) (s : Store)
    → consume ≡ true
    → IsHex x
    → is_empty x ≡ false
    → io.writes ≡ written_whole
    → s.file.rest ≡ ""
    → (spend io consume x s).0 ≡ ok tt
    → IsUsed x (spend io consume x s).1
unfolding spend
spend-IsUsed x io true s c hex full whole ended h =
    consume_nonce-IsUsed x io s hex full whole ended h
spend-IsUsed x io false s c hex full whole ended h = ground arith

module _ (crypto : Crypto) (rt : Runtime) (key : String) (token : String) where
  abbrev nonce_of : Fields → String
  nonce_of fields = text_of rt (get "nonce" fields)

  pub validate-inspect :
      (io : StoreIo) (d : Demand) (s : Store) (fields : Fields) (nonce : String)
      → inspect crypto rt key d token ≡ ok (fields, nonce)
      → validate crypto rt key io d token s ≡ returning fields (spend io d.consume nonce s)
  unfolding validate
  validate-inspect io d s fields nonce i = ground arith

  -- What a call of `validate` that returns has done.
  Spent : StoreIo → Demand → Store → Fields → Type 0
  Spent io d s fields =
      IsGranted crypto rt key d token fields
      × ((spend io d.consume (nonce_of fields) s).0 ≡ ok tt)
      × ((validate crypto rt key io d token s).1 ≡ (spend io d.consume (nonce_of fields) s).1)

  found-Spent :
      (io : StoreIo) (d : Demand) (s : Store) (fields : Fields) (nonce : String)
      → inspect crypto rt key d token ≡ ok (fields, nonce)
      → (validate crypto rt key io d token s).0 ≡ ok fields
      → Spent io d s fields
  unfolding Spent
  found-Spent io d s fields nonce i h =
      let (granted, n) = inspect-IsGranted crypto rt key d token fields nonce i in
      let e =
        validate-inspect io d s fields nonce i
        ∙ ap (λ x. returning fields (spend io d.consume x s)) n in
      let (_, spent, state) = returning-ok fields fields _ (sym (ap (λ r. r.0) e) ∙ h) in
      (granted, spent, ap (λ r. r.1) e ∙ state)

  validate-Spent :
      (io : StoreIo) (d : Demand) (s : Store) (fields : Fields)
      → (validate crypto rt key io d token s).0 ≡ ok fields
      → Spent io d s fields
  validate-Spent io d s fields h = elim (Result-cases (inspect crypto rt key d token)) [
    | inl (e, i) ↦ absurd (unfold validate in (ground arith))
    | inr ((found, nonce), i) ↦
        let same =
          (returning-ok found fields _
            (sym (ap (λ r. r.0) (validate-inspect io d s found nonce i)) ∙ h)).0 in
        found-Spent io d s fields nonce (i ∙ ap (λ x. ok (x, nonce)) same) h
  ]

  -- Where `validate` returns, whatever the time, the workspace, the store and the flags, the token
  -- carries the key's code, and its payload, which is what is returned, has version 1, this
  -- workspace, an expiry that has not passed, a level that covers the one asked for, the action
  -- where one is asked for, and a nonce.
  pub validate-IsGranted :
      (io : StoreIo) (d : Demand) (s : Store) (fields : Fields)
      → (validate crypto rt key io d token s).0 ≡ ok fields
      → IsGranted crypto rt key d token fields
  unfolding Spent
  validate-IsGranted io d s fields h = (validate-Spent io d s fields h).0

  -- Once `validate` has returned for a token with `consume` set, then after any sequence of calls on
  -- the store it returns for that token no more, at whatever time, for whatever workspace, level
  -- and action, with `consume` or without. The nonce is one of hex digits, as `issue` makes it,
  -- and the write of its line was not cut short, in a store that ended in a newline.
  pub validate-once :
      (io : StoreIo) (d : Demand) (s : Store) (fields : Fields)
      → d.consume ≡ true
      → IsHex (nonce_of fields)
      → io.writes ≡ written_whole
      → s.file.rest ≡ ""
      → (validate crypto rt key io d token s).0 ≡ ok fields
      → (cs : List Call) (again : StoreIo) (later : Demand) (other : Fields)
      → (validate crypto rt key again later token
          (after_calls cs (validate crypto rt key io d token s).1)).0
        ≢ ok other
  unfolding Spent
  validate-once io d s fields consuming hex whole ended h cs again later other g =
      let (granted, spent, state) = validate-Spent io d s fields h in
      let (regranted, respent, _) = validate-Spent again later _ other g in
      let same = IsGranted-fields crypto rt key later d token other fields regranted granted in
      let used =
        spend-IsUsed (nonce_of fields) io d.consume s consuming hex granted.has_nonce whole ended
          spent in
      let kept =
        after_calls-keeps (nonce_of fields) cs _
          (subst (IsUsed (nonce_of fields)) (sym state) used) in
      spend-refuses (nonce_of fields) again later.consume _ kept (
        subst
          (λ x.
            (spend again later.consume (nonce_of x)
              (after_calls cs (validate crypto rt key io d token s).1)).0
            ≡ ok tt)
          same respent)
