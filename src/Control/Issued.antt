-- ===== src/Control/Issued.antt =====
-- The tokens that the control page of src/gpthands/control_ui.py gives out.
use mathlib.Core.Path.{subst}
use gpthands.Prelude.{
  ℕ, ◌≤◌, String, true, some, List, [], ◌∷◌, ◌≡◌, inl, inr, sym, ap, ◌∙◌, arith, ◌=?◌, strip, ok,
  err, All, Bool-cases, Result-cases,
}
use gpthands.Prelude.Errors.{Result, Error, error}
use gpthands.State.{StateFile}
use gpthands.Json.{ℤ, Fields, get, equals_text}
use gpthands.Risk.{RiskLevel, parse}
use gpthands.Approval.Tokens.{issue, text_of}
use gpthands.Pending.Defs as Pending
use gpthands.Pending.Queue.{IsCurrent, list_for_workspace-IsCurrent}
use gpthands.SafeWrite.Complete.{if-intro}
use gpthands.Control.Defs.{
  Site, Control, Post, Setting, Response, token_page, Form, form_get, valid_action_hash, matching,
  only, require_loopback_host, read_form, require_csrf, place_of, ttl_of, issue_token, issue_form,
  finish_issue, approve, issue_pending, approve_pending, redirected, at_site, act, authorize,
  is_refusal, shown, act_on, do_post,
}

module _ (s : Setting) where
  -- The level that a token was made for: the one the form names, or the one of an action that waits for
  -- this workspace's approval now.
  pub data IsAsked (form : Form) (c : Control) (path action_hash : String) (risk : RiskLevel)
      : Type 0 where
    by_hand :
        (path =? "/approve") ≡ true
        → parse (form_get form "risk" "") ≡ ok risk
        → IsAsked form c path action_hash risk
    pending :
        (row : ℤ × Fields)
        → (path =? "/approve-pending") ≡ true
        → IsCurrent s.runtime 3600 s.now (place_of s c.site) row
        → equals_text (get "action_hash" row.1) action_hash ≡ true
        → parse (text_of s.runtime (get "risk" row.1)) ≡ ok risk
        → IsAsked form c path action_hash risk

  -- The request came to a loopback host with the page's token, and the token issued is one of this
  -- workspace, this action, a level that was asked for, and at most an hour.
  pub record IsIssued (r : Post) (c : Control) (token action_hash : String) : Type 0 where
    pub local : require_loopback_host s r ≡ ok tt
    pub form : Form
    pub read : read_form s r ≡ ok form
    pub authorized : (form_get form "csrf" "" =? s.csrf_token) ≡ true
    pub hash_given : action_hash ≡ strip (form_get form "action_hash" "")
    pub hash_valid : valid_action_hash action_hash ≡ true
    pub risk : RiskLevel
    pub asked : IsAsked form c r.path action_hash risk
    pub ttl : ℕ
    pub short_lived : (1 ≤ ttl) × (ttl ≤ 3600)
    pub made :
        issue s.crypto s.runtime s.key s.now s.nonce c.site.root risk ttl (some action_hash)
        ≡ ok token

  -- What `issue_form` returns for a word that names the level.
  record IsMade (form : Form) (site : Site) (word action_hash token : String) : Type 0 where
    risk : RiskLevel
    named : parse word ≡ ok risk
    hash_valid : valid_action_hash action_hash ≡ true
    ttl : ℕ
    short_lived : (1 ≤ ttl) × (ttl ≤ 3600)
    made :
        issue s.crypto s.runtime s.key s.now s.nonce site.root risk ttl (some action_hash)
        ≡ ok token

  issue-bounds :
      (site : Site) (risk : RiskLevel) (ttl : ℕ) (action_hash token : String)
      → issue s.crypto s.runtime s.key s.now s.nonce site.root risk ttl (some action_hash)
        ≡ ok token
      → (1 ≤ ttl) × (ttl ≤ 3600)
  unfolding issue
  issue-bounds site risk ttl action_hash token h = ground arith

  issue_token-valid :
      (site : Site) (risk : RiskLevel) (ttl : ℕ) (action_hash token : String)
      → issue_token s site risk action_hash ttl ≡ ok token
      → (valid_action_hash action_hash ≡ true)
        × (issue s.crypto s.runtime s.key s.now s.nonce site.root risk ttl (some action_hash)
            ≡ ok token)
  unfolding issue_token
  issue_token-valid site risk ttl action_hash token h = ground arith

  issue_form-IsMade :
      (form : Form) (site : Site) (word action_hash token : String)
      → issue_form s form site word action_hash ≡ ok token
      → IsMade form site word action_hash token
  unfolding issue_form
  issue_form-IsMade form site word action_hash token h = elim (Result-cases (parse word)) [
    | inl (x, f) ↦ absurd (ground arith)
    | inr (risk, f) ↦
        elim (Result-cases (ttl_of s (s.runtime.parse_int (form_get form "seconds" "300")))) [
          | inl (x, g) ↦ absurd (ground arith)
          | inr (ttl, g) ↦
              let (valid, made) =
                issue_token-valid site risk ttl action_hash token (ground arith) in
              record {
                risk = risk;
                named = f;
                hash_valid = valid;
                ttl = ttl;
                short_lived = issue-bounds site risk ttl action_hash token made;
                made = made;
              }
        ]
  ]

  finish_issue-page :
      (action_hash shown_hash token : String) (issued : Result String) (c : Control)
      → (finish_issue s action_hash issued c).0 ≡ ok (token_page token shown_hash)
      → (issued ≡ ok token) × (shown_hash ≡ action_hash)
  unfolding finish_issue
  finish_issue-page action_hash shown_hash token (err e) c h = absurd (ground arith)
  finish_issue-page action_hash shown_hash token (ok t) c h = ground arith

  abbrev Waiting : Control → String → Fields → Type 0
  Waiting c action_hash row =
      (created : ℤ) × IsCurrent s.runtime 3600 s.now (place_of s c.site) (created, row)
      × (equals_text (get "action_hash" row) action_hash ≡ true)

  All-matching :
      (c : Control) (action_hash : String) (rows : List (ℤ × Fields))
      → All (IsCurrent s.runtime 3600 s.now (place_of s c.site)) rows
      → All (Waiting c action_hash) (matching action_hash rows)
  unfolding matching
  All-matching c action_hash [] all = tt
  All-matching c action_hash ((created, row) ∷ rows) (current, all) =
      elim (Bool-cases (equals_text (get "action_hash" row) action_hash)) [
        | inl same ↦ rw same ((created, current, same), All-matching c action_hash rows all)
        | inr other ↦ rw other (All-matching c action_hash rows all)
      ]

  only-Waiting :
      (c : Control) (action_hash : String) (rows : List Fields) (row : Fields)
      → All (Waiting c action_hash) rows
      → only rows ≡ ok row
      → Waiting c action_hash row
  unfolding only
  only-Waiting c action_hash [] row all h = absurd (ground arith)
  only-Waiting c action_hash (first ∷ []) row (waits, all) h =
      let same : first ≡ row = ground arith in subst (Waiting c action_hash) same waits
  only-Waiting c action_hash (first ∷ second ∷ rows) row all h = absurd (ground arith)

  -- A token of either page: what it was made of, and why.
  record IsGiven (form : Form) (c : Control) (path token action_hash : String) : Type 0 where
    hash_given : action_hash ≡ strip (form_get form "action_hash" "")
    word : String
    given : IsMade form c.site word action_hash token
    asked : IsAsked form c path action_hash given.risk

  approve-IsGiven :
      (form : Form) (c : Control) (path token action_hash : String)
      → (path =? "/approve") ≡ true
      → (approve s form c).0 ≡ ok (token_page token action_hash)
      → IsGiven form c path token action_hash
  unfolding approve
  approve-IsGiven form c path token action_hash here h =
      let (issued, same) =
        finish_issue-page (strip (form_get form "action_hash" "")) action_hash token _ c h in
      let given : IsMade form c.site (form_get form "risk" "") action_hash token =
        subst (λ k. IsMade form c.site (form_get form "risk" "") k token) (sym same)
          (issue_form-IsMade form c.site _ _ token issued) in
      record {
        hash_given = same;
        word = form_get form "risk" "";
        given = given;
        asked = by_hand here given.named;
      }

  issue_pending-IsGiven :
      (form : Form) (c : Control) (path token action_hash : String)
      → (path =? "/approve-pending") ≡ true
      → (rows : List (ℤ × Fields)) → All (IsCurrent s.runtime 3600 s.now (place_of s c.site)) rows
      → action_hash ≡ strip (form_get form "action_hash" "")
      → issue_pending s form c.site action_hash (ok rows) ≡ ok token
      → IsGiven form c path token action_hash
  unfolding issue_pending
  issue_pending-IsGiven form c path token action_hash here rows current same h =
      elim (Result-cases (only (matching action_hash rows))) [
        | inl (x, f) ↦ absurd (ground arith)
        | inr (row, f) ↦
            let (created, waits, hashed) =
              only-Waiting c action_hash (matching action_hash rows) row
                (All-matching c action_hash rows current) f in
            let given =
              issue_form-IsMade form c.site (text_of s.runtime (get "risk" row)) action_hash token
                (ground arith) in
            record {
              hash_given = same;
              word = text_of s.runtime (get "risk" row);
              given = given;
              asked = pending (created, row) here waits hashed given.named;
            }
      ]

  listed : Control → Result (List (ℤ × Fields)) × StateFile
  listed c =
      Pending.list_for_workspace s.runtime s.queue_locked s.queue_writes (place_of s c.site) 3600
        s.now c.queue

  issue_pending-refused :
      (form : Form) (site : Site) (action_hash token : String) (e : Error)
      → issue_pending s form site action_hash (err e) ≡ ok token
      → ⊥
  unfolding issue_pending
  issue_pending-refused form site action_hash token e h = ground arith

  approve_pending-IsGiven :
      (form : Form) (c : Control) (path token action_hash : String)
      → (path =? "/approve-pending") ≡ true
      → (approve_pending s form c).0 ≡ ok (token_page token action_hash)
      → IsGiven form c path token action_hash
  unfolding approve_pending listed
  approve_pending-IsGiven form c path token action_hash here h =
      let (issued, same) =
        finish_issue-page (strip (form_get form "action_hash" "")) action_hash token
          (issue_pending s form c.site (strip (form_get form "action_hash" "")) (listed c).0)
          (record c { queue = (listed c).1 }) h in
      elim (Result-cases (listed c).0) [
        | inl (e, fails) ↦ absurd (
            issue_pending-refused form c.site _ token e
              (sym (ap (issue_pending s form c.site _) fails) ∙ issued))
        | inr (rows, lists) ↦
            issue_pending-IsGiven form c path token action_hash here rows
              (list_for_workspace-IsCurrent s.runtime 3600 s.now (place_of s c.site) s.queue_locked
                s.queue_writes c.queue rows lists).0
              same
              (ap (λ k. issue_pending s form c.site k (ok rows)) same
                ∙ sym (ap (issue_pending s form c.site _) lists)
                ∙ issued)
      ]

  redirected-page :
      {A : Type 0} (x : Result A) (token action_hash : String)
      → redirected s x ≡ ok (token_page token action_hash)
      → ⊥
  unfolding redirected
  redirected-page (err e) token action_hash h = ground arith
  redirected-page (ok done) token action_hash h = ground arith

  at_site-page :
      (x : Result Site) (c : Control) (token action_hash : String)
      → (at_site s x c).0 ≡ ok (token_page token action_hash)
      → ⊥
  unfolding at_site
  at_site-page (err e) c token action_hash h = ground arith
  at_site-page (ok site) c token action_hash h = ground arith

  Pages : Form → Control → String → String → String → Result Response × Control → Type 0
  Pages form c path token action_hash x =
      x.0 ≡ ok (token_page token action_hash) → IsGiven form c path token action_hash

  act-Pages :
      (form : Form) (c : Control) (path token action_hash : String)
      → Pages form c path token action_hash (act s path form c)
  unfolding act Pages
  act-Pages form c path token action_hash =
      let P = Pages form c path token action_hash in
      if-intro P (path =? "/trust") _ _ (λ e h. absurd (redirected-page _ token action_hash h))
        (λ e.
          if-intro P (path =? "/untrust") _ _
            (λ f h. absurd (redirected-page _ token action_hash h))
            (λ f.
              if-intro P (path =? "/switch") _ _
                (λ g h. absurd (at_site-page _ c token action_hash h))
                (λ g.
                  if-intro P (path =? "/approve-pending") _ _
                    (λ k h. approve_pending-IsGiven form c path token action_hash k h)
                    (λ k.
                      if-intro P (path =? "/approve") _ _
                        (λ l h. approve-IsGiven form c path token action_hash l h)
                        (λ l h. absurd (ground (arith, h)))))))

  shown-page :
      (x : Result Response × Control) (token action_hash : String)
      → (shown x).0 ≡ ok (token_page token action_hash)
      → x.0 ≡ ok (token_page token action_hash)
  unfolding shown
  shown-page (err (error kind message), c) token action_hash h =
      elim (Bool-cases (is_refusal kind)) [
        | inl caught ↦ absurd (ground arith)
        | inr passed ↦ absurd (ground arith)
      ]
  shown-page (ok response, c) token action_hash h = h

  -- Whenever a POST request is answered with a token, it came to a loopback host with the page's secret
  -- token in its form; and the approval token is one that `issue` made for this workspace, for at
  -- most an hour, bound to the 64-digit hash in the form, at the level that the form names or, where
  -- a waiting action is approved, at the level of a row of that hash that waits for this workspace.
  pub do_post-IsIssued :
      (r : Post) (c : Control) (token action_hash : String)
      → (do_post s r c).0 ≡ ok (token_page token action_hash)
      → IsIssued r c token action_hash
  unfolding do_post act_on authorize require_csrf Pages
  do_post-IsIssued r c token action_hash h =
      let page = shown-page _ token action_hash h in
      elim (Result-cases (require_loopback_host s r)) [
        | inl (x, f) ↦ absurd (ground arith)
        | inr (local, f) ↦ elim (Result-cases (read_form s r)) [
          | inl (x, g) ↦ absurd (ground arith)
          | inr (form, g) ↦ elim (Bool-cases (form_get form "csrf" "" =? s.csrf_token)) [
            | inl secret ↦
                let given = act-Pages form c r.path token action_hash (ground arith) in
                record {
                  local = f;
                  form = form;
                  read = g;
                  authorized = secret;
                  hash_given = given.hash_given;
                  hash_valid = given.given.hash_valid;
                  risk = given.given.risk;
                  asked = given.asked;
                  ttl = given.given.ttl;
                  short_lived = given.given.short_lived;
                  made = given.given.made;
                }
            | inr wrong ↦ absurd (ground arith)
          ]
        ]
      ]
