-- ===== src/Audit/Chain.antt =====
-- The loop of `_verify_stream`, one line and one run at a time: what a scan that has not failed knows
-- of the last line that is not blank.
use mathlib.Core.List.{append-nil, map-append}
use mathlib.Core.Path.{fun_ext, subst}
use Prim.Native.String.append
use gpthands.Prelude.{
  ap, sym, ◌∙◌, ℕ, ◌+◌, ◌≤◌, String, true, false, Option, none, some, List, [], ◌∷◌, ◌++◌, ◌≡◌,
  refl, arith, if◌then◌else◌, Bool-cases, Option-cases, inl, inr, is_empty,
}
use gpthands.Json.{ℤ, pos, negsuc, Json, Fields, get, int_is}
use gpthands.Audit.Defs.{
  Runtime, RawLine, LogFile, raw_lines, finished, append_line, is_blank, audit_meta, to_int, to_str,
  event_hash, Scan, Step, next, stop, on_next, start, start_chain, check_link, check_event, step,
  run,
}

int_is-eq : (z : ℤ) (k : ℕ) → int_is z k ≡ true → z ≡ pos k
int_is-eq (pos n) k h = ground arith
int_is-eq (negsuc n) k h = cc

pub raw_lines-append_line :
    (f : LogFile) (line : String)
    → f.rest ≡ ""
    → raw_lines (append_line f line) ≡ raw_lines f ++ finished line ∷ []
unfolding raw_lines append_line is_empty
raw_lines-append_line f line h = simp (h, map-append, append-nil, append.nil)

next-injective : {s t : Scan} → next s ≡ next t → s ≡ t
next-injective h = cc

pub on_next-eq-next :
    (st : Step) (k : Scan → Step) {t : Scan}
    → on_next st k ≡ next t
    → (u : Scan) × (st ≡ next u) × (k u ≡ next t)
on_next-eq-next (next u) k h = (u, refl, h)
on_next-eq-next (stop v) k h = cc

-- The last body that is not blank, after one more line.
abbrev pub after_line : Option String → RawLine → Option String
after_line o l = if is_blank l then o else some l.body

-- The last body that is not blank, after lines.
unfoldable pub last_body : Option String → List RawLine → Option String
last_body o [] = o
last_body o (l ∷ ls) = last_body (after_line o l) ls

module _ (rt : Runtime) where
  on_next_assoc :
      (st : Step) (j k : Scan → Step) → on_next (on_next st j) k ≡ on_next st (λ t. on_next (j t) k)
  on_next_assoc (next t) j k = refl
  on_next_assoc (stop v) j k = refl

  pub run-append :
      (s : Scan) (xs ys : List RawLine)
      → run rt s (xs ++ ys) ≡ on_next (run rt s xs) (λ t. run rt t ys)
  unfolding run
  run-append s [] ys = refl
  run-append s (x ∷ xs) ys =
      ap (on_next (step rt s x)) (fun_ext (λ t. run-append t xs ys))
      ∙ sym (on_next_assoc (step rt s x) (λ t. run rt t xs) (λ t. run rt t ys))

  -- What a successful link check has found.
  pub record IsLink (s : Scan) (event : Json) (audit : Fields) (t : Scan) : Type 0 where
    pub seq_eq : to_int rt (get "seq" audit) ≡ some (pos s.expected_seq)
    pub prev_eq : to_str rt (get "prev_hash" audit) ≡ s.previous
    pub hash_eq : to_str rt (get "hash" audit) ≡ event_hash rt event s.previous
    pub state_eq : t ≡ record s {
      previous = to_str rt (get "hash" audit);
      expected_seq = s.expected_seq + 1;
      chained = s.chained + 1;
    }

  pub check_link-IsLink :
      (s : Scan) (event : Json) (audit : Fields) (t : Scan)
      → check_link rt s event audit ≡ next t
      → IsLink s event audit t
  unfolding check_link
  check_link-IsLink s event audit t h = elim (Option-cases (to_int rt (get "seq" audit))) [
    | inl e ↦ absurd (ground arith)
    | inr (z, e) ↦ ground (arith, int_is-eq z s.expected_seq)
  ]

  -- What is known of the last line that is not blank, after the lines that led to `s`.
  pub data Tail (s : Scan) (o : Option String) : Type 0 where
    untouched : o ≡ none → s ≡ start → Tail s o
    unchained :
        (b : String) (event : Json)
        → o ≡ some b
        → rt.loads b ≡ some event
        → audit_meta event ≡ none
        → s.chain_started ≡ false
        → s.chained ≡ 0
        → s.expected_seq ≡ 1
        → 1 ≤ s.legacy
        → Tail s o
    chained :
        (b : String) (event : Json) (audit : Fields)
        → o ≡ some b
        → rt.loads b ≡ some event
        → audit_meta event ≡ some audit
        → to_int rt (get "seq" audit) ≡ some (pos s.chained)
        → to_str rt (get "hash" audit) ≡ s.previous
        → s.previous ≡ event_hash rt event (to_str rt (get "prev_hash" audit))
        → s.chain_started ≡ true
        → s.expected_seq ≡ s.chained + 1
        → 1 ≤ s.chained
        → Tail s o

  Tail-counted : {s : Scan} {o : Option String} → Tail s o → s.expected_seq ≡ s.chained + 1
  Tail-counted (untouched e h) = rw h (omega arith)
  Tail-counted (unchained b event e l m c d x g) = omega arith
  Tail-counted (chained b event audit e l m q h p c x g) = x

  Tail-check_link :
      (s t : Scan) (o : Option String) (b : String) (event : Json) (audit : Fields)
      → s.chain_started ≡ true
      → s.expected_seq ≡ s.chained + 1
      → rt.loads b ≡ some event
      → audit_meta event ≡ some audit
      → check_link rt s event audit ≡ next t
      → o ≡ some b
      → Tail t o
  Tail-check_link s t o b event audit c x l m h e =
      let k = check_link-IsLink s event audit t h in
      chained b event audit e l m (ground (arith, k.seq_eq, k.state_eq))
        (ground (arith, k.state_eq)) (ground (arith, k.prev_eq, k.hash_eq, k.state_eq))
        (ground (arith, k.state_eq)) (ground (arith, k.state_eq)) (ground (arith, k.state_eq))

  started : (s : Scan) → (start_chain rt s).chain_started ≡ true
  unfolding start_chain
  started s = ground arith

  counted :
      (s : Scan)
      → s.expected_seq ≡ s.chained + 1
      → (start_chain rt s).expected_seq ≡ (start_chain rt s).chained + 1
  unfolding start_chain
  counted s h = ground arith

  -- A line that is no chained record leaves the scan unchained.
  Tail-legacy :
      (s t : Scan) (o o' : Option String) (l : RawLine) (event : Json)
      → Tail s o
      → rt.loads l.body ≡ some event
      → audit_meta event ≡ none
      → check_event rt s l event ≡ next t
      → o' ≡ some l.body
      → Tail t o'
  unfolding check_event
  Tail-legacy s t o o' l event (untouched e h) r m k p =
      unchained l.body event p r m (ground arith) (ground arith) (ground arith) (ground arith)
  Tail-legacy s t o o' l event (unchained b ev e d n c a x g) r m k p =
      unchained l.body event p r m (ground arith) (ground arith) (ground arith) (ground arith)
  Tail-legacy s t o o' l event (chained b ev audit e d n q h y c x g) r m k p =
      absurd (ground arith)

  Tail-event :
      (s t : Scan) (o o' : Option String) (l : RawLine) (event : Json)
      → Tail s o
      → rt.loads l.body ≡ some event
      → check_event rt s l event ≡ next t
      → o' ≡ some l.body
      → Tail t o'
  Tail-event s t o o' l event h r k p = elim (Option-cases (audit_meta event)) [
    | inl m ↦ Tail-legacy s t o o' l event h r m k p
    | inr (audit, m) ↦
        Tail-check_link (start_chain rt s) t o' l.body event audit (started s)
          (counted s (Tail-counted h)) r m (unfold check_event in (ground arith)) p
  ]

  pub Tail-step :
      (s t : Scan) (o : Option String) (l : RawLine)
      → Tail s o
      → step rt s l ≡ next t
      → Tail t (after_line o l)
  unfolding step
  Tail-step s t o l h k = elim (Bool-cases (is_blank l)) [
    | inl blank ↦ rw blank (subst (λ x. Tail x o) (next-injective (ground arith)) h)
    | inr more ↦ elim (Option-cases (rt.loads l.body)) [
      | inl e ↦ absurd (ground arith)
      | inr (event, e) ↦ Tail-event s t o (after_line o l) l event h e (ground arith) (ground arith)
    ]
  ]

  pub Tail-run :
      (s t : Scan) (o : Option String) (ls : List RawLine)
      → Tail s o
      → run rt s ls ≡ next t
      → Tail t (last_body o ls)
  unfolding run last_body
  Tail-run s t o [] h k = subst (λ x. Tail x o) (next-injective k) h
  Tail-run s t o (l ∷ ls) h k =
      let (u, e, r) = on_next-eq-next (step rt s l) (λ x. run rt x ls) k in
      Tail-run u t (after_line o l) ls (Tail-step s u o l h e) r
