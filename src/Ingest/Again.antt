-- ===== src/Ingest/Again.antt =====
-- A replay of src/app/workers/injector.py that is taken up again after it stopped.
use sentraxis.Prelude.{
  ℕ, zero, suc, ◌+◌, ◌≡◌, ◌≢◌, refl, subst, sym, ◌∙◌, ap, inl, inr, Bool, true, false, Option, none,
  some, List, [], ◌∷◌, ◌++◌, Text, leb, length, arith, Bool-cases, Option-cases, if◌then◌else◌,
  ◌&&◌, All,
}
use mathlib.Core.List.{append_assoc, append-nil, tail-eq_of_cons-eq, nil≢cons}
use sentraxis.Ingest.Injector.{
  Message, Redis, Sending, stopped, from_line, flush, flush_full, push, limit_reached, no_limit,
  finish, conclude, send_lines, run_lines,
}
use sentraxis.Ingest.Resume.{cons_message, numbered, redis_of, Ends, flush-Progress}
use sentraxis.Ingest.Once.{messages_from, start_of, loop-Ends, run_lines-Replayed}

from_line_nil : (n : ℕ) → ◌≡◌ {A = List Text} (from_line n []) []
unfolding from_line
from_line_nil zero = refl
from_line_nil (suc n) = refl

from_line_add :
    (a k : ℕ) (xs : List Text) {n : ℕ} → n ≡ a + k → from_line n xs ≡ from_line k (from_line a xs)
unfolding from_line
from_line_add zero k xs e = ap (λ n. from_line n xs) (omega (arith, e))
from_line_add (suc a) k [] {n = n} e = from_line_nil n ∙ sym (from_line_nil k)
from_line_add (suc a) k (x ∷ xs) {n = zero} e = absurd (omega (arith, e))
from_line_add (suc a) k (x ∷ xs) {n = suc n} e = from_line_add a k xs (omega (arith, e))

module _ (parse_line : Text → Option Text) where
  no_end :
      (limit : Option ℕ) (start : ℕ) (lines : List Text) (seq : ℕ) (st : Sending)
      → All (λ line. parse_line line ≢ none) lines
      → (end : Sending) × (send_lines parse_line start limit lines seq st ≡ stopped end)
  unfolding send_lines
  no_end limit start [] seq st valid = (st, refl)
  no_end limit start (line ∷ lines) seq st (good, valid) =
      elim (Bool-cases (limit_reached limit st.sent)) [
        | inl done ↦ (st, rw (done, send_lines) refl)
        | inr more ↦ elim (Option-cases (parse_line line)) [
          | inl bad ↦ absurd (good bad)
          | inr (payload, e) ↦
              let (end, q) =
                no_end limit start lines (suc seq)
                  (flush_full start (push st (record { payload = payload; seq = seq }))) valid in
              (end, rw (more, e, send_lines) q)
        ]
      ]

  valid_from :
      (n : ℕ) (lines : List Text)
      → All (λ line. parse_line line ≢ none) lines
      → All (λ line. parse_line line ≢ none) (from_line n lines)
  unfolding from_line
  valid_from zero lines v = v
  valid_from (suc n) [] v = v
  valid_from (suc n) (line ∷ lines) (g, v) = valid_from n lines v

  stopped_stream :
      (lines : List Text) (r : Redis) (end : Sending)
      → Ends
          (messages_from parse_line (start_of parse_line lines r) lines)
          (start_of parse_line lines r)
          (length lines)
          r
          none
          (stopped end)
      → (redis_of
          (conclude (start_of parse_line lines r) none (length lines) (stopped end))).raw_stream
        ≡ r.raw_stream ++ messages_from parse_line (start_of parse_line lines r) lines
  unfolding Ends conclude finish redis_of
  stopped_stream lines r end (left, p, last) =
      let start = start_of parse_line lines r in
      let (q, e) =
        flush-Progress (messages_from parse_line start lines) start (length lines) r end left p in
      let all_sent : q.flushed ≡ messages_from parse_line start lines = sym (
        q.whole
        ∙ ap (λ b. q.flushed ++ (b ++ left)) e
        ∙ ap (λ (l : List Message). q.flushed ++ l) ((last refl).0)
        ∙ append-nil q.flushed) in
      kept (leb (length lines) (start + (flush start end).sent) && no_limit none)
        (flush start end).redis (some (start + (flush start end).sent))
      ∙ q.stream
      ∙ ap (λ (l : List Message). r.raw_stream ++ l) all_sent
    where
      kept :
          (b : Bool) (x : Redis) (mark : Option ℕ)
          → (if b then record x { stored = mark } else x).raw_stream ≡ x.raw_stream
      kept true x mark = refl
      kept false x mark = refl

  -- A replay without a limit of a file whose lines all parse appends all the messages from the
  -- checkpoint on to the stream, each once and in order.
  run_complete :
      (lines : List Text) (r : Redis)
      → All (λ line. parse_line line ≢ none) lines
      → (redis_of (run_lines parse_line lines none r)).raw_stream
        ≡ r.raw_stream ++ messages_from parse_line (start_of parse_line lines r) lines
  unfolding run_lines redis_of numbered from_line
  run_complete [] r v =
      sym (append-nil r.raw_stream)
      ∙ ap (λ (ls : List Text). r.raw_stream ++ numbered parse_line ls (start_of parse_line [] r))
          (sym (from_line_nil (start_of parse_line [] r)))
  run_complete (line ∷ lines) r v =
      let all_lines = line ∷ lines in
      let start = start_of parse_line all_lines r in
      let (end, e) =
        no_end none start (from_line start all_lines) start
          (record { redis = r; sent = 0; buffer = [] }) (valid_from start all_lines v) in
      ap (λ s. (redis_of (conclude start none (length all_lines) s)).raw_stream) e
      ∙ stopped_stream all_lines r end (
          subst
            (λ s. Ends (messages_from parse_line start all_lines) start (length all_lines) r none s)
            e (loop-Ends parse_line all_lines none r))

  numbered_split :
      (lines : List Text) (seq : ℕ) (f left : List Message)
      → All (λ line. parse_line line ≢ none) lines
      → numbered parse_line lines seq ≡ f ++ left
      → numbered parse_line (from_line (length f) lines) (seq + length f) ≡ left
  unfolding numbered from_line cons_message
  numbered_split lines seq [] left v e = ap (λ n. numbered parse_line lines n) (omega arith) ∙ e
  numbered_split [] seq (m ∷ ms) left v e = absurd (nil≢cons e)
  numbered_split (line ∷ lines) seq (m ∷ ms) left (g, v) e = elim (Option-cases (parse_line line)) [
    | inl bad ↦ absurd (g bad)
    | inr (payload, good) ↦
        let e' =
          sym (ap (λ o. cons_message o seq (numbered parse_line lines (suc seq))) good) ∙ e in
        ap (λ n. numbered parse_line (from_line (length ms) lines) n) (omega arith)
        ∙ numbered_split lines (suc seq) ms left v (tail-eq_of_cons-eq e')
  ]

  -- A replay that stopped early, at any limit, and was then taken up again without a limit has
  -- appended exactly the messages that one uninterrupted replay appends, each once and in order,
  -- provided that every line parses.
  pub run_lines-resumed :
      (lines : List Text) (limit : Option ℕ) (r : Redis)
      → All (λ line. parse_line line ≢ none) lines
      → (redis_of (
          run_lines parse_line lines none
            (redis_of (run_lines parse_line lines limit r)))).raw_stream
        ≡ (redis_of (run_lines parse_line lines none r)).raw_stream
  run_lines-resumed lines limit r v =
      let p = run_lines-Replayed parse_line lines limit r in
      let r' = redis_of (run_lines parse_line lines limit r) in
      let rest : messages_from parse_line (start_of parse_line lines r') lines ≡ p.left =
        ap (λ (ls : List Text). numbered parse_line ls (start_of parse_line lines r'))
          (from_line_add (start_of parse_line lines r) (length p.flushed) lines p.mark)
        ∙ ap
            (λ n.
              numbered parse_line
                (from_line (length p.flushed) (from_line (start_of parse_line lines r) lines)) n)
            p.mark
        ∙ numbered_split (from_line (start_of parse_line lines r) lines)
            (start_of parse_line lines r) p.flushed p.left
            (valid_from (start_of parse_line lines r) lines v) p.whole in
      run_complete lines r' v
      ∙ ap
          (λ (x : List Message). x ++ messages_from parse_line (start_of parse_line lines r') lines)
          p.stream
      ∙ append_assoc r.raw_stream p.flushed _
      ∙ ap (λ (x : List Message). r.raw_stream ++ (p.flushed ++ x)) rest
      ∙ ap (λ (x : List Message). r.raw_stream ++ x) (sym p.whole)
      ∙ sym (run_complete lines r v)
