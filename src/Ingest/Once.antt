-- ===== src/Ingest/Once.antt =====
-- One replay of src/app/workers/injector.py, however it ends.
use sentraxis.Prelude.{
  ℕ, zero, suc, ◌+◌, ◌-◌, ◌≤◌, min, ◌≡◌, refl, sym, ◌∙◌, ap, inl, inr, Option, some, List, [], ◌∷◌,
  ◌++◌, Text, leb, length, arith, Bool-cases, ◌&&◌,
}
use mathlib.Core.List.{append-nil}
use sentraxis.Ingest.Injector.{
  Message, Redis, Sending, Sent, stopped, invalid, checkpoint, or_zero, from_line, flush, no_limit,
  finish, conclude, send_lines, run_lines,
}
use sentraxis.Ingest.Resume.{
  numbered, redis_of, Replayed, Progress, Ends, flush-Progress, closed, aborted, send_lines-Ends,
}

length-from_line : (n : ℕ) (xs : List Text) → length (from_line n xs) ≡ length xs - n
unfolding from_line
length-from_line zero xs = omega arith
length-from_line (suc n) [] = omega arith
length-from_line (suc n) (x ∷ xs) = omega (arith, length-from_line n xs)

module _ (all : List Message) (start total : ℕ) (before : Redis) where
  finish-Replayed :
      (limit : Option ℕ) (st : Sending) (left : List Message)
      → st.buffer ≡ []
      → Progress all start total before st left
      → Replayed all start total before (redis_of (finish start limit total st))
  unfolding finish redis_of checkpoint or_zero
  finish-Replayed limit st left e p =
      let c = closed all start total before st left e p in
      let size : length st.buffer ≡ 0 = ap (λ (xs : List Message). length xs) e in
      elim (Bool-cases (leb total (start + st.sent) && no_limit limit)) [
        | inl whole ↦ rw whole (record {
          flushed = p.flushed;
          left = left;
          whole = p.whole ∙ ap (λ b. p.flushed ++ (b ++ left)) e;
          stream = p.stream;
          mark = marked st (length p.flushed) (omega (arith, p.count, size)) p.within;
        })
        | inr partial' ↦ rw partial' c
      ]
    where
      marked :
          (st : Sending) (n : ℕ)
          → st.sent ≡ n
          → start + st.sent ≤ total
          → min (checkpoint (record st.redis { stored = some (start + st.sent) })) total ≡ start + n
      marked st n e le = omega (arith, e, le)

  conclude-Replayed :
      (limit : Option ℕ) (sent : Sent)
      → Ends all start total before limit sent
      → Replayed all start total before (redis_of (conclude start limit total sent))
  unfolding conclude redis_of Ends
  conclude-Replayed limit (stopped st) (left, p, _) =
      let (q, e) = flush-Progress all start total before st left p in
      finish-Replayed limit (flush start st) left e q
  conclude-Replayed limit (invalid line st) (left, p) = aborted all start total before st left p

module _ (parse_line : Text → Option Text) where
  -- The messages of a file from a line on.
  abbrev pub messages_from : ℕ → List Text → List Message
  messages_from start lines = numbered parse_line (from_line start lines) start

  -- Where a run begins.
  abbrev pub start_of : List Text → Redis → ℕ
  start_of lines r = min (checkpoint r) (length lines)

  begin :
      (lines : List Text) (r : Redis)
      → Progress
          (messages_from (start_of lines r) lines)
          (start_of lines r)
          (length lines)
          r
          (record { redis = r; sent = 0; buffer = [] })
          (messages_from (start_of lines r) lines)
  begin lines r = record {
    flushed = [];
    whole = refl;
    stream = sym (append-nil r.raw_stream);
    mark = omega arith;
    count = omega arith;
    within = omega arith;
  }

  pub loop-Ends :
      (lines : List Text) (limit : Option ℕ) (r : Redis)
      → Ends (messages_from (start_of lines r) lines) (start_of lines r) (length lines) r limit (
          send_lines parse_line
            (start_of lines r)
            limit
            (from_line (start_of lines r) lines)
            (start_of lines r)
            (record { redis = r; sent = 0; buffer = [] }))
  loop-Ends lines limit r =
      send_lines-Ends (messages_from (start_of lines r) lines) (start_of lines r) (length lines) r
        parse_line limit (from_line (start_of lines r) lines) (start_of lines r)
        (record { redis = r; sent = 0; buffer = [] })
        (omega (arith, length-from_line (start_of lines r) lines)) (begin lines r)

  -- However a replay of a scenario ends (completely, at its limit, or at an invalid line), what it
  -- has added to the stream is a prefix of the numbered messages of the lines from the checkpoint
  -- on, and the new checkpoint, cut at the length of the file, stands right behind that prefix.
  pub run_lines-Replayed :
      (lines : List Text) (limit : Option ℕ) (r : Redis)
      → Replayed
          (messages_from (start_of lines r) lines)
          (start_of lines r)
          (length lines)
          r
          (redis_of (run_lines parse_line lines limit r))
  unfolding run_lines redis_of numbered from_line
  run_lines-Replayed [] limit r = record {
    flushed = [];
    left = numbered parse_line (from_line (min (checkpoint r) 0) []) (min (checkpoint r) 0);
    whole = refl;
    stream = sym (append-nil r.raw_stream);
    mark = omega arith;
  }
  run_lines-Replayed (line ∷ lines) limit r =
      conclude-Replayed _ _ _ r limit _ (loop-Ends (line ∷ lines) limit r)
