-- ===== src/Ingest/Resume.antt =====
-- What a replay has sent and where its checkpoint stands, however it ended
-- (src/app/workers/injector.py).
use sentraxis.Prelude.{
  ℕ, suc, ◌+◌, ◌≤◌, min, ◌≡◌, refl, subst, sym, ◌∙◌, ap, inl, inr, true, Option, none, some, List,
  [], ◌∷◌, ◌++◌, Text, leb, length, length-append, arith, Bool-cases, Option-cases,
}
use mathlib.Core.List.{append_assoc}
use sentraxis.Ingest.Injector.{
  Message, Redis, Sending, Sent, stopped, invalid, Run, finished, empty_file, invalid_line,
  checkpoint, or_zero, flush_buffer, flush, push, flush_full, xadd_batch, limit_reached, send_lines,
}

unfoldable pub cons_message : Option Text → ℕ → List Message → List Message
cons_message none seq rest = []
cons_message (some payload) seq rest = record { payload = payload; seq = seq } ∷ rest

-- The messages of the lines up to the first invalid one, the first line having the number `seq`.
unfoldable pub numbered : (Text → Option Text) → List Text → ℕ → List Message
numbered parse_line [] seq = []
numbered parse_line (line ∷ lines) seq =
    cons_message (parse_line line) seq (numbered parse_line lines (suc seq))

-- Redis as a run leaves it.
unfoldable pub redis_of : Run → Redis
redis_of (finished r summary) = r
redis_of (empty_file r) = r
redis_of (invalid_line line r) = r

-- The new messages of the stream are a prefix of `all`, and the checkpoint stands right behind it.
pub record Replayed (all : List Message) (start total : ℕ) (before after : Redis) : Type 0 where
  pub flushed : List Message
  pub left : List Message
  pub whole : all ≡ flushed ++ left
  pub stream : after.raw_stream ≡ before.raw_stream ++ flushed
  pub mark : min (checkpoint after) total ≡ start + length flushed

-- The same in the middle of the loop, with the buffer between the two parts.
pub record Progress (all : List Message) (start total : ℕ) (before : Redis) (st : Sending)
    (left : List Message) : Type 0 where
  pub flushed : List Message
  pub whole : all ≡ flushed ++ (st.buffer ++ left)
  pub stream : st.redis.raw_stream ≡ before.raw_stream ++ flushed
  pub mark : min (checkpoint st.redis) total ≡ start + length flushed
  pub count : st.sent ≡ length flushed + length st.buffer
  pub within : start + st.sent ≤ total

module _ (all : List Message) (start total : ℕ) (before : Redis) where
  flush_buffer-Progress :
      (st : Sending) (left buffer : List Message)
      → st.buffer ≡ buffer
      → Progress all start total before st left
      → Progress all start total before (flush_buffer start st buffer) left
        × ((flush_buffer start st buffer).buffer ≡ [])
  unfolding flush_buffer checkpoint or_zero
  flush_buffer-Progress st left [] e p = (p, e)
  flush_buffer-Progress st left (m ∷ ms) e p =
      let size : length st.buffer ≡ length (m ∷ ms) = ap (λ (xs : List Message). length xs) e in
      (
        record {
          flushed = p.flushed ++ (m ∷ ms);
          whole =
              p.whole
              ∙ ap (λ b. p.flushed ++ (b ++ left)) e
              ∙ sym (append_assoc p.flushed (m ∷ ms) left);
          stream =
              ap (λ x. x ++ (m ∷ ms)) p.stream ∙ append_assoc before.raw_stream p.flushed (m ∷ ms);
          mark = omega (arith, p.count, p.within, size, length-append p.flushed (m ∷ ms));
          count = omega (arith, p.count, size, length-append p.flushed (m ∷ ms));
          within = p.within;
        },
        refl,
      )

  pub flush-Progress :
      (st : Sending) (left : List Message)
      → Progress all start total before st left
      → Progress all start total before (flush start st) left × ((flush start st).buffer ≡ [])
  unfolding flush
  flush-Progress st left p = flush_buffer-Progress st left st.buffer refl p

  flush_full-Progress :
      (st : Sending) (left : List Message)
      → Progress all start total before st left
      → Progress all start total before (flush_full start st) left
  unfolding flush_full
  flush_full-Progress st left p = elim (Bool-cases (leb xadd_batch (length st.buffer))) [
    | inl e ↦ rw e ((flush-Progress st left p).0)
    | inr e ↦ rw e p
  ]

  push-Progress :
      (st : Sending) (m : Message) (left : List Message)
      → start + suc st.sent ≤ total
      → Progress all start total before st (m ∷ left)
      → Progress all start total before (push st m) left
  unfolding push
  push-Progress st m left room p = record {
    flushed = p.flushed;
    whole =
        p.whole
        ∙ ap (λ (x : List Message). p.flushed ++ x) (sym (append_assoc st.buffer (m ∷ []) left));
    stream = p.stream;
    mark = p.mark;
    count = omega (arith, p.count, length-append st.buffer (m ∷ []));
    within = omega (arith, room);
  }

  pub closed :
      (st : Sending) (left : List Message)
      → st.buffer ≡ []
      → Progress all start total before st left
      → Replayed all start total before st.redis
  closed st left e p = record {
    flushed = p.flushed;
    left = left;
    whole = p.whole ∙ ap (λ b. p.flushed ++ (b ++ left)) e;
    stream = p.stream;
    mark = p.mark;
  }

  pub aborted :
      (st : Sending) (left : List Message)
      → Progress all start total before st left
      → Replayed all start total before st.redis
  aborted st left p = record {
    flushed = p.flushed;
    left = st.buffer ++ left;
    whole = p.whole;
    stream = p.stream;
    mark = p.mark;
  }

  pub flush_buffer-sent :
      (st : Sending) (b : List Message) → (flush_buffer start st b).sent ≡ st.sent
  unfolding flush_buffer
  flush_buffer-sent st [] = refl
  flush_buffer-sent st (m ∷ ms) = refl

  flush_full-sent : (st : Sending) → (flush_full start st).sent ≡ st.sent
  unfolding flush_full flush
  flush_full-sent st = elim (Bool-cases (leb xadd_batch (length st.buffer))) [
    | inl e ↦ rw e (flush_buffer-sent st st.buffer)
    | inr e ↦ rw e refl
  ]

  -- How the loop can end.
  unfoldable pub Ends : Option ℕ → Sent → Type 0
  Ends limit (stopped st) =
      (left : List Message) × Progress all start total before st left
      × ((limit ≡ none) → (left ≡ []) × (start + st.sent ≡ total))
  Ends limit (invalid line st) = (left : List Message) × Progress all start total before st left

  module _ (parse_line : Text → Option Text) where
    pub send_lines-Ends :
        (limit : Option ℕ) (lines : List Text) (seq : ℕ) (st : Sending)
        → start + st.sent + length lines ≡ total
        → Progress all start total before st (numbered parse_line lines seq)
        → Ends limit (send_lines parse_line start limit lines seq st)
    unfolding send_lines Ends numbered cons_message limit_reached push
    send_lines-Ends limit [] seq st e p = ([], p, λ u. (refl, omega (arith, e)))
    send_lines-Ends limit (line ∷ lines) seq st e p =
        elim (Bool-cases (limit_reached limit st.sent)) [
          | inl done ↦ rw done (_, p, λ u. absurd (no_stop limit st.sent u done))
          | inr more ↦ elim (Option-cases (parse_line line)) [
            | inl bad ↦ rw (more, bad) (_, p)
            | inr (payload, good) ↦
                let m : Message = record { payload = payload; seq = seq } in
                let st' = push st m in
                let left = numbered parse_line lines (suc seq) in
                let p' : Progress all start total before st (m ∷ left) =
                  subst (λ o. Progress all start total before st (cons_message o seq left)) good
                    p in
                rw (more, good)
                  (send_lines-Ends limit lines (suc seq) (flush_full start st')
                    (omega (arith, flush_full-sent st', e))
                    (flush_full-Progress st' left (push-Progress st m left (omega (arith, e)) p')))
          ]
        ]
      where
        no_stop : (limit : Option ℕ) (n : ℕ) → limit ≡ none → limit_reached limit n ≡ true → ⊥
        no_stop none n u e = cc
        no_stop (some l) n u e = cc
