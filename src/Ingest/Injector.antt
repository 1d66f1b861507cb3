-- ===== src/Ingest/Injector.antt =====
-- src/app/workers/injector.py: replaying a scenario file into the stream events:raw, with a
-- checkpoint in Redis. A line is its text. Parsing one line into a canonical payload and
-- `str.strip` are arguments; the pacing with `eps` only sleeps and is left out.
use sentraxis.Prelude.{
  ℕ, zero, suc, ◌+◌, min, Bool, true, false, Option, none, some, List, [], ◌∷◌, ◌++◌, Text, ltb,
  leb, length, ◌&&◌, if◌then◌else◌,
}

pub record Message : Type 0 where
  pub payload : Text
  pub seq : ℕ

-- The key of this scenario's checkpoint, and the stream.
pub record Redis : Type 0 where
  pub stored : Option ℕ
  pub raw_stream : List Message

pub record InjectionSummary : Type 0 where
  pub total_lines : ℕ
  pub sent : ℕ
  pub skipped_by_checkpoint : ℕ
  pub completed : Bool

-- The local variables of `run` beside Redis.
pub record Sending : Type 0 where
  pub redis : Redis
  pub sent : ℕ
  pub buffer : List Message

pub data Sent : Type 0 where
  stopped : Sending → Sent
  invalid : (line : ℕ) → Sending → Sent

-- How `run` ends: with a summary, or with a ValueError for an empty file or an invalid line. Redis
-- keeps what was written before the error.
pub data Run : Type 0 where
  finished : Redis → InjectionSummary → Run
  empty_file : Redis → Run
  invalid_line : (line : ℕ) → Redis → Run

abbrev pub xadd_batch : ℕ
xadd_batch = 500

unfoldable pub or_zero : Option ℕ → ℕ
or_zero none = 0
or_zero (some n) = n

unfoldable pub checkpoint : Redis → ℕ
checkpoint r = or_zero r.stored

unfoldable pub reset_checkpoint : Redis → Redis
reset_checkpoint r = record r { stored = none }

unfoldable pub from_line : {A : Type 0} → ℕ → List A → List A
from_line zero xs = xs
from_line (suc n) [] = []
from_line (suc n) (x ∷ xs) = from_line n xs

unfoldable pub limit_reached : Option ℕ → ℕ → Bool
limit_reached none sent = false
limit_reached (some limit) sent = leb limit sent

unfoldable pub no_limit : Option ℕ → Bool
no_limit none = true
no_limit (some limit) = false

unfoldable pub flush_buffer : ℕ → Sending → List Message → Sending
flush_buffer start st [] = st
flush_buffer start st (m ∷ ms) = record {
  redis = record { stored = some (start + st.sent); raw_stream = st.redis.raw_stream ++ (m ∷ ms) };
  sent = st.sent;
  buffer = [];
}

-- The inner function `flush`.
unfoldable pub flush : ℕ → Sending → Sending
flush start st = flush_buffer start st st.buffer

-- `buffer.append(...)` and `sent += 1`, and the flush of a full buffer.
unfoldable pub push : Sending → Message → Sending
push st m = record { redis = st.redis; sent = st.sent + 1; buffer = st.buffer ++ (m ∷ []) }

unfoldable pub flush_full : ℕ → Sending → Sending
flush_full start st = if leb xadd_batch (length st.buffer) then flush start st else st

-- The blank lines of a file are dropped.
unfoldable pub load_lines : (Text → Text) → List Text → List Text
load_lines strip [] = []
load_lines strip (raw ∷ raws) =
    let rest = load_lines strip raws in
    if ltb 0 (length (strip raw)) then strip raw ∷ rest else rest

-- Writing the final checkpoint, after the last flush.
unfoldable pub finish : ℕ → Option ℕ → ℕ → Sending → Run
finish start limit total st =
    let complete = leb total (start + st.sent) && no_limit limit in
    finished (if complete then record st.redis { stored = some (start + st.sent) } else st.redis)
      (record {
        total_lines = total;
        sent = st.sent;
        skipped_by_checkpoint = start;
        completed = complete;
      })

unfoldable pub conclude : ℕ → Option ℕ → ℕ → Sent → Run
conclude start limit total (stopped st) = finish start limit total (flush start st)
conclude start limit total (invalid line st) = invalid_line line st.redis

module _ (parse_line : Text → Option Text) where
  -- The `for` loop from line `seq` on.
  unfoldable pub send_lines : ℕ → Option ℕ → List Text → ℕ → Sending → Sent
  send_lines start limit [] seq st = stopped st
  send_lines start limit (line ∷ lines) seq st =
      if limit_reached limit st.sent then stopped st else elim (parse_line line) [
        | none ↦ invalid (suc seq) st
        | some payload ↦
            send_lines start limit lines (suc seq)
              (flush_full start (push st (record { payload = payload; seq = seq })))
      ]

  unfoldable pub run_lines : List Text → Option ℕ → Redis → Run
  run_lines [] limit r = empty_file r
  run_lines (line ∷ lines) limit r =
      let all_lines = line ∷ lines in
      let start = min (checkpoint r) (length all_lines) in
      conclude start limit (length all_lines) (
        send_lines start limit (from_line start all_lines) start
          (record { redis = r; sent = 0; buffer = [] }))

  -- `run`, the file given as its raw lines. The file is read before the checkpoint is reset.
  unfoldable pub run : (Text → Text) → List Text → Bool → Option ℕ → Redis → Run
  run strip raws reset limit r =
      let lines = load_lines strip raws in
      if ltb 0 (length lines)
      then run_lines lines limit (if reset then reset_checkpoint r else r)
      else empty_file r
