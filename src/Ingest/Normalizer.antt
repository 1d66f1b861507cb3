-- ===== src/Ingest/Normalizer.antt =====
-- src/app/workers/normalizer.py: one batch of stream entries is parsed, stored and acknowledged.
-- What Redis hands out is an argument; `faults` is what the database does at the successive
-- attempts to store, none being left meaning that it answers.
use sentraxis.Prelude.{
  ℕ, zero, suc, ◌+◌, ◌-◌, Bool, not, Option, none, some, List, [], ◌∷◌, ◌++◌, Text, codes, take,
  length, ltb, ◌==◌, any, keep, map, if◌then◌else◌,
}
use sentraxis.Ingest.Repository.{
  CanonicalEvent, Parsed, malformed, overflowing, parsed, Db, InsertReport, store_batch,
}

pub record Entry : Type 0 where
  pub msg_id : ℕ
  -- the field "payload", if it is there and a text
  pub payload : Option Text

pub record DeadLetter : Type 0 where
  pub payload : Text
  pub reason : Text
  pub origin : ℕ

pub data Problem : Type 0 where
  transient_db_error : (attempts : ℕ) → Problem
  nonretryable : Problem
  event_failed : (event_id : ℕ) → Problem

pub record BatchResult : Type 0 where
  pub received : ℕ
  pub parsed_ok : ℕ
  pub dead_lettered : ℕ
  pub inserted : ℕ
  pub duplicates : ℕ
  pub errors : List Problem

-- `refusing` is any other exception, such as the DataError of a value that a column does not take.
pub data Fault : Type 0 where
  healthy operational integrity refusing : Fault

-- The database, the group's pending entries, the stream events:dead, and the batch's result.
pub record Pipe : Type 0 where
  pub db : Db
  pub faults : List Fault
  pub pending : List ℕ
  pub dead : List DeadLetter
  pub result : BatchResult

pub data Attempt : Type 0 where
  committed : Db → InsertReport → Attempt
  operational_error nonretryable_error other_error : Attempt

abbrev pub inline_retry_attempts : ℕ
inline_retry_attempts = 3

unfoldable pub is_in : ℕ → List ℕ → Bool
is_in i ids = any (λ j. j == i) ids

unfoldable pub ack : List ℕ → Pipe → Pipe
ack ids p = record p { pending = keep (λ i. not (is_in i ids)) p.pending }

unfoldable pub next_fault : List Fault → Fault
next_fault [] = healthy
next_fault (f ∷ fs) = f

unfoldable pub later_faults : List Fault → List Fault
later_faults [] = []
later_faults (f ∷ fs) = fs

unfoldable pub attempt_of : Option (Db × InsertReport) → Attempt
attempt_of none = other_error
attempt_of (some (db, report)) = committed db report

-- `persist_batch`, which rolls back when the database fails.
unfoldable pub persist_batch : ℕ → Fault → List CanonicalEvent → Db → Attempt
persist_batch now operational events db = operational_error
persist_batch now integrity events db = nonretryable_error
persist_batch now refusing events db = other_error
persist_batch now healthy events db = attempt_of (store_batch now events db)

unfoldable pub attempted : Pipe → Pipe
attempted p = record p { faults = later_faults p.faults }

unfoldable pub with_error : Problem → Pipe → Pipe
with_error e p = record p { result = record p.result { errors = p.result.errors ++ (e ∷ []) } }

unfoldable pub with_report : Db → InsertReport → Pipe → Pipe
with_report db report p = record p {
  db = db;
  result = record p.result {
    inserted = p.result.inserted + report.inserted;
    duplicates = p.result.duplicates + report.duplicates;
  };
}

unfoldable pub or_empty : Option Text → Text
or_empty none = []
or_empty (some t) = t

unfoldable pub dead_letter : ℕ → Text → Text → Pipe → Pipe
dead_letter msg_id payload reason p = ack (msg_id ∷ []) (record p {
  dead =
      p.dead ++ (record { payload = take 16_384 payload; reason = reason; origin = msg_id } ∷ []);
})

-- XAUTOCLAIM's entries, filled up with new ones.
unfoldable pub collect_entries : ℕ → List Entry → List Entry → List Entry
collect_entries batch_size claimed fresh =
    if ltb (length claimed) batch_size
    then claimed ++ take (batch_size - length claimed) fresh
    else claimed

module _ (parse_event_payload : Text → Parsed) (dump : CanonicalEvent → Text) (now : ℕ) where
  unfoldable pub settle_event : ℕ → CanonicalEvent → Attempt → Pipe → Pipe
  settle_event msg_id e (committed db report) p = ack (msg_id ∷ []) (with_report db report p)
  settle_event msg_id e operational_error p =
      dead_letter msg_id (dump e) (codes "persist_failure") (with_error (event_failed e.event_id) p)
  settle_event msg_id e nonretryable_error p =
      dead_letter msg_id (dump e) (codes "persist_failure") (with_error (event_failed e.event_id) p)
  settle_event msg_id e other_error p =
      dead_letter msg_id (dump e) (codes "persist_failure") (with_error (event_failed e.event_id) p)

  unfoldable pub persist_per_event : List (ℕ × CanonicalEvent) → Pipe → Pipe
  persist_per_event [] p = p
  persist_per_event ((msg_id, e) ∷ rest) p =
      persist_per_event rest (
        settle_event msg_id e (persist_batch now (next_fault p.faults) (e ∷ []) p.db) (attempted p))

  unfoldable pub msg_ids : List (ℕ × CanonicalEvent) → List ℕ
  msg_ids valid = map (λ (v : ℕ × CanonicalEvent). v.0) valid

  unfoldable pub events_of : List (ℕ × CanonicalEvent) → List CanonicalEvent
  events_of valid = map (λ (v : ℕ × CanonicalEvent). v.1) valid

  -- The `while True` of `_persist_and_ack`, with the attempts that are left; `none` is an
  -- exception that no handler catches.
  unfoldable pub persist_and_ack : ℕ → List (ℕ × CanonicalEvent) → Pipe → Option Pipe
  persist_and_ack zero valid p = some (with_error (transient_db_error inline_retry_attempts) p)
  persist_and_ack (suc left) valid p =
      let retried = persist_and_ack left valid (attempted p) in
      elim (persist_batch now (next_fault p.faults) (events_of valid) p.db) [
        | committed db report ↦ some (ack (msg_ids valid) (with_report db report (attempted p)))
        | operational_error ↦ retried
        | nonretryable_error ↦
            some (persist_per_event valid (with_error nonretryable (attempted p)))
        | other_error ↦ none
      ]

  unfoldable pub reject_entry : Entry → Text → Pipe → Pipe
  reject_entry entry reason p =
      let q = dead_letter entry.msg_id (or_empty entry.payload) reason p in
      record q { result = record q.result { dead_lettered = suc q.result.dead_lettered } }

  unfoldable pub accept_entry : Pipe → Pipe
  accept_entry p = record p { result = record p.result { parsed_ok = suc p.result.parsed_ok } }

  unfoldable pub parse_entry : Option Text → Parsed
  parse_entry none = malformed
  parse_entry (some payload) = parse_event_payload payload

  -- The reasons and errors are kept without the numbers and the exception texts in them.
  unfoldable pub reason_for : Option Text → Text
  reason_for none = codes "message missing 'payload' field"
  reason_for (some payload) = codes "invalid canonical event"

  abbrev pub Sorting : Type 0
  Sorting = List (ℕ × CanonicalEvent) × Pipe

  unfoldable pub with_event : ℕ → CanonicalEvent → Option Sorting → Option Sorting
  with_event msg_id e none = none
  with_event msg_id e (some (valid, p)) = some ((msg_id, e) ∷ valid, p)

  -- The first loop: the events to store, in order, and the pipe after the dead letters; `none` is an
  -- exception other than ValueError.
  unfoldable pub sort_entries : List Entry → Pipe → Option Sorting
  sort_entries [] p = some ([], p)
  sort_entries (entry ∷ entries) p = elim (parse_entry entry.payload) [
    | malformed ↦ sort_entries entries (reject_entry entry (reason_for entry.payload) p)
    | overflowing ↦ none
    | parsed e ↦ with_event entry.msg_id e (sort_entries entries (accept_entry p))
  ]

  unfoldable pub persist_valid : Option Sorting → Option Pipe
  persist_valid none = none
  persist_valid (some ([], p)) = some p
  persist_valid (some (v ∷ vs, p)) = persist_and_ack inline_retry_attempts (v ∷ vs) p

  unfoldable pub fresh_result : ℕ → BatchResult
  fresh_result received = record {
    received = received;
    parsed_ok = 0;
    dead_lettered = 0;
    inserted = 0;
    duplicates = 0;
    errors = [];
  }

  unfoldable pub process_batch : List Entry → Pipe → Option Pipe
  process_batch entries p =
      persist_valid (sort_entries entries (record p { result = fresh_result (length entries) }))
