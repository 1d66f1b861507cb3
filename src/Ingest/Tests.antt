-- ===== src/Ingest/Tests.antt =====
-- A scenario of three lines, a batch of two entries, an event, and the theorems at them.
use sentraxis.Prelude.{
  ℕ, refl, ap₂, inl, inr, subst, pos, arith, Bool-cases, true, false, ◌==◌, if◌then◌else◌, ◌≡◌, ◌≢◌,
  ◌⊎◌, Option, none, some, List, [], ◌∷◌, Text, codes, length, any, take, All,
}
use sentraxis.Audit.{end}
use sentraxis.Ingest.Injector.{Redis, run_lines}
use sentraxis.Ingest.Resume.{redis_of, Replayed}
use sentraxis.Ingest.Once.{messages_from, start_of, run_lines-Replayed}
use sentraxis.Ingest.Again.{run_lines-resumed}
use sentraxis.Api.Auth.{lower, lower_all}
use sentraxis.Ingest.Domain.{
  tcp, east, NetworkFlowFeatures, RawEvent, parse_event_payload, event_of, validate_ref,
  validate_dst, normalize, normalize_host_identifier, normalize_name, host_name, are_valid, is_port,
  is_nonneg, to_utc,
}
use sentraxis.Ingest.Normal.{IsCanonical, parse_event_payload-IsCanonical}
use sentraxis.Ingest.Repository.{
  user, host, CanonicalEvent, parsed, are_storable, Db, InsertReport, store_batch,
}
use sentraxis.Ingest.Stored.{store_batch_again}
use sentraxis.Ingest.Normalizer.{
  Entry, operational, integrity, Pipe, transient_db_error, process_batch,
}
use sentraxis.Ingest.Acked.{Gone, is_refusing}
use sentraxis.Ingest.Settle.{parsed_events, any_overflows, process_batch-settles}

abbrev lines : List Text
lines = codes "one" ∷ codes "two" ∷ codes "three" ∷ []

abbrev idle : Redis
idle = record { stored = none; raw_stream = [] }

some≢none : (t : Text) → ◌≢◌ {A = Option Text} (some t) none
some≢none t e = cc

run_lines-Replayed_example :
    Replayed
      (messages_from (λ t. some t) (start_of (λ t. some t) lines idle) lines)
      (start_of (λ t. some t) lines idle)
      (length lines)
      idle
      (redis_of (run_lines (λ t. some t) lines (some 2) idle))
run_lines-Replayed_example = run_lines-Replayed (λ t. some t) lines (some 2) idle

run_lines-resumed_example :
    (redis_of (
      run_lines
        (λ t. some t)
        lines
        none
        (redis_of (run_lines (λ t. some t) lines (some 2) idle)))).raw_stream
    ≡ (redis_of (run_lines (λ t. some t) lines none idle)).raw_stream
run_lines-resumed_example =
    run_lines-resumed (λ t. some t) lines (some 2) idle
      (some≢none (codes "one"), (some≢none (codes "two"), (some≢none (codes "three"), tt)))

abbrev flow : CanonicalEvent
flow = record {
  event_id = 11;
  ts = 5;
  source = codes "network_flow";
  src_entity = record { type' = host; identifier = codes "10.0.0.1" };
  dst_entity = some (record { type' = host; identifier = codes "10.0.0.2" });
  ground_truth_label = none;
  features = end;
}

abbrev empty_db : Db
empty_db = record { entities = []; next_entity_id = 1; events = [] }

flow-fits : are_storable (flow ∷ []) ≡ true
unfolding sentraxis.Ingest.Repository.is_storable sentraxis.Ingest.Repository.fields_fit
    sentraxis.Ingest.Repository.extract_entity_refs sentraxis.Ingest.Repository.insert_ref
    sentraxis.Ingest.Repository.insert_dst sentraxis.Ingest.Repository.key_ltb
    sentraxis.Ingest.Repository.same_key sentraxis.Ingest.Repository.type_rank
    sentraxis.Ingest.Repository.text_ltb
flow-fits = refl

store_batch_again_example :
    (db' : Db) × (report : InsertReport) × (db'' : Db) × (report' : InsertReport) × (store_batch 5
        (flow ∷ [])
        empty_db
      ≡ some (db', report))
    × (store_batch 6 (flow ∷ []) db' ≡ some (db'', report'))
    × (db''.events ≡ db'.events)
    × (report'.inserted ≡ 0)
    × (report'.duplicates ≡ 1)
store_batch_again_example = store_batch_again 5 6 (flow ∷ []) empty_db flow-fits

abbrev entries : List Entry
entries =
    record { msg_id = 1; payload = some (codes "event") }
    ∷ record { msg_id = 2; payload = none }
    ∷ []

abbrev waiting : Pipe
waiting = record {
  db = empty_db;
  faults = operational ∷ integrity ∷ [];
  pending = 1 ∷ 2 ∷ [];
  dead = [];
  result = record {
    received = 0;
    parsed_ok = 0;
    dead_lettered = 0;
    inserted = 0;
    duplicates = 0;
    errors = [];
  };
}

process_batch-settles_example :
    ((after : Pipe) × (process_batch (λ t. parsed flow) (λ e. []) 5 entries waiting ≡ some after)
      × ((All (λ (e : Entry). Gone after e.msg_id) entries)
          ⊎ (after.result.errors ≡ transient_db_error 3 ∷ [])))
    ⊎ ((process_batch (λ t. parsed flow) (λ e. []) 5 entries waiting ≡ none)
        × ((any_overflows (λ t. parsed flow) (λ e. []) 5 entries ≡ true)
            ⊎ ((any is_refusing (take 3 waiting.faults) ≡ true)
                ⊎ (are_storable (parsed_events (λ t. parsed flow) (λ e. []) 5 entries) ≡ false))))
process_batch-settles_example = process_batch-settles (λ t. parsed flow) (λ e. []) 5 entries waiting

-- Texts that begin with 1 are the addresses here, and have the canonical form "1".
abbrev address : Text → Option Text
address [] = none
address (c ∷ cs) = if c == 49 then some (49 ∷ []) else none

lower_lower : (t : Text) → lower_all (lower_all t) ≡ lower_all t
unfolding lower
lower_lower [] = refl
lower_lower (c ∷ cs) = ap₂ (λ x xs. x ∷ xs) (twice c) (lower_lower cs)
  where
    twice : (c : ℕ) → lower (lower c) ≡ lower c
    twice c = ground arith

lower_empty : (t : Text) → lower_all t ≡ [] → t ≡ []
lower_empty [] e = refl
lower_empty (c ∷ cs) e = cc

address_lower : (t : Text) → address t ≡ none → address (lower_all t) ≡ none
unfolding lower
address_lower [] e = refl
address_lower (c ∷ cs) e = ground arith

address_canonical :
    (t s : Text) → t ≡ t → address t ≡ some s → (s ≡ s) × (s ≢ []) × (address s ≡ some s)
address_canonical [] s same e = cc
address_canonical (c ∷ cs) s same e = elim (Bool-cases (c == 49)) [
  | inl q ↦ subst (λ x. (x ≡ x) × (x ≢ []) × (address x ≡ some x)) (one q e) (refl, (λ p. cc), refl)
  | inr q ↦ absurd (ground arith)
]
  where
    one : (c == 49) ≡ true → address (c ∷ cs) ≡ some s → 49 ∷ [] ≡ s
    one q p = cc

abbrev flow_features : NetworkFlowFeatures
flow_features = record {
  protocol = tcp;
  src_port = pos 40000;
  dst_port = pos 443;
  duration_s = pos 5;
  src_bytes = pos 1;
  dst_bytes = pos 1;
  src_pkts = pos 1;
  dst_pkts = pos 1;
  conn_state = codes "SF";
}

abbrev raw_event : RawEvent
raw_event = record {
  event_id = 9;
  source = codes "network_flow";
  local_ts = 1000;
  tzinfo = some (east 400);
  src_entity = record { type' = host; identifier = codes "10" };
  dst_entity = some (record { type' = user; identifier = codes "Ann" });
  ground_truth_label = none;
  features = flow_features;
}

abbrev parsed_event : CanonicalEvent
parsed_event = record {
  event_id = 9;
  ts = 600;
  source = codes "network_flow";
  src_entity = record { type' = host; identifier = codes "1" };
  dst_entity = some (record { type' = user; identifier = codes "ann" });
  ground_truth_label = none;
  features = end;
}

accepted : parse_event_payload (λ t. t) lower_all address (λ f. end) raw_event ≡ parsed parsed_event
unfolding parse_event_payload event_of validate_ref validate_dst normalize normalize_host_identifier
    normalize_name host_name are_valid is_port is_nonneg to_utc lower
accepted = refl

parse_event_payload-IsCanonical_example :
    IsCanonical
      (λ t. t)
      lower_all
      address
      (λ f. end)
      (λ t. refl)
      (λ t e. refl)
      lower_lower
      lower_empty
      address_lower
      address_canonical
      raw_event
      parsed_event
parse_event_payload-IsCanonical_example =
    parse_event_payload-IsCanonical (λ t. t) lower_all address (λ f. end) (λ t. refl) (λ t e. refl)
      lower_lower lower_empty address_lower address_canonical raw_event parsed_event (omega arith)
      accepted
