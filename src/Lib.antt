-- ===== src/Lib.antt =====
-- Sentraxis turns labelled network flows into detections, incidents and policy-gated containment
-- actions with a tamper-evident ledger. This library models the parts of src/app that decide what
-- happens, and states what they guarantee. Paths below are from the repository's root.
--
-- How the parts interact: the injector replays a scenario file into a Redis stream; the normalizer
-- parses, stores and acknowledges the stream's entries; the detection worker runs the detectors over
-- stored events and stores their detections; the correlation worker groups detections into incidents
-- by rules, and an agent may enrich an incident through the gateway to language models; the
-- orchestrator turns incidents into actions by the policy, runs those of low blast radius and holds
-- the others for the approval endpoints; each change of an action appends to the ledger.
--
-- Which file models which part:
--   Audit         src/app/orchestration/audit.py: append_entry, verify_chain. A log is the table in
--                 the order of seq; sha256, isoformat and json.dumps are the fields of Hashing.
--   Policy        src/app/orchestration/policy.py: evaluate_response, is_external_identifier.
--   Orchestrator  src/app/workers/orchestrator.py: _transition (Transition), _execute and the
--                 effectors (Execute), tick, expiry and action creation (Tick), decide (Decide),
--                 seed_playbooks (Seed), over the rows of src/app/persistence/models.py (Store).
--                 Machine is an abstract machine with one rule for each kind of change.
--   Api           src/app/api/actions.py (Actions), src/app/api/deps.py, src/app/api/auth.py and
--                 src/app/security.py (Auth); src/app/api/incidents.py (Incidents); the
--                 listings of both (Pages); Session has runs of ticks and requests.
--   Detect        src/app/detectors: base.py (Base), the loop that both classes share (Engine),
--                 rate_deviation.py (Rate), port_velocity.py (Ports); src/app/workers/detector.py
--                 (Worker). Float is the interface of Python's float, without laws.
--   Ingest        src/app/domain/events.py (Domain), src/app/workers/injector.py (Injector),
--                 src/app/persistence/repository.py (Repository), src/app/workers/normalizer.py
--                 (Normalizer).
--   Llm           src/app/llm/gateway.py: the provider chain (Providers), the gateway's state with
--                 cache, budget and pacing (Client), calls with retries (Attempts), chat_json with its
--                 fallback over the providers (Gateway).
--   Correlate     src/app/correlation/rules.py: cluster_by_entity_and_time (Rules) and
--                 build_incident_draft (Draft); attack_reference.py (Attack); agent.py: the output
--                 schema (Analysis), the prompt's facts (Facts), analyze (Agent);
--                 src/app/workers/correlator.py (Worker).
--   Logging       src/app/observability/logging.py: redact_sensitive on nested log events.
--   Prelude       what the others share. Tests and Example modules hold data and instances.
--
-- Conventions: a table is a list of rows, and one transaction is a function on the database; a
-- raised exception is a value, and what is rolled back is the old database. Of what PostgreSQL
-- refuses, the constraint on an action's blast radius, the columns of an event's texts and of a
-- playbook and the unique keys are written out, and the refusals of the normalizer's and the
-- detection worker's rows are arguments. Stamps are whole microseconds, in Api/Auth whole seconds.
-- Risks and thresholds are ten-thousandths, the precision to which the program rounds. The field
-- label of an event view, which is always None, and the calls of loggers are left out.
--
-- Bounds and fuel: roll_loop has the fuel ts + 1, enough since each round moves the bucket by at least
-- one second where the window is positive. persist_and_ack has the three attempts of
-- INLINE_RETRY_ATTEMPTS, a provider three attempts, and analyze two rounds. All other
-- functions recurse on their data.
--
-- Not modelled: metric and health endpoints, settings, migrations and scripts; the text of the
-- agent's system prompt; infinite durations, floats that are not numbers in a model's reply, and a
-- reply whose text the database refuses. Overlapping transactions are modelled only for the ledger
-- (Audit/Race); elsewhere transactions run one after the other.
pub mod Prelude
pub mod Audit
pub mod Policy
pub mod Orchestrator
pub mod Api
pub mod Detect
pub mod Ingest
pub mod Llm
pub mod Correlate
pub mod Logging
