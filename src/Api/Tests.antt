-- ===== src/Api/Tests.antt =====
-- The theorems about src/app/api at example databases.
use sentraxis.Prelude.{
  inl, inr, text_eq, ℕ, ◌≡◌, refl, ap, true, false, Option, none, some, List, [], ◌∷◌, ◌++◌, Text,
  codes, ltb, if◌then◌else◌,
}
use sentraxis.Audit.{verify_chain}
use sentraxis.Audit.Chain.{IsIntact}
use sentraxis.Orchestrator.Store.{pending_approval, rejected, put_action, ActionRow, Db, get_action}
use sentraxis.Orchestrator.Decide.{Decision, decide, decide_row, stamp_decided}
use sentraxis.Orchestrator.Decision.{row_after, db_after}
use sentraxis.Orchestrator.Outcome.{decide_rejects}
use sentraxis.Orchestrator.Transition.{state_eq, moved_row}
use sentraxis.Orchestrator.Guarantees.{AllApproved, Extends}
use sentraxis.Orchestrator.Example.{short_hashing, example_env, action_in, waiting_db, decision}
use sentraxis.Api.Auth.{
  refused, lower, has_bearer, after_space, require_roles, or_refuse, find_user, UserRow, Claims,
  Libraries, get_current_user,
}
use sentraxis.Correlate.Facts.{CandidateRow}
use sentraxis.Correlate.Worker.{Db as Tables}
use sentraxis.Llm.Example.{settings}
use sentraxis.Api.Incidents.{
  get_row, http_error, is_linked, linked_rows, columns, unpack_pair, facts_row, facts_rows,
  has_no_key, analyze_rows, analyze_linked, analyze_found, analyze_as, analyze_incident,
}
use sentraxis.Api.Unpacked.{Refused, analyze_incident-Refused}
use sentraxis.Api.Actions.{
  settle, with_key, find_replay, decide_fresh, Request, decided, is_given, has_key, decide_request,
}
use sentraxis.Api.Replay.{decide_request_replays}
use sentraxis.Api.Session.{Event, ticked, approving, rejecting, run, run-AllApproved, run-IsIntact}

abbrev ann : UserRow
ann = record { id = 2; email = "ann"; password_hash = "hash"; role = "approver"; disabled = false }

-- Tokens that hold the two times of the claims, all of one user.
abbrev read_token : ℕ → Text → Option Claims
read_token t (iat ∷ exp ∷ []) =
    if ltb t exp
    then some (record { sub = some "ann"; role = "approver"; iat = iat; exp = exp })
    else none
read_token t token = none

abbrev lib : Libraries
lib = record {
  encode = λ c. c.iat ∷ c.exp ∷ [];
  decode = read_token;
  verify_password = λ password hash. true;
  strip = λ t. t;
}

abbrev request : Request example_env
request = record {
  seconds = 10;
  authorization = codes "Bearer " ++ (1 ∷ 900 ∷ []);
  action_id = 7;
  reason = [];
  idem_key = some (codes "k");
}

abbrev events : List (Event example_env)
events = ticked 50 ∷ approving 60 request ∷ rejecting 70 request ∷ []

waiting-AllApproved : AllApproved waiting_db
waiting-AllApproved = (inr (inl refl), tt)

run-AllApproved_example : AllApproved (run example_env lib (ann ∷ []) events waiting_db)
run-AllApproved_example =
    run-AllApproved example_env lib (ann ∷ []) events waiting_db waiting-AllApproved

waiting-IsIntact : IsIntact short_hashing waiting_db.audit
unfolding verify_chain
waiting-IsIntact = refl

run-IsIntact_example :
    IsIntact short_hashing (run example_env lib (ann ∷ []) events waiting_db).audit
    × Extends short_hashing waiting_db.audit
        (run example_env lib (ann ∷ []) events waiting_db).audit
run-IsIntact_example = run-IsIntact example_env lib (ann ∷ []) events waiting_db waiting-IsIntact

abbrev key : Option Text
key = some (codes "k")

abbrev rejection : Decision
rejection = record (decision (codes "no")) { decision = "reject" }

abbrev rejected_row : ActionRow
rejected_row =
    with_key key (row_after example_env 60 rejection rejected (action_in pending_approval))

abbrev rejected_db : Db
rejected_db =
    let stored =
      db_after example_env 60 rejection rejected (action_in pending_approval) waiting_db in
    record stored { actions = put_action rejected_row stored.actions }

rejecting-answered :
    decide_request example_env 60 rejection key waiting_db
    ≡ (decided rejected_row false, rejected_db)
unfolding decide_request decide_fresh find_replay settle get_action state_eq is_given decide has_key
    decide_row
rejecting-answered =
    ap (λ r. settle example_env key waiting_db r)
      ((decide_rejects example_env 60 rejection (action_in pending_approval) waiting_db refl refl
        refl refl).0)

decide_request_replays_example :
    (b : ActionRow) × (decide_request example_env 70 (decision (codes "yes")) key rejected_db
      ≡ (decided b true, rejected_db))
    × (has_key key b ≡ true)
unfolding is_given has_key with_key get_action put_action moved_row stamp_decided text_eq
decide_request_replays_example =
    decide_request_replays example_env 60 70 rejection (decision (codes "yes")) key waiting_db
      rejected_db rejected_row rejected_row rejecting-answered refl refl refl

-- An analyst, whose tokens are accepted, and an incident with one detection.
abbrev bob : UserRow
bob = record { id = 3; email = "ann"; password_hash = "hash"; role = "analyst"; disabled = false }

abbrev seen : CandidateRow
seen = record {
  id = 4;
  entity_id = 7;
  detector = "port_velocity";
  detector_version = 1;
  score = 5000;
  severity = 2;
  observed = none;
  metric = none;
  event_ts = 100;
  identifier = codes "host";
}

abbrev tables : Tables
tables = record {
  detections = seen ∷ [];
  incidents =
      record {
        id = 1;
        status = "open";
        title = [];
        narrative = [];
        risk_score = 5000;
        techniques = [];
        correlation_mode = "rules";
        entity_id = 7;
        detection_count = 1;
        first_seen_at = 100;
        last_seen_at = 100;
      }
      ∷ [];
  links = record { incident_id = 1; detection_id = 4 } ∷ [];
  llm_calls = [];
  cursor = some 4;
  next_id = 2;
}

analyze_incident-Refused_example :
    Refused lib
      (bob ∷ [])
      (λ t. [])
      (λ p. [])
      ℕ
      (λ entity draft facts ids g. (none, g))
      tables
      0
      (analyze_incident lib
        (bob ∷ [])
        (λ t. [])
        (λ p. [])
        ℕ
        (λ entity draft facts ids g. (none, g))
        settings
        10
        (codes "Bearer " ++ (1 ∷ 900 ∷ []))
        1
        tables
        0)
analyze_incident-Refused_example =
    analyze_incident-Refused lib (bob ∷ []) (λ t. []) (λ p. []) ℕ
      (λ entity draft facts ids g. (none, g)) settings 10 (codes "Bearer " ++ (1 ∷ 900 ∷ [])) 1
      tables 0

-- It is the unpacking that fails here: the user, the keys and the evidence are there.
unpacking_fails :
    (analyze_incident lib
      (bob ∷ [])
      (λ t. [])
      (λ p. [])
      ℕ
      (λ entity draft facts ids g. (none, g))
      settings
      10
      (codes "Bearer " ++ (1 ∷ 900 ∷ []))
      1
      tables
      0).0
    ≡ refused (http_error 500 "ValueError")
unfolding analyze_incident analyze_as analyze_found analyze_linked analyze_rows facts_rows facts_row
    unpack_pair columns linked_rows is_linked has_no_key get_row get_current_user has_bearer
    after_space or_refuse find_user require_roles lower text_eq
unpacking_fails = refl
