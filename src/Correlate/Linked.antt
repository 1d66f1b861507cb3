-- ===== src/Correlate/Linked.antt =====
-- What a tick of src/app/workers/correlator.py writes for the detections that it read.
use sentraxis.Prelude.{
  ℕ, ◌≤◌, ◌≡◌, ◌≢◌, refl, inl, inr, subst, Bool, true, false, Option, none, some, List, [], ◌∷◌,
  String, Text, ◌==◌, All, All-map, All-append, arith, Bool-cases,
}
use sentraxis.Correlate.Rules.{DetectionFact}
use sentraxis.Correlate.Covers.{In, In-append}
use sentraxis.Correlate.Draft.{IncidentDraft}
use sentraxis.Correlate.Facts.{CandidateRow, Projection, analysis_facts_from_rows}
use sentraxis.Correlate.Analysis.{Analysis}
use sentraxis.Correlate.Agent.{Analyzed}
use sentraxis.Correlate.Worker.{
  IncidentRow, IncidentDetectionRow, LlmCallRow, Db, AgentLike, find_row, find_rows, new_incident,
  links_of, enrich, apply_answer, call_row, save_incident, with_agent, create_incident,
}

abbrev pub HasRow : List CandidateRow → ℕ → Type 0
HasRow rows did = (r : CandidateRow) × (find_row rows did ≡ some r)

pub In-HasRow : (r : CandidateRow) (rows : List CandidateRow) → In r rows → HasRow rows r.id
unfolding find_row
In-HasRow r [] h = elim h [ ]
In-HasRow r (s ∷ rows) h = elim (Bool-cases (s.id == r.id)) [
  | inl e ↦ rw e (s, refl)
  | inr e ↦ rw e (elim h [
    | inl q ↦ absurd (differs s.id r.id e (subst (λ (x : CandidateRow). s.id ≡ x.id) q refl))
    | inr q ↦ In-HasRow r rows q
  ])
]
  where
    differs : (a b : ℕ) → (a == b) ≡ false → a ≡ b → ⊥
    differs a b e q = ground arith

find_rows-some :
    (rows : List CandidateRow) (dids : List ℕ)
    → All (HasRow rows) dids
    → (rs : List CandidateRow) × (find_rows rows dids ≡ some rs)
unfolding find_rows
find_rows-some rows [] all = ([], refl)
find_rows-some rows (did ∷ dids) ((r, e), all) =
    let (rs, es) = find_rows-some rows dids all in (r ∷ rs, rw (e, es, find_rows) refl)

-- The agent has changed neither the incident's identity nor its evidence, nor lowered its risk.
abbrev pub Enriched : IncidentRow → IncidentRow → Type 0
Enriched i j =
    (j.id ≡ i.id)
    × (j.entity_id ≡ i.entity_id)
    × (j.first_seen_at ≡ i.first_seen_at)
    × (j.last_seen_at ≡ i.last_seen_at)
    × (i.risk_score ≤ j.risk_score)

apply_answer-Enriched :
    (answer : Option Analyzed) (i : IncidentRow) → Enriched i (apply_answer answer i)
unfolding apply_answer enrich
apply_answer-Enriched none i = (refl, refl, refl, refl, omega arith)
apply_answer-Enriched (some answer) i = go answer.analysis
  where
    go : (a : Option Analysis) → Enriched i (apply_answer (some (record answer { analysis = a })) i)
    go none = (refl, refl, refl, refl, omega arith)
    go (some a) = (refl, refl, refl, refl, omega arith)

-- An incident of the entity of the detection is linked to it: the risk is at least the score, and the
-- times enclose the stamp.
abbrev pub Linked : Db → DetectionFact → Type 0
Linked db f =
    (i : IncidentRow) × In i db.incidents
    × In (record { incident_id = i.id; detection_id = f.detection_id }) db.links
    × (i.entity_id ≡ f.entity_id)
    × (f.score ≤ i.risk_score)
    × (i.first_seen_at ≤ f.event_ts)
    × (f.event_ts ≤ i.last_seen_at)

-- What was linked stays linked.
abbrev pub Grows : Db → Db → Type 0
Grows db db' =
    (db'.detections ≡ db.detections)
    × (db'.cursor ≡ db.cursor)
    × ((f : DetectionFact) → Linked db f → Linked db' f)

pub save_incident-Grows :
    (i : IncidentRow) (dids : List ℕ) (calls : List LlmCallRow) (db : Db)
    → Grows db (save_incident i dids calls db)
unfolding save_incident
save_incident-Grows i dids calls db = (
  refl,
  refl,
  λ f h.
      let (j, a, b, c, d, first, last) = h in
      (j, In-append j db.incidents _ (inl a), In-append _ db.links _ (inl b), c, d, first, last),
)

pub In-links_of :
    (id did : ℕ) (dids : List ℕ)
    → In did dids
    → In (record { incident_id = id; detection_id = did }) (links_of id dids)
unfolding links_of
In-links_of id did [] h = elim h [ ]
In-links_of id did (d ∷ dids) (inl e) = inl (rw e refl)
In-links_of id did (d ∷ dids) (inr h) = inr (In-links_of id did dids h)

-- No incident is linked to the detection.
abbrev pub Unlinked : Db → ℕ → Type 0
Unlinked db did = All (λ (l : IncidentDetectionRow). l.detection_id ≢ did) db.links

links_of-All :
    (id did : ℕ) (dids : List ℕ)
    → All (λ n. n ≢ did) dids
    → All (λ (l : IncidentDetectionRow). l.detection_id ≢ did) (links_of id dids)
unfolding links_of
links_of-All id did [] all = tt
links_of-All id did (d ∷ dids) (p, all) = (p, links_of-All id did dids all)

pub save_incident-Unlinked :
    (i : IncidentRow) (dids : List ℕ) (calls : List LlmCallRow) (db : Db) (did : ℕ)
    → All (λ n. n ≢ did) dids
    → Unlinked db did
    → Unlinked (save_incident i dids calls db) did
unfolding save_incident
save_incident-Unlinked i dids calls db did others none' =
    All-append _ db.links (links_of i.id dids) none' (links_of-All i.id did dids others)

-- A detection that stands in none of these facts gets no link.
abbrev pub Spares : Db → List DetectionFact → Db → Type 0
Spares db fs db' =
    (did : ℕ)
    → All (λ (f : DetectionFact). f.detection_id ≢ did) fs
    → Unlinked db did
    → Unlinked db' did

module _ (title_of : ℕ → List String → Text) (narrative_of : ℕ → ℕ → ℕ → ℕ → Text)
    (isoformat : ℕ → Text) (dumps : Projection → Text) (G : Type 0) where
  -- Creating an incident succeeds, and saves it with the draft's links.
  pub create_incident-saved :
      (agent : Option (AgentLike title_of narrative_of isoformat dumps G))
      (rows : List CandidateRow) (draft : IncidentDraft) (identifier : Text) (db : Db) (g : G)
      → All (HasRow rows) draft.detection_ids
      → (i : IncidentRow) × (calls : List LlmCallRow) × (after : G) × (create_incident title_of
            narrative_of isoformat dumps G agent rows draft identifier db g
          ≡ (true, (save_incident i draft.detection_ids calls db, after)))
        × Enriched (new_incident db.next_id draft identifier) i
  unfolding create_incident with_agent
  create_incident-saved none rows draft identifier db g all =
      (new_incident db.next_id draft identifier, [], g, refl, (refl, refl, refl, refl, omega arith))
  create_incident-saved (some agent) rows draft identifier db g all =
      let i = new_incident db.next_id draft identifier in
      let (rs, e) = find_rows-some rows draft.detection_ids all in
      let (answer, after) =
        agent identifier draft (analysis_facts_from_rows isoformat dumps rs) draft.detection_ids
          g in
      (
        apply_answer answer i,
        call_row answer ∷ [],
        after,
        rw (e, with_agent) refl,
        apply_answer-Enriched answer i,
      )

  -- The score of a detection is at most one, and its row is there.
  abbrev pub IsReady : List CandidateRow → DetectionFact → Type 0
  IsReady rows f = HasRow rows f.detection_id × (f.score ≤ 10000)

  -- A round of the loop does not raise, and links every detection of its cluster.
  abbrev pub Done : Db → List DetectionFact → Bool × (Db × G) → Type 0
  Done db c ran = (ran.0 ≡ true) × Grows db ran.1.0 × Spares db c ran.1.0 × All (Linked ran.1.0) c

  pub cluster-ready :
      (rows : List CandidateRow) (c : List DetectionFact)
      → All (IsReady rows) c
      → All (λ (f : DetectionFact). HasRow rows f.detection_id) c
        × All (λ (f : DetectionFact). f.score ≤ 10000) c
  cluster-ready rows c all =
      (All-map (λ f ready. ready.0) c all, All-map (λ f ready. ready.1) c all)
