-- ===== src/Ingest/Settle.antt =====
-- What one batch of src/app/workers/normalizer.py leaves pending.
use sentraxis.Prelude.{
  ℕ, ◌≡◌, refl, subst, ◌∙◌, ap, ◌⊎◌, inl, inr, Bool, true, false, Option, none, some, List, [], ◌∷◌,
  ◌++◌, Text, length, any, take, All, All-map, arith,
}
use sentraxis.Ingest.Repository.{
  CanonicalEvent, Parsed, malformed, overflowing, parsed, are_storable,
}
use sentraxis.Ingest.Normalizer.{
  Entry, transient_db_error, Pipe, inline_retry_attempts, is_in, ack, dead_letter, msg_ids,
  events_of, reject_entry, accept_entry, parse_entry, reason_for, Sorting, with_event, sort_entries,
  persist_valid, fresh_result, process_batch,
}
use sentraxis.Ingest.Acked.{
  Gone, keep_gone, keep_acked, is_in-head, is_refusing, Refused, Persisted,
  persist_and_ack-Persisted,
}

module _ (parse_event_payload : Text → Parsed) (dump : CanonicalEvent → Text) (now : ℕ) where
  -- The events among the entries, and whether parsing one of them overflows.
  abbrev pub add_parsed : Parsed → List CanonicalEvent → List CanonicalEvent
  add_parsed malformed es = es
  add_parsed overflowing es = es
  add_parsed (parsed e) es = e ∷ es

  abbrev pub overflows : Parsed → Bool
  overflows overflowing = true
  overflows malformed = false
  overflows (parsed e) = false

  abbrev pub parsed_events : List Entry → List CanonicalEvent
  parsed_events [] = []
  parsed_events (e ∷ es) =
      add_parsed (parse_entry parse_event_payload dump now e.payload) (parsed_events es)

  abbrev pub any_overflows : List Entry → Bool
  any_overflows entries =
      any (λ e. overflows (parse_entry parse_event_payload dump now e.payload)) entries

  -- The entries that are settled or kept for storing, with the rest of the pipe as it was.
  abbrev Kept : List Entry → Pipe → Sorting parse_event_payload dump now → Type 0
  Kept entries p r =
      ((i : ℕ) → Gone p i → Gone r.1 i)
      × (((r.1).result.errors ≡ p.result.errors)
          × (((r.1).faults ≡ p.faults)
              × ((events_of parse_event_payload dump now r.0 ≡ parsed_events entries)
                  × All
                      (λ (e : Entry).
                        (Gone r.1 e.msg_id)
                        ⊎ (is_in e.msg_id (msg_ids parse_event_payload dump now r.0) ≡ true))
                      entries)))

  abbrev Sorted : List Entry → Pipe → Option (Sorting parse_event_payload dump now) → Type 0
  Sorted entries p o =
      ((r : Sorting parse_event_payload dump now) × ((o ≡ some r) × Kept entries p r))
      ⊎ ((o ≡ none) × (any_overflows entries ≡ true))

  reject_entry-Gone :
      (entry : Entry) (t : Text) (p : Pipe)
      → ((i : ℕ) → Gone p i → Gone (reject_entry parse_event_payload dump now entry t p) i)
        × ((Gone (reject_entry parse_event_payload dump now entry t p) entry.msg_id)
            × (((reject_entry parse_event_payload dump now entry t p).result.errors
                  ≡ p.result.errors)
                × ((reject_entry parse_event_payload dump now entry t p).faults ≡ p.faults)))
  unfolding reject_entry dead_letter ack
  reject_entry-Gone entry t p = (
    λ i g. keep_gone i (entry.msg_id ∷ []) p.pending g,
    (
      keep_acked entry.msg_id (entry.msg_id ∷ []) p.pending (is_in-head entry.msg_id []),
      (refl, refl),
    ),
  )

  Sorted-next :
      (entry : Entry) (entries : List Entry) (p : Pipe) (o : Parsed)
      → ((q : Pipe) → Sorted entries q (sort_entries parse_event_payload dump now entries q))
      → parse_entry parse_event_payload dump now entry.payload ≡ o
      → Sorted (entry ∷ entries) p (sort_entries parse_event_payload dump now (entry ∷ entries) p)
  unfolding sort_entries accept_entry msg_ids events_of is_in with_event
  Sorted-next entry entries p overflowing ih e = rw (e, sort_entries) (inr (refl, refl))
  Sorted-next entry entries p malformed ih e =
      let t = reason_for parse_event_payload dump now entry.payload in
      let q = reject_entry parse_event_payload dump now entry t p in
      let (keeps, (gone, (same, faults))) = reject_entry-Gone entry t p in
      rw (e, sort_entries)
        (elim (ih q) [
          | inl (r, (ok', (k, (er, (fs, (es, all')))))) ↦ inl (
            r,
            (
              ok',
              (
                λ i g. k i (keeps i g),
                (er ∙ same, (fs ∙ faults, (es, (inl (k entry.msg_id gone), all')))),
              ),
            ),
          )
          | inr h ↦ inr h
        ])
  Sorted-next entry entries p (parsed ev) ih e =
      rw (e, sort_entries)
        (elim (ih (accept_entry parse_event_payload dump now p)) [
          | inl (r, (ok', (k, (er, (fs, (es, all')))))) ↦ inl (
            ((entry.msg_id, ev) ∷ r.0, r.1),
            (
              rw ok' refl,
              (
                k,
                (
                  er,
                  (
                    fs,
                    (
                      ap (λ l. ev ∷ l) es,
                      (
                        inr (is_in-head entry.msg_id (msg_ids parse_event_payload dump now r.0)),
                        All-map (longer ev r) entries all',
                      ),
                    ),
                  ),
                ),
              ),
            ),
          )
          | inr (out, h) ↦ inr (rw out refl, h)
        ])
    where
      longer :
          (ev : CanonicalEvent) (r : Sorting parse_event_payload dump now) (e : Entry)
          → (Gone r.1 e.msg_id) ⊎ (is_in e.msg_id (msg_ids parse_event_payload dump now r.0) ≡ true)
          → (Gone r.1 e.msg_id)
            ⊎ (is_in e.msg_id (msg_ids parse_event_payload dump now ((entry.msg_id, ev) ∷ r.0))
                ≡ true)
      longer ev r e (inl g) = inl g
      longer ev r e (inr h) = inr (ground arith)

  sort_entries-Sorted :
      (entries : List Entry) (p : Pipe)
      → Sorted entries p (sort_entries parse_event_payload dump now entries p)
  unfolding sort_entries events_of
  sort_entries-Sorted [] p = inl (([], p), (refl, (λ i g. g, (refl, (refl, (refl, tt))))))
  sort_entries-Sorted (entry ∷ entries) p =
      Sorted-next entry entries p (parse_entry parse_event_payload dump now entry.payload)
        (sort_entries-Sorted entries) refl

  persist_valid-Persisted :
      (r : Sorting parse_event_payload dump now)
      → Persisted parse_event_payload dump now inline_retry_attempts r.0 r.1
          (persist_valid parse_event_payload dump now (some r))
  unfolding persist_valid msg_ids is_in
  persist_valid-Persisted ([], p) = inl (record {
    pipe = p;
    returns = refl;
    settles = inl (λ i o. elim o [ inl g ↦ g | inr h ↦ cc ]);
  })
  persist_valid-Persisted (v ∷ vs, p) =
      persist_and_ack-Persisted parse_event_payload dump now inline_retry_attempts (v ∷ vs) p

  -- Either the batch is processed to the end, and then every entry of it is acknowledged, or it was
  -- deferred, its only error being the one of the third failed attempt, which leaves the parsed
  -- entries to be claimed again; or an exception escapes, and then the stamp of an entry overflows,
  -- a text does not fit its column, or the database refused a value within three attempts.
  pub process_batch-settles :
      (entries : List Entry) (p : Pipe)
      → ((after : Pipe) × (process_batch parse_event_payload dump now entries p ≡ some after)
          × ((All (λ (e : Entry). Gone after e.msg_id) entries)
              ⊎ (after.result.errors ≡ transient_db_error inline_retry_attempts ∷ [])))
        ⊎ ((process_batch parse_event_payload dump now entries p ≡ none)
            × ((any_overflows entries ≡ true)
                ⊎ ((any is_refusing (take inline_retry_attempts p.faults) ≡ true)
                    ⊎ (are_storable (parsed_events entries) ≡ false))))
  unfolding process_batch fresh_result persist_valid
  process_batch-settles entries p =
      let p' : Pipe = record p {
        result = fresh_result parse_event_payload dump now (length entries);
      } in
      elim (sort_entries-Sorted entries p') [
        | inr (out, why) ↦ inr (rw (out, process_batch) refl, inl why)
        | inl (r, (sorted, (k, (same, (faults, (events, all')))))) ↦
            elim (persist_valid-Persisted r) [
              | inl s ↦ inl (
                s.pipe,
                rw (sorted, process_batch) s.returns,
                elim s.settles [
                  | inl every ↦ inl (All-map (λ e o. every e.msg_id o) entries all')
                  | inr (_, failed) ↦ inr (
                      failed
                      ∙ ap (λ es. es ++ (transient_db_error inline_retry_attempts ∷ [])) same)
                ],
              )
              | inr (out, why) ↦ inr (
                rw (sorted, process_batch) out,
                inr (
                    subst
                      (λ fs.
                        (any is_refusing (take inline_retry_attempts fs) ≡ true)
                        ⊎ (are_storable (parsed_events entries) ≡ false))
                      faults
                      (subst
                        (λ es.
                          Refused parse_event_payload dump now inline_retry_attempts (r.1).faults
                            es)
                        events why)),
              )
            ]
      ]
