-- ===== src/Audit/Race.antt =====
-- Two transactions that append with src/app/orchestration/audit.py:append_entry at the same time.
-- Each reads the last row that was committed when it began, with no lock, and both commit.
use sentraxis.Prelude.{
  ℕ, ◌+◌, ◌≡◌, refl, ◌≢◌, Option, some, List, [], ◌∷◌, ◌++◌, String, Text, length, length-append,
}
use mathlib.Core.List.{append_assoc}
use sentraxis.Audit.{
  Hashing, AuditLogRow, AuditLog, Fields, genesis, last_hash, new_row, append_entry, verify_chain,
}
use sentraxis.Audit.Chain.{
  Chain, IsIntact, IsIntact-iff-Chain, IsLinked, append_entry-Chain, verify_chain_reports,
}

-- What a caller hands to `append_entry`.
pub record Entry : Type 0 where
  pub now : ℕ
  pub actor : Text
  pub event_type : Text
  pub payload : Fields
  pub ref_type : Option String
  pub ref_id : Option ℕ

module _ (h : Hashing) where
  unfoldable pub row_for : AuditLog → Entry → AuditLogRow
  row_for log e = new_row h e.now log e.actor e.event_type e.payload e.ref_type e.ref_id

  -- Both rows are built from the log as it stood before either; the identity column still counts.
  unfoldable pub append_both : AuditLog → Entry → Entry → AuditLog
  unfolding row_for
  append_both log e f = record {
    rows = log.rows ++ row_for log e ∷ row_for (record log { next_seq = log.next_seq + 1 }) f ∷ [];
    next_seq = log.next_seq + 2;
  }

  second_unlinked :
      (log : AuditLog) (e f : Entry) (g : List AuditLogRow)
      → last_hash h genesis g ≡ (row_for log e).hash
      → (row_for log e).hash ≢ last_hash h genesis log.rows
      → ¬ (
          IsLinked h
            (last_hash h genesis g)
            (row_for (record log { next_seq = log.next_seq + 1 }) f))
  unfolding row_for new_row
  second_unlinked log e f g end ne linked = ne (cc)

  last_hash-snoc :
      (prev : Text) (rows : List AuditLogRow) (r : AuditLogRow)
      → last_hash h prev (rows ++ r ∷ []) ≡ r.hash
  unfolding last_hash
  last_hash-snoc prev [] r = refl
  last_hash-snoc prev (x ∷ rows) r = last_hash-snoc x.hash rows r

  first_linked :
      (log : AuditLog) (e : Entry)
      → IsIntact h log
      → Chain h genesis (log.rows ++ row_for log e ∷ [])
  unfolding row_for append_entry
  first_linked log e i =
      append_entry-Chain h e.now log e.actor e.event_type e.payload e.ref_type e.ref_id
        ((IsIntact-iff-Chain h log).0 i)

  second_seq : (log : AuditLog) (f : Entry) → (row_for log f).seq ≡ log.next_seq
  unfolding row_for new_row
  second_seq log f = refl

  -- Two overlapping appends to a log that passes verification fork the chain: verification stops at
  -- the second of the two rows and reports its sequence number, unless the first row's hash equals
  -- the hash that it was linked to.
  pub append_both_reported :
      (log : AuditLog) (e f : Entry)
      → IsIntact h log
      → (row_for log e).hash ≢ last_hash h genesis log.rows
      → verify_chain h (append_both log e f) ≡ (length log.rows + 1, some (log.next_seq + 1))
  unfolding append_both
  append_both_reported log e f i ne =
      let good = log.rows ++ row_for log e ∷ [] in
      let late = record log { next_seq = log.next_seq + 1 } in
      let stops =
        verify_chain_reports h (log.next_seq + 2) good (row_for late f) [] (first_linked log e i)
          (second_unlinked log e f good (last_hash-snoc genesis log.rows (row_for log e)) ne) in
      cc (
        append_assoc log.rows (row_for log e ∷ []) (row_for late f ∷ []),
        stops,
        length-append log.rows (row_for log e ∷ []),
        second_seq late f,
      )
