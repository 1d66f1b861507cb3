-- ===== src/Audit/Chain.antt =====
-- verify_chain and append_entry of src/app/orchestration/audit.py against the relation of being
-- linked.
use sentraxis.Prelude.{
  ℕ, ◌+◌, ◌≡◌, refl, ◌↔◌, Option, none, some, List, [], ◌∷◌, ◌++◌, String, Text, text_eq_iff,
  length, arith,
}
use sentraxis.Audit.{
  Hashing, AuditLogRow, AuditLog, Fields, genesis, row_hash, last_hash, new_row, append_entry,
  verify_from, verify_chain,
}

module _ (h : Hashing) where
  -- The row links to the hash before it, and carries the hash of its own content.
  abbrev pub IsLinked : Text → AuditLogRow → Type 0
  IsLinked prev row = (row.prev_hash ≡ prev) × (row.hash ≡ row_hash h prev row)

  abbrev pub Chain : Text → List AuditLogRow → Type 0
  Chain prev [] = Unit
  Chain prev (row ∷ rows) = IsLinked prev row × Chain row.hash rows

  abbrev pub IsIntact : AuditLog → Type 0
  IsIntact log = verify_chain h log ≡ (length log.rows, none)

  pub Chain-verify_from :
      (prev : Text) (n : ℕ) (rows : List AuditLogRow)
      → Chain prev rows
      → verify_from h prev n rows ≡ (n + length rows, none)
  unfolding verify_from
  Chain-verify_from prev n [] c = ground arith
  Chain-verify_from prev n (row ∷ rows) c = ground (
    arith,
    text_eq_iff row.prev_hash prev,
    text_eq_iff row.hash (row_hash h prev row),
    Chain-verify_from row.hash (n + 1) rows c.1,
  )

  pub verify_from-Chain :
      (prev : Text) (n : ℕ) (rows : List AuditLogRow)
      → (verify_from h prev n rows).1 ≡ none
      → Chain prev rows
  unfolding verify_from
  verify_from-Chain prev n [] e = tt
  verify_from-Chain prev n (row ∷ rows) e = ground (
    arith,
    text_eq_iff row.prev_hash prev,
    text_eq_iff row.hash (row_hash h prev row),
    verify_from-Chain row.hash (n + 1) rows,
  )

  pub Chain-append :
      (prev : Text) (xs ys : List AuditLogRow)
      → Chain prev (xs ++ ys) ↔ (Chain prev xs × Chain (last_hash h prev xs) ys)
  unfolding last_hash
  Chain-append prev [] ys = (λ c. (tt, c), λ c. c.1)
  Chain-append prev (x ∷ xs) ys =
      let ih = Chain-append x.hash xs ys in
      (λ c. ((c.0, (ih.0 c.1).0), (ih.0 c.1).1), λ c. (c.0.0, ih.1 (c.0.1, c.1)))

  pub new_row-IsLinked :
      (now : ℕ) (log : AuditLog) (actor event_type : Text) (payload : Fields)
      (ref_type : Option String) (ref_id : Option ℕ)
      → IsLinked
          (last_hash h genesis log.rows)
          (new_row h now log actor event_type payload ref_type ref_id)
  unfolding new_row
  new_row-IsLinked now log actor event_type payload ref_type ref_id = (refl, refl)

  pub append_entry-Chain :
      (now : ℕ) (log : AuditLog) (actor event_type : Text) (payload : Fields)
      (ref_type : Option String) (ref_id : Option ℕ)
      → Chain genesis log.rows
      → Chain genesis (append_entry h now log actor event_type payload ref_type ref_id).rows
  unfolding append_entry
  append_entry-Chain now log actor event_type payload ref_type ref_id c =
      (Chain-append genesis log.rows _).1
        (c, (new_row-IsLinked now log actor event_type payload ref_type ref_id, tt))

  -- A log passes verification exactly when every row is linked to the row before it.
  pub IsIntact-iff-Chain : (log : AuditLog) → IsIntact log ↔ Chain genesis log.rows
  unfolding verify_chain
  IsIntact-iff-Chain log = (
    λ e. verify_from-Chain genesis 0 log.rows (ap1 e),
    λ c. rw (Chain-verify_from genesis 0 log.rows c) (ground arith),
  )
    where
      ap1 :
          verify_from h genesis 0 log.rows ≡ (length log.rows, none)
          → (verify_from h genesis 0 log.rows).1 ≡ none
      ap1 e = cc

  -- Appending an entry to a log that passes verification gives a log that passes with one row more.
  pub append_entry-IsIntact :
      (now : ℕ) (log : AuditLog) (actor event_type : Text) (payload : Fields)
      (ref_type : Option String) (ref_id : Option ℕ)
      → IsIntact log
      → IsIntact (append_entry h now log actor event_type payload ref_type ref_id)
  append_entry-IsIntact now log actor event_type payload ref_type ref_id i =
      (IsIntact-iff-Chain _).1 (
        append_entry-Chain now log actor event_type payload ref_type ref_id
          ((IsIntact-iff-Chain log).0 i))

  verify_from_reports :
      (prev : Text) (n : ℕ) (good : List AuditLogRow) (bad : AuditLogRow) (rest : List AuditLogRow)
      → Chain prev good
      → ¬ (IsLinked (last_hash h prev good) bad)
      → verify_from h prev n (good ++ bad ∷ rest) ≡ (n + length good, some bad.seq)
  unfolding verify_from last_hash
  verify_from_reports prev n [] bad rest c broken = ground (
    arith,
    text_eq_iff bad.prev_hash prev,
    text_eq_iff bad.hash (row_hash h prev bad),
    λ (p : bad.prev_hash ≡ prev) (q : bad.hash ≡ row_hash h prev bad). broken (p, q),
  )
  verify_from_reports prev n (row ∷ good) bad rest c broken = ground (
    arith,
    text_eq_iff row.prev_hash prev,
    text_eq_iff row.hash (row_hash h prev row),
    verify_from_reports row.hash (n + 1) good bad rest c.1 broken,
  )

  -- When a linked prefix is followed by a row that is not linked to it, verification stops there:
  -- it returns the length of the prefix and the sequence number of that row.
  pub verify_chain_reports :
      (next_seq : ℕ) (good : List AuditLogRow) (bad : AuditLogRow) (rest : List AuditLogRow)
      → Chain genesis good
      → ¬ (IsLinked (last_hash h genesis good) bad)
      → verify_chain h (record { rows = good ++ bad ∷ rest; next_seq = next_seq })
        ≡ (length good, some bad.seq)
  unfolding verify_chain
  verify_chain_reports next_seq good bad rest c broken =
      rw (verify_from_reports genesis 0 good bad rest c broken) (ground arith)
