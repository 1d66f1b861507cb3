-- ===== src/Audit/Tamper.antt =====
-- What the hash chain of src/app/orchestration/audit.py protects, and what it leaves open.
use sentraxis.Prelude.{
  ℕ, ◌+◌, ◌≡◌, refl, sym, ◌∙◌, ◌≢◌, ◌⊎◌, inl, inr, true, false, Option, List, [], ◌∷◌, ◌++◌, map,
  String, Text, text_eq, text_eq_iff, All, length, arith, Bool-cases,
}
use mathlib.Core.List.{append_assoc}
use sentraxis.Audit.{
  Hashing, AuditLogRow, AuditLog, genesis, bar, canonical_payload, material, compute_entry_hash,
  row_hash, last_hash, verify_from, verify_chain,
}
use sentraxis.Audit.Chain.{Chain, IsIntact, Chain-append, IsIntact-iff-Chain}

abbrev pub NoBar : Text → Type 0
NoBar = All (λ c. c ≢ bar)

-- A text with no separator is determined by what stands before the first separator.
pub bar_split :
    (a b x y : Text) → NoBar a → NoBar b → a ++ bar ∷ x ≡ b ++ bar ∷ y → (a ≡ b) × (x ≡ y)
bar_split [] [] x y p q e = (refl, cc)
bar_split [] (b ∷ bs) x y p q e = absurd (q.0 (cc))
bar_split (a ∷ as') [] x y p q e = absurd (p.0 (cc))
bar_split (a ∷ as') (b ∷ bs) x y p q e =
    let (same, rest) = bar_split as' bs x y p.1 q.1 (cc) in (cc, rest)

module _ (h : Hashing) where
  -- The texts of the row that are joined by the separator do not hold it.
  pub record IsPlain (row : AuditLogRow) : Type 0 where
    pub stamp : NoBar (h.isoformat row.ts)
    pub actor : NoBar row.actor
    pub event_type : NoBar row.event_type
    pub hash : NoBar row.hash

  -- The two rows say the same in all that is hashed.
  pub record SameContent (r s : AuditLogRow) : Type 0 where
    pub stamp : h.isoformat r.ts ≡ h.isoformat s.ts
    pub actor : r.actor ≡ s.actor
    pub event_type : r.event_type ≡ s.event_type
    pub payload : canonical_payload h r.payload ≡ canonical_payload h s.payload

  abbrev pub SameContents : List AuditLogRow → List AuditLogRow → Type 0
  SameContents [] [] = Unit
  SameContents (r ∷ rs) (s ∷ ss) = SameContent r s × SameContents rs ss
  SameContents _ _ = ⊥

  -- Two different texts with one digest.
  abbrev pub Collision : Type 0
  Collision = (a : Text) × (b : Text) × (a ≢ b) × (h.sha256_hex a ≡ h.sha256_hex b)

  abbrev row_material : Text → AuditLogRow → Text
  row_material prev r =
      material h prev (h.isoformat r.ts) r.actor r.event_type (canonical_payload h r.payload)

  row_material_split :
      (p q : Text) (r s : AuditLogRow)
      → NoBar p
      → NoBar q
      → IsPlain r
      → IsPlain s
      → row_material p r ≡ row_material q s
      → (p ≡ q) × SameContent r s
  unfolding material
  row_material_split p q r s np nq ir is e =
      let (e0, e1) = bar_split p q _ _ np nq e in
      let (e2, e3) = bar_split _ _ _ _ ir.stamp is.stamp e1 in
      let (e4, e5) = bar_split _ _ _ _ ir.actor is.actor e3 in
      let (e6, e7) = bar_split _ _ _ _ ir.event_type is.event_type e5 in
      (e0, record { stamp = e2; actor = e4; event_type = e6; payload = e7 })

  row_hash-or-Collision :
      (p q : Text) (r s : AuditLogRow)
      → row_hash h p r ≡ row_hash h q s
      → (row_material p r ≡ row_material q s) ⊎ Collision
  unfolding row_hash
  row_hash-or-Collision p q r s e =
      elim (Bool-cases (text_eq (row_material p r) (row_material q s))) [
        | inl same ↦ inl ((text_eq_iff _ _).0 same)
        | inr other ↦ inr (
          row_material p r,
          row_material q s,
          (λ same. differ ((text_eq_iff _ _).1 same) other),
          e,
        )
      ]
    where
      differ :
          text_eq (row_material p r) (row_material q s) ≡ true
          → text_eq (row_material p r) (row_material q s) ≡ false
          → ⊥
      differ a b = cc

  Chain-determined :
      (p q : Text) (xs ys : List AuditLogRow)
      → NoBar p
      → NoBar q
      → All IsPlain xs
      → All IsPlain ys
      → Chain h p xs
      → Chain h q ys
      → length xs ≡ length ys
      → last_hash h p xs ≡ last_hash h q ys
      → ((p ≡ q) × SameContents xs ys) ⊎ Collision
  unfolding last_hash
  Chain-determined p q [] [] np nq px py cx cy l e = inl (e, tt)
  Chain-determined p q [] (y ∷ ys) np nq px py cx cy l e = absurd (omega arith)
  Chain-determined p q (x ∷ xs) [] np nq px py cx cy l e = absurd (omega arith)
  Chain-determined p q (x ∷ xs) (y ∷ ys) np nq px py cx cy l e =
      elim (Chain-determined x.hash y.hash xs ys px.0.hash py.0.hash px.1 py.1 cx.1 cy.1
        (omega arith) e) [
          | inr c ↦ inr c
          | inl (same, rest) ↦ elim (row_hash-or-Collision p q x y (sym cx.0.1 ∙ same ∙ cy.0.1)) [
            | inr c ↦ inr c
            | inl m ↦
                let (first, content) = row_material_split p q x y np nq px.0 py.0 m in
                inl (first, (content, rest))
          ]
        ]

  genesis-NoBar : NoBar genesis
  genesis-NoBar = omega arith

  -- Two logs of one length that both pass verification and end in the same hash agree, row by row,
  -- in every hashed text, or else exhibit a collision of the digest; the time stamps, actors, event
  -- types and hashes are assumed to be free of the separator.
  pub verify_chain_binds :
      (old new : AuditLog)
      → IsIntact h old
      → IsIntact h new
      → All IsPlain old.rows
      → All IsPlain new.rows
      → length old.rows ≡ length new.rows
      → last_hash h genesis old.rows ≡ last_hash h genesis new.rows
      → SameContents old.rows new.rows ⊎ Collision
  verify_chain_binds old new io in' po pn l e =
      elim (Chain-determined genesis genesis old.rows new.rows genesis-NoBar genesis-NoBar po pn
        ((IsIntact-iff-Chain h old).0 io) ((IsIntact-iff-Chain h new).0 in') l e) [
          | inl (_, same) ↦ inl same
          | inr c ↦ inr c
        ]

  -- Dropping the newest rows of a log that passes verification leaves a log that passes.
  truncation-IsIntact :
      (next_seq : ℕ) (kept dropped : List AuditLogRow)
      → IsIntact h (record { rows = kept ++ dropped; next_seq = next_seq })
      → IsIntact h (record { rows = kept; next_seq = next_seq })
  truncation-IsIntact next_seq kept dropped i =
      (IsIntact-iff-Chain h _).1
        ((Chain-append h genesis kept dropped).0 ((IsIntact-iff-Chain h _).0 i)).0

  abbrev pub with_refs : (AuditLogRow → Option String × Option ℕ) → AuditLogRow → AuditLogRow
  with_refs f row = record row { ref_type = (f row).0; ref_id = (f row).1 }

  verify_from-with_refs :
      (f : AuditLogRow → Option String × Option ℕ) (prev : Text) (n : ℕ) (rows : List AuditLogRow)
      → verify_from h prev n (map (with_refs f) rows) ≡ verify_from h prev n rows
  unfolding verify_from
  verify_from-with_refs f prev n [] = refl
  verify_from-with_refs f prev n (row ∷ rows) = rw (verify_from-with_refs f row.hash (n + 1) rows)

  -- The references of a row are not hashed: rewriting them in any rows, in any way, does not change
  -- the result of verification.
  pub verify_chain-with_refs :
      (f : AuditLogRow → Option String × Option ℕ) (log : AuditLog)
      → verify_chain h (record log { rows = map (with_refs f) log.rows }) ≡ verify_chain h log
  unfolding verify_chain
  verify_chain-with_refs f log = verify_from-with_refs f genesis 0 log.rows

  -- The separator can move: text behind a separator inside the actor can be counted to the event
  -- type, and the entry keeps its hash.
  pub compute_entry_hash_ambiguous :
      (prev ts actor moved event_type payload : Text)
      → compute_entry_hash h prev ts (actor ++ bar ∷ moved) event_type payload
        ≡ compute_entry_hash h prev ts actor (moved ++ bar ∷ event_type) payload
  unfolding compute_entry_hash material
  compute_entry_hash_ambiguous prev ts actor moved event_type payload = cc (
    append_assoc actor (bar ∷ moved) (bar ∷ (event_type ++ bar ∷ payload)),
    append_assoc moved (bar ∷ event_type) (bar ∷ payload),
  )
