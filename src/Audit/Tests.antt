-- ===== src/Audit/Tests.antt =====
-- Two entries of a ledger under a short digest, and the theorems at that ledger.
use sentraxis.Prelude.{
  ℕ, ◌+◌, all, not, ◌==◌, true, ◌≡◌, refl, ◌↔◌, ◌⊎◌, none, some, [], ◌∷◌, ◌++◌, Text, codes, map,
  length, arith,
}
use sentraxis.Audit.{
  Hashing, AuditLogRow, AuditLog, end, append_entry, verify_chain, genesis, last_hash, bar,
  compute_entry_hash, row_hash, new_row, canonical_payload, material,
}
use sentraxis.Audit.Chain.{
  IsLinked, Chain, IsIntact, IsIntact-iff-Chain, append_entry-IsIntact, verify_chain_reports,
}
use sentraxis.Audit.Tamper.{
  NoBar, SameContents, Collision, verify_chain_binds, with_refs, verify_chain-with_refs,
  compute_entry_hash_ambiguous,
}
use sentraxis.Audit.Race.{Entry, row_for, append_both, append_both_reported}

-- The digest of a text is its length, past the code points in use.
abbrev short_hashing : Hashing
short_hashing = record {
  sha256_hex = λ t. (1000 + length t) ∷ [];
  isoformat = λ n. (200 + n) ∷ [];
  dumps = λ f. [];
}

abbrev no_rows : AuditLog
no_rows = record { rows = []; next_seq = 1 }

abbrev one_row : AuditLog
one_row = record {
  rows =
      record {
        seq = 1;
        ts = 5;
        actor = codes "sys";
        event_type = codes "created";
        ref_type = some "action";
        ref_id = some 7;
        payload = end;
        prev_hash = genesis;
        hash = 1079 ∷ [];
      }
      ∷ [];
  next_seq = 2;
}

abbrev rewritten_row : AuditLog
rewritten_row = record one_row {
  rows = map (with_refs short_hashing (λ r. (none, some 99))) one_row.rows;
}

has_no_bar : (t : Text) → all (λ c. not (c == bar)) t ≡ true → NoBar t
has_no_bar [] e = tt
has_no_bar (c ∷ cs) e = ground (arith, has_no_bar cs)

no_rows-IsIntact : IsIntact short_hashing no_rows
unfolding verify_chain
no_rows-IsIntact = refl

one_row-eq :
    append_entry short_hashing 5 no_rows
      (codes "sys")
      (codes "created")
      end
      (some "action")
      (some 7)
    ≡ one_row
unfolding append_entry material
one_row-eq = refl

one_row-IsIntact : IsIntact short_hashing one_row
unfolding verify_chain material
one_row-IsIntact = refl

rewritten_row-IsIntact : IsIntact short_hashing rewritten_row
unfolding verify_chain material
rewritten_row-IsIntact = refl

verify_chain_binds_example :
    SameContents short_hashing one_row.rows rewritten_row.rows ⊎ Collision short_hashing
unfolding last_hash
verify_chain_binds_example =
    verify_chain_binds short_hashing one_row rewritten_row one_row-IsIntact rewritten_row-IsIntact
      (
        record {
          stamp = has_no_bar (205 ∷ []) refl;
          actor = has_no_bar (codes "sys") refl;
          event_type = has_no_bar (codes "created") refl;
          hash = has_no_bar (1079 ∷ []) refl;
        },
        tt,
      )
      (
        record {
          stamp = has_no_bar (205 ∷ []) refl;
          actor = has_no_bar (codes "sys") refl;
          event_type = has_no_bar (codes "created") refl;
          hash = has_no_bar (1079 ∷ []) refl;
        },
        tt,
      )
      refl refl

IsIntact-iff-Chain_example :
    IsIntact short_hashing one_row ↔ Chain short_hashing genesis one_row.rows
IsIntact-iff-Chain_example = IsIntact-iff-Chain short_hashing one_row

append_entry-IsIntact_example :
    IsIntact short_hashing
      (append_entry short_hashing 9 one_row (codes "user:ann") (codes "approved") end none none)
append_entry-IsIntact_example =
    append_entry-IsIntact short_hashing 9 one_row (codes "user:ann") (codes "approved") end none
      none one_row-IsIntact

abbrev forged : AuditLogRow
forged = record {
  seq = 2;
  ts = 6;
  actor = codes "sys";
  event_type = codes "executed";
  ref_type = none;
  ref_id = none;
  payload = end;
  prev_hash = 1079 ∷ [];
  hash = 4 ∷ [];
}

forged-unlinked : ¬ (IsLinked short_hashing (last_hash short_hashing genesis one_row.rows) forged)
unfolding row_hash compute_entry_hash material canonical_payload
forged-unlinked (a, b) = absurd (ground arith)

verify_chain_reports_example :
    verify_chain short_hashing (record { rows = one_row.rows ++ forged ∷ []; next_seq = 3 })
    ≡ (1, some 2)
verify_chain_reports_example =
    verify_chain_reports short_hashing 3 one_row.rows forged []
      ((IsIntact-iff-Chain short_hashing one_row).0 one_row-IsIntact) forged-unlinked

verify_chain-with_refs_example :
    verify_chain short_hashing rewritten_row ≡ verify_chain short_hashing one_row
verify_chain-with_refs_example = verify_chain-with_refs short_hashing (λ r. (none, some 99)) one_row

compute_entry_hash_ambiguous_example :
    compute_entry_hash short_hashing genesis []
      (codes "sys" ++ bar ∷ codes "low")
      (codes "created")
      []
    ≡ compute_entry_hash short_hashing genesis []
        (codes "sys")
        (codes "low" ++ bar ∷ codes "created")
        []
compute_entry_hash_ambiguous_example =
    compute_entry_hash_ambiguous short_hashing genesis [] (codes "sys") (codes "low")
      (codes "created") []

abbrev entry : ℕ → Entry
entry t = record {
  now = t;
  actor = codes "sys";
  event_type = codes "created";
  payload = end;
  ref_type = none;
  ref_id = none;
}

append_both_reported_example :
    verify_chain short_hashing (append_both short_hashing one_row (entry 6) (entry 7)) ≡ (2, some 3)
unfolding row_for new_row row_hash compute_entry_hash material canonical_payload
append_both_reported_example =
    append_both_reported short_hashing one_row (entry 6) (entry 7) one_row-IsIntact
      (λ e. absurd (ground arith))
