-- ===== src/Correlate/Attack.antt =====
-- src/app/correlation/attack_reference.py: the index of techniques. The two places that may hold
-- the full index are arguments, `none` where there is no such file.
use sentraxis.Prelude.{
  ℕ, Bool, Option, none, some, List, [], ◌∷◌, ◌++◌, Text, codes, text_eq, any, length, map,
}
use sentraxis.Ingest.Repository.{text_ltb}
use sentraxis.Prelude.{if◌then◌else◌}

abbrev pub Index : Type 0
Index = List (Text × Text)

-- `_MINI_ALLOWLIST`
unfoldable pub mini_allowlist : Index
mini_allowlist =
    (codes "T1046", codes "Network Service Discovery")
    ∷ (codes "T1595", codes "Active Scanning")
    ∷ (codes "T1595.001", codes "Scanning IP Blocks")
    ∷ (codes "T1595.002", codes "Vulnerability Scanning")
    ∷ (codes "T1110", codes "Brute Force")
    ∷ (codes "T1110.001", codes "Password Guessing")
    ∷ (codes "T1071", codes "Application Layer Protocol")
    ∷ (codes "T1027", codes "Obfuscated Files or Information")
    ∷ (codes "T1203", codes "Exploitation for Client Execution")
    ∷ (codes "T1190", codes "Exploit Public-Facing Application")
    ∷ (codes "T1499", codes "Endpoint Denial of Service")
    ∷ (codes "T1498", codes "Network Denial of Service")
    ∷ (codes "T1048", codes "Exfiltration Over Alternative Protocol")
    ∷ (codes "T1041", codes "Exfiltration Over C2 Channel")
    ∷ (codes "T1078", codes "Valid Accounts")
    ∷ (codes "T1021", codes "Remote Services")
    ∷ (codes "T1098", codes "Account Manipulation")
    ∷ (codes "T1489", codes "Service Stop")
    ∷ []

-- The index and its source.
unfoldable pub load_index : (resource local : Option Index) → Index × Text
load_index (some index) local = (index, codes "full-index")
load_index none (some index) = (index, codes "full-index")
load_index none none = (mini_allowlist, codes "mini-fallback")

-- `index.get(technique_id)`
unfoldable pub technique_name : Index → Text → Option Text
technique_name [] id = none
technique_name ((key, name) ∷ rows) id =
    let rest = technique_name rows id in if text_eq key id then some name else rest

unfoldable pub is_known_technique : Index → Text → Bool
is_known_technique index id = any (λ row. text_eq row.0 id) index

unfoldable pub index_size : Index → ℕ
index_size index = length index

unfoldable pub insert_text : Text → List Text → List Text
insert_text t [] = t ∷ []
insert_text t (u ∷ us) =
    let rest = insert_text t us in if text_ltb u t then u ∷ rest else t ∷ u ∷ us

unfoldable pub known_techniques : Index → List Text
known_techniques [] = []
known_techniques ((key, name) ∷ rows) = insert_text key (known_techniques rows)

-- `PROMPT_TECHNIQUE_IDS`
unfoldable pub prompt_technique_ids : List Text
prompt_technique_ids = map codes (
    "T1046" ∷ "T1595" ∷ "T1595.001" ∷ "T1595.002" ∷ "T1110" ∷ "T1110.001" ∷ "T1110.003" ∷ "T1071"
    ∷ "T1071.001" ∷ "T1190" ∷ "T1203" ∷ "T1498" ∷ "T1498.001" ∷ "T1499" ∷ "T1048" ∷ "T1041"
    ∷ "T1078" ∷ "T1021" ∷ "T1098" ∷ "T1027" ∷ "T1489" ∷ "T1557" ∷ [])

module _ (rstrip : Text → Text) where
  -- `f"- {tid} {idx.get(tid, '')}".rstrip()`
  unfoldable pub reference_line : Index → Text → Text
  reference_line index id = rstrip (
      codes "- "
      ++ id
      ++ codes " "
      ++ elim (technique_name index id) as (λ _. Text) [ none ↦ [] | some name ↦ name ])

  -- The lines, joined with line feeds.
  unfoldable pub reference_lines : Index → List Text → Text
  reference_lines index [] = []
  reference_lines index (id ∷ []) = reference_line index id
  reference_lines index (id ∷ id' ∷ ids) =
      reference_line index id ++ (10 ∷ reference_lines index (id' ∷ ids))

  unfoldable pub prompt_reference_lines : Index → Text
  prompt_reference_lines index = reference_lines index prompt_technique_ids
