-- ===== src/Policy.antt =====
-- src/app/orchestration/policy.py: which playbooks an incident triggers. Risks and thresholds are
-- natural numbers in ten-thousandths, the precision to which the program rounds its scores.
-- `ipaddress.ip_address` on a stripped text and the formatting of the reason are parameters.
pub mod Network
pub mod Select
mod Tests
use sentraxis.Prelude.{
  ℕ, ◌-◌, ◌/◌, Bool, true, not, ◌&&◌, Option, none, some, List, [], ◌∷◌, String, str_eq, Text, max,
  keep, any, ltb, ◌==◌, if◌then◌else◌,
}
use Prim.Native.Nat.{◌^◌}

-- The column `blast_radius`; `other` is any text that is neither "low" nor "high".
pub data Blast : Type 0 where
  low high : Blast
  other : String → Blast

pub record PlaybookDef : Type 0 where
  pub name : String
  pub description : String
  pub trigger_detectors : List String
  pub requires_external_source : Bool
  pub min_risk : ℕ
  pub blast_radius : Blast
  pub action_type : String
  pub version : ℕ

pub record IncidentContext : Type 0 where
  pub incident_id : ℕ
  pub entity_id : ℕ
  pub entity_identifier : String
  pub risk_score : ℕ
  pub detectors : List String
  pub techniques : List String

pub record ActionSpec : Type 0 where
  pub playbook : PlaybookDef
  pub action_type : String
  pub blast_radius : Blast
  pub reason : Text

-- An address of the library `ipaddress`.
pub data Ip : Type 0 where
  v4 v6 : ℕ → Ip

-- A network: its first address and the length of its prefix.
pub data IpNetwork : Type 0 where
  net4 net6 : (base : ℕ) (prefix : ℕ) → IpNetwork

-- `ip in net`
unfoldable pub in_network : Ip → IpNetwork → Bool
in_network (v4 a) (net4 b p) = a / 2 ^ (32 - p) == b / 2 ^ (32 - p)
in_network (v6 a) (net6 b p) = a / 2 ^ (128 - p) == b / 2 ^ (128 - p)
in_network (v4 a) (net6 b p) = Bool.false
in_network (v6 a) (net4 b p) = Bool.false

abbrev pub internal_networks : List IpNetwork
internal_networks =
    net4 0x0a000000 8
    ∷ net4 0xac100000 12
    ∷ net4 0xc0a80000 16
    ∷ net4 0x7f000000 8
    ∷ net4 0xa9fe0000 16
    ∷ net4 0x64400000 10
    ∷ net6 0xfc000000000000000000000000000000 7
    ∷ net6 0xfe800000000000000000000000000000 10
    ∷ []

pub record Formats : Type 0 where
  -- `ipaddress.ip_address(identifier.strip())`; `none` is its ValueError.
  pub ip_address : String → Option Ip
  -- The f-string over risk, threshold, overlapping detectors (sorted) and origin.
  pub reason : ℕ → ℕ → List String → Bool → Text

unfoldable pub is_external : Option Ip → Bool
unfolding in_network
is_external none = true
is_external (some ip) = not (any (in_network ip) internal_networks)

module _ (f : Formats) where
  unfoldable pub is_external_identifier : String → Bool
  unfolding is_external
  is_external_identifier identifier = is_external (f.ip_address identifier)

  -- `set(pb.trigger_detectors) & set(ctx.detectors)`
  unfoldable pub overlap : IncidentContext → PlaybookDef → List String
  overlap ctx pb = keep (λ d. any (str_eq d) ctx.detectors) pb.trigger_detectors

  unfoldable pub is_nil : List String → Bool
  is_nil [] = true
  is_nil (x ∷ xs) = Bool.false

  unfoldable pub spec_for : IncidentContext → Bool → ℕ → PlaybookDef → ActionSpec
  spec_for ctx external threshold pb = record {
    playbook = pb;
    action_type = pb.action_type;
    blast_radius = pb.blast_radius;
    reason = f.reason ctx.risk_score threshold (overlap ctx pb) external;
  }

  -- The body of the loop; `specs` are those of the playbooks that follow.
  unfoldable pub visit :
      IncidentContext → Bool → ℕ → PlaybookDef → List ActionSpec → List ActionSpec
  visit ctx external threshold pb specs =
      if ltb ctx.risk_score threshold
      then specs
      else if pb.requires_external_source && not external
      then specs
      else if is_nil (overlap ctx pb)
      then specs
      else spec_for ctx external threshold pb ∷ specs

  unfoldable pub evaluate_from : IncidentContext → Bool → ℕ → List PlaybookDef → List ActionSpec
  evaluate_from ctx external min_risk_floor [] = []
  evaluate_from ctx external min_risk_floor (pb ∷ playbooks) =
      visit ctx external (max pb.min_risk min_risk_floor) pb
        (evaluate_from ctx external min_risk_floor playbooks)

  unfoldable pub evaluate_response : IncidentContext → List PlaybookDef → ℕ → List ActionSpec
  evaluate_response ctx playbooks min_risk_floor =
      evaluate_from ctx (is_external_identifier ctx.entity_identifier) min_risk_floor playbooks
