-- ===== src/Domain/Drift.antt =====
-- domain/models/drift.py
pub mod Severity
use multi_cloud_ai_orchestra.Base.{
  ℕ, ◌<◌, String, Bool, List, [], ◌∷◌, Option, none, holds, any, count_if, length, ltb,
  if◌then◌else◌,
}
use multi_cloud_ai_orchestra.Domain.Entity.{Ambient, Entity, Live, new_entity}

pub data DriftSeverity : Type 0 where
  low medium high critical : DriftSeverity

unfoldable pub DriftSeverity-discrete : Discrete DriftSeverity
DriftSeverity-discrete = hlevel

pub data DriftType : Type 0 where
  property_changed resource_added resource_removed state_mismatch tag_mismatch : DriftType

pub record DriftItem : Type 0 where
  pub drift_type : DriftType
  pub resource_identifier : String
  pub property_path : String
  pub expected_value : String
  pub actual_value : String
  pub severity : DriftSeverity

pub record DriftReport : Type 0 where
  pub entity : Entity
  pub open entity use *
  pub deployment_id : String
  pub scan_type : String
  pub items : List DriftItem
  pub summary : String
  pub auto_remediate : Bool
  pub remediation_deployment_id : Option String

-- `item.severity == severity`
abbrev pub has_severity : DriftSeverity → DriftItem → Bool
has_severity severity item = holds (DriftSeverity-discrete item.severity severity)

unfoldable pub has_drift : DriftReport → Bool
has_drift r = ltb 0 (length r.items)

unfoldable pub critical_count : DriftReport → ℕ
critical_count r = count_if (has_severity critical) r.items

unfoldable pub high_count : DriftReport → ℕ
high_count r = count_if (has_severity high) r.items

-- The loop of DriftReport.max_severity over `severity_order`.
unfoldable pub first_present : List DriftSeverity → List DriftItem → DriftSeverity
first_present [] items = low
first_present (severity ∷ order) items =
    if any (has_severity severity) items then severity else first_present order items

-- The body of DriftReport.max_severity.
unfoldable pub greatest : List DriftItem → DriftSeverity
unfolding first_present
greatest [] = low
greatest (item ∷ items) = first_present (critical ∷ high ∷ medium ∷ low ∷ []) (item ∷ items)

unfoldable pub max_severity : DriftReport → DriftSeverity
unfolding greatest
max_severity r = greatest r.items
