-- ===== src/Infrastructure/DriftDetector.antt =====
-- SimulatedDriftDetector of infrastructure/ai/drift_detector.py. Whether a call of
-- `random.random()` is below the drift probability comes from outside, one answer for each call.
pub mod Counts
use multi_cloud_ai_orchestra.Base.{
  ℕ, suc, String, Bool, true, false, List, [], ◌∷◌, ◌++◌, Option, none, some, Json, length, fstring,
  decimal, if◌then◌else◌,
}
use multi_cloud_ai_orchestra.Base.Dict.{Dict, get, put}
use multi_cloud_ai_orchestra.Domain.Cloud.{CloudProviderType, aws, provider_value}
use multi_cloud_ai_orchestra.Domain.Entity.{Ambient, Live, new_entity}
use multi_cloud_ai_orchestra.Domain.Drift.{
  DriftItem, DriftReport, property_changed, resource_removed, critical, medium,
}

-- The simulated states, and the answers to come.
pub record Detector : Type 0 where
  pub simulated_states : Dict (Dict Json)
  pub draws : ℕ → Bool
  pub ambient : Ambient

-- A resource that has no simulated state runs.
abbrev pub or_running : CloudProviderType → Option (Dict Json) → Dict Json
or_running provider (some state) = state
or_running provider none =
    ("status", Json.str "running") ∷ ("provider", Json.str (provider_value provider)) ∷ []

-- What the loop of get_current_state stores for a resource.
unfoldable pub current_state_of : Dict (Dict Json) → CloudProviderType → String → Dict Json
current_state_of states provider resource_id = or_running provider (get resource_id states)

-- The loop of get_current_state, from the state that it has reached.
unfoldable pub gather_state :
    Dict (Dict Json) → CloudProviderType → List String → Dict (Dict Json) → Dict (Dict Json)
gather_state states provider [] state = state
gather_state states provider (resource_id ∷ ids) state =
    gather_state states provider ids
      (put resource_id (current_state_of states provider resource_id) state)

unfoldable pub get_current_state : Detector → CloudProviderType → List String → Dict (Dict Json)
get_current_state d provider resource_ids = gather_state d.simulated_states provider resource_ids []

unfoldable pub set_simulated_state : String → Dict Json → Detector → Detector
set_simulated_state resource_id state d = record d {
  simulated_states = put resource_id state d.simulated_states;
}

abbrev pub or_empty : Option (Dict Json) → Dict Json
or_empty none = []
or_empty (some actual) = actual

-- `actual_state.get(resource_id, {})`
unfoldable pub get_or_empty : String → Dict (Dict Json) → Dict Json
get_or_empty resource_id state = or_empty (get resource_id state)

-- `not actual`
abbrev pub is_empty : Dict Json → Bool
is_empty [] = true
is_empty (entry ∷ state) = false

unfoldable pub removed_item : String → DriftItem
removed_item resource_id = record {
  drift_type = resource_removed;
  resource_identifier = resource_id;
  property_path = "";
  expected_value = "";
  actual_value = "";
  severity = critical;
}

unfoldable pub changed_item : String → DriftItem
changed_item resource_id = record {
  drift_type = property_changed;
  resource_identifier = resource_id;
  property_path = "properties.instance_type";
  expected_value = "t3.medium";
  actual_value = "t3.large";
  severity = medium;
}

-- The items of the loop of detect_drift. A resource that is missing takes no draw.
unfoldable pub drift_items :
    Dict (Dict Json) → List String → (ℕ → Bool) → List DriftItem × (ℕ → Bool)
drift_items actual_state [] draws = ([], draws)
drift_items actual_state (resource_id ∷ ids) draws =
    let missing = is_empty (get_or_empty resource_id actual_state) in
    let (items, later) =
      drift_items actual_state ids (if missing then draws else λ n. draws (suc n)) in
    (
      if missing
          then removed_item resource_id ∷ items
          else if draws 0
          then changed_item resource_id ∷ items
          else items,
      later,
    )

unfoldable pub drift_summary : List DriftItem → String
drift_summary [] = "No drift detected"
drift_summary (item ∷ items) =
    fstring ("Found " ∷ decimal (length (item ∷ items)) ∷ " drift items" ∷ [])

-- `list(expected_state)`
unfoldable pub keys : {V : Type 0} → Dict V → List String
keys [] = []
keys ((k, v) ∷ d) = k ∷ keys d

-- `DriftReport(...)`
unfoldable pub new_report : String → List DriftItem → Ambient → Live DriftReport
new_report deployment_id items a =
    let (entity, b) = new_entity a in
    record {
      self = record {
        entity = entity;
        deployment_id = deployment_id;
        scan_type = "scheduled";
        items = items;
        summary = drift_summary items;
        auto_remediate = false;
        remediation_deployment_id = none;
      };
      ambient = b;
    }

unfoldable pub detect_drift : String → Dict Json → Detector → DriftReport × Detector
detect_drift deployment_id expected_state d =
    let actual_state = get_current_state d aws (keys expected_state) in
    let (items, later) = drift_items actual_state (keys expected_state) d.draws in
    let live = new_report deployment_id items d.ambient in
    (live.self, record d { draws = later; ambient = live.ambient })
