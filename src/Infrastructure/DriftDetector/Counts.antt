-- ===== src/Infrastructure/DriftDetector/Counts.antt =====
-- What a scan reports, by the simulated states.
use multi_cloud_ai_orchestra.Base.{
  ◌≡◌, refl, ap, ◌∙◌, ℕ, suc, ◌+◌, ◌≤◌, String, Bool, true, false, List, [], ◌∷◌, Option, none,
  some, inl, inr, Bool-cases, Json, length, count_if, mem_text, if◌then◌else◌, arith, eq_iff,
}
use multi_cloud_ai_orchestra.Base.Dict.{Dict, get, put, get-put}
use multi_cloud_ai_orchestra.Domain.Cloud.{CloudProviderType, aws}
use multi_cloud_ai_orchestra.Domain.Drift.{
  DriftSeverity-discrete, critical_count, has_severity, critical,
}
use multi_cloud_ai_orchestra.Infrastructure.DriftDetector.{
  Detector, or_running, is_empty, current_state_of, gather_state, get_current_state, get_or_empty,
  removed_item, changed_item, drift_items, keys, new_report, detect_drift,
}

-- The simulated state of the resource was set to an empty dictionary.
abbrev is_emptied : Option (Dict Json) → Bool
is_emptied (some []) = true
is_emptied _ = false

get-gather_state :
    (states : Dict (Dict Json)) (provider : CloudProviderType) (ids : List String)
    (state : Dict (Dict Json)) (key : String)
    → get key (gather_state states provider ids state)
      ≡ (if mem_text key ids then some (current_state_of states provider key) else get key state)
unfolding gather_state
get-gather_state states provider [] state key = refl
get-gather_state states provider (id ∷ ids) state key = ground (
  arith,
  eq_iff id key,
  eq_iff key id,
  get-put id key (current_state_of states provider id) state,
  get-gather_state states provider ids (put id (current_state_of states provider id) state) key,
)

-- The gathered state holds the current state of each of these resources.
abbrev IsCurrent : Dict (Dict Json) → Dict (Dict Json) → List String → Type 0
IsCurrent states actual [] = Unit
IsCurrent states actual (id ∷ ids) =
    (get_or_empty id actual ≡ current_state_of states aws id) × IsCurrent states actual ids

or_running-is_empty :
    (provider : CloudProviderType) (o : Option (Dict Json))
    → is_empty (or_running provider o) ≡ is_emptied o
or_running-is_empty provider none = refl
or_running-is_empty provider (some []) = refl
or_running-is_empty provider (some (entry ∷ state)) = refl

drift_items-counts :
    (states actual : Dict (Dict Json)) (ids : List String) (draws : ℕ → Bool)
    → IsCurrent states actual ids
    → let items = (drift_items actual ids draws).0 in
      (count_if (has_severity critical) items ≡ count_if (λ id. is_emptied (get id states)) ids)
      × (length items ≤ length ids)
unfolding drift_items removed_item changed_item DriftSeverity-discrete current_state_of
drift_items-counts states actual [] draws h = (refl, omega arith)
drift_items-counts states actual (id ∷ ids) draws h =
    let missing = ap is_empty h.0 ∙ or_running-is_empty aws (get id states) in
    let now = drift_items-counts states actual ids draws h.1 in
    let later = drift_items-counts states actual ids (λ n. draws (suc n)) h.1 in
    elim (Bool-cases (is_emptied (get id states))) [
      | inl e ↦ rw (missing, e) (ap (λ n. 1 + n) now.0, omega (arith, now.1))
      | inr e ↦ elim (Bool-cases (draws 0)) [
        | inl t ↦ rw (missing, e, t) (omega (arith, later.0), omega (arith, later.1))
        | inr f ↦ rw (missing, e, f) (omega (arith, later.0), omega (arith, later.1))
      ]
    ]

gather_state-IsCurrent :
    (states : Dict (Dict Json)) (all ids : List String)
    → ((id : String) → mem_text id ids ≡ true → mem_text id all ≡ true)
    → IsCurrent states (gather_state states aws all []) ids
unfolding get_or_empty
gather_state-IsCurrent states all [] h = tt
gather_state-IsCurrent states all (id ∷ ids) h = (
  rw (get-gather_state states aws all [] id, h id (ground (arith, eq_iff id id))) refl,
  gather_state-IsCurrent states all ids (λ i m. h i (ground (arith, m))),
)

-- A scan reports as CRITICAL as many drifts as there are expected resources whose simulated state was
-- set to an empty dictionary, whatever the random draws are, and never more drifts than expected
-- resources.
pub detect_drift-counts :
    (deployment_id : String) (expected : Dict Json) (d : Detector)
    → let report = (detect_drift deployment_id expected d).0 in
      (critical_count report
        ≡ count_if (λ id. is_emptied (get id d.simulated_states)) (keys expected))
      × (length report.items ≤ length (keys expected))
unfolding detect_drift get_current_state new_report critical_count
detect_drift-counts deployment_id expected d =
    drift_items-counts d.simulated_states _ (keys expected) d.draws
      (gather_state-IsCurrent d.simulated_states (keys expected) (keys expected) (λ id m. m))
