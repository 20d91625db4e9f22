-- ===== src/Services/Drift/Scans.antt =====
-- scan_deployment: what is stored and what is published.
use multi_cloud_ai_orchestra.Base.{
  ◌≡◌, refl, sym, ap, ◌∙◌, String, str_eq, List, [], ◌∷◌, ◌++◌, Option, none, some, Option-cases,
  Json, ok, length, inl, inr, Bool-cases, if◌then◌else◌, eq_iff,
}
use mathlib.Core.List.{append-nil}
use multi_cloud_ai_orchestra.Base.Dict.{Dict, get, put, get-put}
use multi_cloud_ai_orchestra.Domain.Cloud.{ResourceSpec, resource_identifier}
use multi_cloud_ai_orchestra.Domain.Plan.{ExecutionStep, ExecutionPlan}
use multi_cloud_ai_orchestra.Domain.Deployment.{Deployment}
use multi_cloud_ai_orchestra.Domain.Drift.{has_drift, max_severity}
use multi_cloud_ai_orchestra.Infrastructure.InMemory.{deployment_by_id, save_report, report_by_id}
use multi_cloud_ai_orchestra.Infrastructure.DriftDetector.{detect_drift}
use multi_cloud_ai_orchestra.Services.Drift.{
  DriftWorld, scan_deployment, build_expected_state, run_detector, publish_drift, expect_steps,
  expected_of,
}

-- What a resource should be: the specification of the last step for it.
abbrev pub expected_at : (ResourceSpec → Json) → String → List ExecutionStep → Option Json
expected_at dump_spec key [] = none
expected_at dump_spec key (step ∷ steps) = elim (expected_at dump_spec key steps) [
  | some later ↦ some later
  | none ↦
      if str_eq (resource_identifier step.resource_spec) key
      then some (dump_spec step.resource_spec)
      else none
]

-- Without a plan no resource is expected.
abbrev pub steps_of : Option ExecutionPlan → List ExecutionStep
steps_of none = []
steps_of (some plan) = plan.steps

-- The state has the expected specification of every resource, and of no other.
abbrev pub IsExpected : (ResourceSpec → Json) → Deployment → Dict Json → Type 0
IsExpected dump_spec d state =
    (key : String) → get key state ≡ expected_at dump_spec key (steps_of d.plan)

expect_steps-at :
    (dump_spec : ResourceSpec → Json) (key : String) (steps : List ExecutionStep)
    (state : Dict Json)
    → get key (expect_steps dump_spec steps state)
      ≡ elim (expected_at dump_spec key steps) [ some later ↦ some later | none ↦ get key state ]
unfolding expect_steps
expect_steps-at dump_spec key [] state = refl
expect_steps-at dump_spec key (step ∷ steps) state =
    let id = resource_identifier step.resource_spec in
    let spec = dump_spec step.resource_spec in
    let rest = expect_steps-at dump_spec key steps (put id spec state) in
    elim (Option-cases (expected_at dump_spec key steps)) [
      | inr (later, e) ↦ rw (rest, e) refl
      | inl e ↦ elim (Bool-cases (str_eq id key)) [
        | inl same ↦ rw (rest, e, get-put, same) refl
        | inr other ↦ rw (rest, e, get-put, other) refl
      ]
    ]

expected_of-at :
    (dump_spec : ResourceSpec → Json) (key : String) (plan : Option ExecutionPlan)
    → get key (expected_of dump_spec plan) ≡ expected_at dump_spec key (steps_of plan)
unfolding expected_of get
expected_of-at dump_spec key none = refl
expected_of-at dump_spec key (some plan) =
    let rest = expect_steps-at dump_spec key plan.steps [] in
    elim (Option-cases (expected_at dump_spec key plan.steps)) [
      | inr (later, e) ↦ rw (rest, e) refl
      | inl e ↦ rw (rest, e) refl
    ]

build_expected_state-IsExpected :
    (dump_spec : ResourceSpec → Json) (d : Deployment)
    → IsExpected dump_spec d (build_expected_state dump_spec d)
unfolding build_expected_state
build_expected_state-IsExpected dump_spec d key = expected_of-at dump_spec key d.plan

-- scan_deployment of a stored deployment returns what the detector reports on a state that holds, for
-- each resource of the plan and for no other, the specification of the last step for it. The report
-- is found under its identifier, and "drift.detected" is published, with the number of drifts and the
-- greatest severity, exactly when the report has drifts.
pub scan_deployment-reports :
    (dump_spec : ResourceSpec → Json) (id : String) (d : Deployment) (w : DriftWorld)
    → deployment_by_id id w.deployments ≡ some d
    → (state : Dict Json) × IsExpected dump_spec d state
      × (let report = (detect_drift id state w.detector).0 in
          let (r, v) = scan_deployment dump_spec id w in
          (r ≡ ok report)
          × (report_by_id report.id v.reports ≡ some report)
          × (v.published
              ≡ w.published
                ++ (if has_drift report
                    then (
                      "drift.detected",
                      record {
                        deployment_id = id;
                        drift_count = length report.items;
                        severity = max_severity report;
                      },
                    )
                      ∷ []
                    else [])))
unfolding scan_deployment run_detector publish_drift report_by_id save_report
scan_deployment-reports dump_spec id d w h =
    let state = build_expected_state dump_spec d in
    let report = (detect_drift id state w.detector).0 in
    let stored =
      get-put report.id report.id report w.reports
      ∙ ap (λ b. if b then some report else get report.id w.reports)
          ((eq_iff report.id report.id).1 refl) in
    (
      state,
      build_expected_state-IsExpected dump_spec d,
      elim (Bool-cases (has_drift report)) [
        | inl t ↦ rw (h, t) (refl, stored, refl)
        | inr f ↦ rw (h, f) (refl, stored, sym (append-nil _))
      ],
    )
