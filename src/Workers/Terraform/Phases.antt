-- ===== src/Workers/Terraform/Phases.antt =====
-- The order of the phases of the Terraform worker.
use mathlib.Core.List.{append-nil}
use multi_cloud_ai_orchestra.Base.{
  ◌≡◌, refl, sym, String, str_eq, Bool, true, false, ◌||◌, ◌&&◌, List, [], ◌∷◌, ◌++◌, Option, some,
  Json, Result, ok, raised, inl, inr, Bool-cases, if◌then◌else◌,
}
use multi_cloud_ai_orchestra.Base.Dict.{Dict, get}
use multi_cloud_ai_orchestra.Domain.Cloud.{ResourceSpec}
use multi_cloud_ai_orchestra.Domain.Task.{Task}
use multi_cloud_ai_orchestra.Workers.Terraform.{
  TerraformCall, generate_config, init, plan, apply, destroy, show_state, spec_json, call_terraform,
  show_terraform, run_phase, apply_action, execute,
}

-- The last phase that an action asks for.
abbrev pub action_calls : String → String → List TerraformCall
action_calls action work_dir =
    if str_eq action "create" || str_eq action "update"
    then apply work_dir ∷ []
    else if str_eq action "destroy"
    then destroy work_dir ∷ []
    else []

abbrev pub is_ok : {E A : Type 0} → Result E A → Bool
is_ok (ok a) = true
is_ok (raised e) = false

module _ (answer : List TerraformCall → TerraformCall → Bool × String)
    (validate : Json → Option ResourceSpec) (join_path : String → String → String) where
  -- Whether each of these calls succeeds, made one after the other.
  abbrev pub succeeds : List TerraformCall → List TerraformCall → Bool
  succeeds calls [] = true
  succeeds calls (c ∷ cs) = (answer calls c).0 && succeeds (calls ++ c ∷ []) cs

  -- Every call that is made up to the first that fails.
  abbrev pub made : List TerraformCall → List TerraformCall → List TerraformCall
  made calls [] = calls
  made calls (c ∷ cs) =
      let rest = made (calls ++ c ∷ []) cs in if (answer calls c).0 then rest else calls ++ c ∷ []

  -- For a task with a valid specification, execute generates the configuration and then runs init,
  -- plan and the phase of its action, up to the first that fails: it returns exactly when none of
  -- them fails, and shows the state exactly then.
  pub execute-phases :
      (shown : List TerraformCall → Dict Json) (task : Task) (spec : ResourceSpec)
      (calls : List TerraformCall)
      → validate (spec_json (get "resource_spec" task.input_data)) ≡ some spec
      → let dir = join_path task.deployment_id task.step_id in
        let before = calls ++ generate_config spec dir ∷ [] in
        let phases = init dir spec.provider ∷ plan dir ∷ action_calls task.terraform_action dir in
        let (r, after) = execute answer shown validate join_path task calls in
        (is_ok r ≡ succeeds before phases)
        × (after
            ≡ made before phases ++ (if succeeds before phases then show_state dir ∷ [] else []))
  unfolding execute call_terraform show_terraform run_phase apply_action
  execute-phases shown task spec calls h =
      let dir = join_path task.deployment_id task.step_id in
      let before = calls ++ generate_config spec dir ∷ [] in
      let planned = before ++ init dir spec.provider ∷ [] in
      let ready = planned ++ plan dir ∷ [] in
      elim (Bool-cases (answer before (init dir spec.provider)).0) [
        | inr f ↦ rw (h, f) (refl, sym (append-nil _))
        | inl a ↦ elim (Bool-cases (answer planned (plan dir)).0) [
          | inr f ↦ rw (h, a, f) (refl, sym (append-nil _))
          | inl b ↦
              elim (Bool-cases
                (str_eq task.terraform_action "create" || str_eq task.terraform_action "update")) [
                  | inl c ↦ elim (Bool-cases (answer ready (apply dir)).0) [
                    | inl s ↦ rw (h, a, b, c, s) (refl, refl)
                    | inr f ↦ rw (h, a, b, c, f) (refl, sym (append-nil _))
                  ]
                  | inr c ↦ elim (Bool-cases (str_eq task.terraform_action "destroy")) [
                    | inr e ↦ rw (h, a, b, c, e) (refl, refl)
                    | inl e ↦ elim (Bool-cases (answer ready (destroy dir)).0) [
                      | inl s ↦ rw (h, a, b, c, e, s) (refl, refl)
                      | inr f ↦ rw (h, a, b, c, e, f) (refl, sym (append-nil _))
                    ]
                  ]
                ]
        ]
      ]
