-- ===== src/Workers/Terraform/Simulated.antt =====
-- The Terraform worker with the simulated executor of infrastructure/terraform/executor.py.
use multi_cloud_ai_orchestra.Base.{
  ◌≡◌, refl, sym, ap, ◌∙◌, subst, String, str_eq, eq_iff, Bool, true, ◌||◌, List, [], ◌∷◌, ◌++◌,
  Option, none, some, Json, ok, inl, inr, Bool-cases, if◌then◌else◌, arith,
}
use multi_cloud_ai_orchestra.Base.Dict.{Dict, get, get-put}
use multi_cloud_ai_orchestra.Base.Unique.{IsUnique, get-remove}
use multi_cloud_ai_orchestra.Domain.Cloud.{CloudProviderType, aws, azure, gcp, ResourceSpec}
use multi_cloud_ai_orchestra.Domain.Task.{Task}
use multi_cloud_ai_orchestra.Infrastructure.TerraformExecutor
use multi_cloud_ai_orchestra.Infrastructure.TerraformExecutor.{
  Executor, Reply, init_with, provider_configs, created, resource_id, hcl_of,
}
use multi_cloud_ai_orchestra.Workers.Terraform.{
  TerraformCall, generate_config, init, plan, apply, destroy, show_state, spec_json, call_terraform,
  show_terraform, run_phase, apply_action, execute,
}

module _ (dumps : Json → String) (basename : String → String)
    (join : String → String → String) where
  -- A call of the port, on the simulated executor.
  abbrev pub handle : TerraformCall → Executor → Reply
  handle (generate_config spec dir) s =
      let (hcl, t) = TerraformExecutor.generate_config dumps basename join spec dir s in
      ((true, hcl), t)
  handle (init dir provider) s = TerraformExecutor.init dir provider s
  handle (plan dir) s = TerraformExecutor.plan dir s
  handle (apply dir) s = TerraformExecutor.apply dumps basename join dir s
  handle (destroy dir) s = TerraformExecutor.destroy dumps basename join dir s
  handle (show_state dir) s = ((true, ""), s)

  -- The executor after these calls.
  abbrev pub replay : List TerraformCall → Executor → Executor
  replay [] s = s
  replay (call ∷ calls) s = replay calls (handle call s).1

  abbrev pub answer : Executor → List TerraformCall → TerraformCall → Bool × String
  answer s calls call = (handle call (replay calls s)).0

  abbrev pub shown : Executor → List TerraformCall → Dict Json
  shown s calls = TerraformExecutor.show_state dumps basename join (replay calls s)

  replay-append :
      (calls more : List TerraformCall) (s : Executor)
      → replay (calls ++ more) s ≡ replay more (replay calls s)
  replay-append [] more s = refl
  replay-append (call ∷ calls) more s = replay-append calls more (handle call s).1

  init-works :
      (dir : String) (provider : CloudProviderType) (s : Executor)
      → (handle (init dir provider) s).0.0 ≡ true
  unfolding TerraformExecutor.init init_with provider_configs
  init-works dir aws s = refl
  init-works dir azure s = refl
  init-works dir gcp s = refl

  init-simulated :
      (dir : String) (provider : CloudProviderType) (s : Executor)
      → (handle (init dir provider) s).1.simulated ≡ s.simulated
  unfolding TerraformExecutor.init init_with provider_configs TerraformExecutor.make_directory
  init-simulated dir aws s = refl
  init-simulated dir azure s = refl
  init-simulated dir gcp s = refl

  abbrev is_applied : String → Bool
  is_applied action = str_eq action "create" || str_eq action "update"

  -- What the state says of the resource of a directory after an action, by what it said before.
  abbrev pub outcome : String → String → Option Json → Option Json
  outcome action dir before =
      if str_eq action "create" || str_eq action "update"
      then some (created dumps basename join dir)
      else if str_eq action "destroy"
      then none
      else before

  abbrev pub id_of : String → String
  id_of dir = resource_id dumps basename join dir

  init-files :
      (dir : String) (provider : CloudProviderType) (s : Executor)
      → (handle (init dir provider) s).1.files ≡ s.files
  unfolding TerraformExecutor.init init_with provider_configs TerraformExecutor.make_directory
  init-files dir aws s = refl
  init-files dir azure s = refl
  init-files dir gcp s = refl

  -- The executor after the phases before the last.
  ready : ResourceSpec → String → Executor → Executor
  ready spec dir s = replay (generate_config spec dir ∷ init dir spec.provider ∷ plan dir ∷ []) s

  ready-simulated :
      (spec : ResourceSpec) (dir : String) (s : Executor)
      → (ready spec dir s).simulated ≡ s.simulated
  unfolding ready TerraformExecutor.generate_config TerraformExecutor.plan
      TerraformExecutor.make_directory
  ready-simulated spec dir s = init-simulated dir spec.provider _

  -- What the phase of an action does to the executor.
  acts : String → String → Executor → Executor
  acts action dir s =
      if is_applied action
      then (handle (apply dir) s).1
      else if str_eq action "destroy"
      then (handle (destroy dir) s).1
      else s

  acts-simulated :
      (action dir : String) (s : Executor)
      → IsUnique s.simulated
      → (k : String)
      → get k (acts action dir s).simulated ≡ (
          if str_eq (id_of dir) k
          then outcome action dir (get k s.simulated)
          else get k s.simulated)
  unfolding acts TerraformExecutor.apply TerraformExecutor.destroy
  acts-simulated action dir s unique k = elim (Bool-cases (is_applied action)) [
    | inl t ↦ rw t (get-put (id_of dir) k (created dumps basename join dir) s.simulated)
    | inr f ↦ elim (Bool-cases (str_eq action "destroy")) [
      | inl t ↦ rw (f, t) (get-remove (id_of dir) k s.simulated unique)
      | inr g ↦ rw (f, g) (ground arith)
    ]
  ]

  acts-files : (action dir : String) (s : Executor) → (acts action dir s).files ≡ s.files
  unfolding acts TerraformExecutor.apply TerraformExecutor.destroy
  acts-files action dir s = ground arith

  ready-files :
      (spec : ResourceSpec) (dir : String) (s : Executor)
      → get (join dir "main.tf") (ready spec dir s).files ≡ some (hcl_of dumps spec)
  unfolding ready TerraformExecutor.generate_config TerraformExecutor.plan
      TerraformExecutor.make_directory
  ready-files spec dir s =
      ap (get (join dir "main.tf")) (init-files dir spec.provider _)
      ∙ get-put (join dir "main.tf") (join dir "main.tf") (hcl_of dumps spec) s.files
      ∙ rw ((eq_iff (join dir "main.tf") (join dir "main.tf")).1 refl) refl

  module _ (validate : Json → Option ResourceSpec) (join_path : String → String → String) where
    runs :
        (task : Task) (spec : ResourceSpec) (s : Executor)
        → validate (spec_json (get "resource_spec" task.input_data)) ≡ some spec
        → let dir = join_path task.deployment_id task.step_id in
          let (r, calls) = execute (answer s) (shown s) validate join_path task [] in
          let t = acts task.terraform_action dir (ready spec dir s) in
          (r
            ≡ ok (record {
              action = task.terraform_action;
              resource = spec.name;
              provider = spec.provider;
              state = t.simulated;
              work_dir = dir;
            }))
          × (replay calls s ≡ t)
    unfolding execute call_terraform show_terraform run_phase apply_action ready acts
        TerraformExecutor.plan TerraformExecutor.apply TerraformExecutor.destroy
        TerraformExecutor.show_state
    runs task spec s h =
        let dir = join_path task.deployment_id task.step_id in
        elim (Bool-cases (is_applied task.terraform_action)) [
          | inl t ↦ rw (h, init-works dir spec.provider, t) (refl, refl)
          | inr f ↦ elim (Bool-cases (str_eq task.terraform_action "destroy")) [
            | inl e ↦ rw (h, init-works dir spec.provider, f, e) (refl, refl)
            | inr g ↦ rw (h, init-works dir spec.provider, f, g) (refl, refl)
          ]
        ]

    -- On a simulated executor whose state has no key twice, a task with a valid specification is
    -- executed: the worker returns its action, the resource, the provider, the directory and the
    -- state of the executor after the calls. In it the resource of the directory is created by the
    -- actions create and update, gone after destroy and as before after any other action, such as
    -- the default `apply` of a task, and every other resource is as before; and the directory's
    -- main.tf holds the configuration of the specification.
    pub execute-simulated :
        (task : Task) (spec : ResourceSpec) (s : Executor)
        → validate (spec_json (get "resource_spec" task.input_data)) ≡ some spec
        → IsUnique s.simulated
        → let dir = join_path task.deployment_id task.step_id in
          let (r, calls) = execute (answer s) (shown s) validate join_path task [] in
          let t = replay calls s in
          (r
            ≡ ok (record {
              action = task.terraform_action;
              resource = spec.name;
              provider = spec.provider;
              state = t.simulated;
              work_dir = dir;
            }))
          × ((k : String)
              → get k t.simulated ≡ (
                  if str_eq (id_of dir) k
                  then outcome task.terraform_action dir (get k s.simulated)
                  else get k s.simulated))
          × (get (join dir "main.tf") t.files ≡ some (hcl_of dumps spec))
    execute-simulated task spec s h unique =
        let dir = join_path task.deployment_id task.step_id in
        let before = ready spec dir s in
        let (returned, same) = runs task spec s h in
        let same_state = ready-simulated spec dir s in
        (
          rw same returned,
          λ k. rw same (
              subst
                (λ d. get k (acts task.terraform_action dir before).simulated ≡ (
                  if str_eq (id_of dir) k
                  then outcome task.terraform_action dir (get k d)
                  else get k d))
                same_state
                (acts-simulated task.terraform_action dir before
                  (subst IsUnique (sym same_state) unique) k)),
          rw same (
              ap (get (join dir "main.tf")) (acts-files task.terraform_action dir before)
              ∙ ready-files spec dir s),
        )
