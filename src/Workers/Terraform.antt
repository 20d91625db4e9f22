-- ===== src/Workers/Terraform.antt =====
-- TerraformWorkerAgent of workers/terraform_worker.py. The executor is a parameter: the answer of a
-- call, by the calls that were made before. Logging is left out.
pub mod Phases
pub mod Simulated
use multi_cloud_ai_orchestra.Base.{
  no_fields, String, str_eq, Bool, true, false, ◌||◌, List, [], ◌∷◌, ◌++◌, Option, none, some, Json,
  Method, Result, ok, raised, pure, raise, skip, or_raise, ◌>>=◌, ◌>>◌, fstring, if◌then◌else◌,
}
use multi_cloud_ai_orchestra.Base.Dict.{Dict, get}
use multi_cloud_ai_orchestra.Domain.Cloud.{CloudProviderType, ResourceSpec}
use multi_cloud_ai_orchestra.Domain.Task.{Task}

-- The calls of the port TerraformExecutor.
pub data TerraformCall : Type 0 where
  generate_config : ResourceSpec → (work_dir : String) → TerraformCall
  init : (work_dir : String) → CloudProviderType → TerraformCall
  plan apply destroy show_state : (work_dir : String) → TerraformCall

-- Exceptions: a phase that failed, and the ValidationError of a resource specification.
pub data WorkError : Type 0 where
  terraform_execution : (message : String) → WorkError
  invalid_spec : WorkError

-- The dictionary that execute returns.
pub record TerraformResult : Type 0 where
  pub action : String
  pub resource : String
  pub provider : CloudProviderType
  pub state : Dict Json
  pub work_dir : String

abbrev pub TerraformWork : Type 0 → Type 0
TerraformWork A = Method WorkError (List TerraformCall) A

abbrev pub spec_json : Option Json → Json
spec_json (some json) = json
spec_json none = Json.obj no_fields

-- `answer calls call` is what the executor returns, or prints, for `call` after `calls`, and `shown`
-- the state that it shows after `calls`; `validate` is `ResourceSpec.model_validate`; `join_path` is
-- `os.path.join` under the worker's directory.
module _ (answer : List TerraformCall → TerraformCall → Bool × String)
    (shown : List TerraformCall → Dict Json) (validate : Json → Option ResourceSpec)
    (join_path : String → String → String) where
  unfoldable pub call_terraform : TerraformCall → TerraformWork (Bool × String)
  call_terraform call calls = (ok (answer calls call), calls ++ call ∷ [])

  unfoldable pub show_terraform : String → TerraformWork (Dict Json)
  show_terraform work_dir calls = (ok (shown calls), calls ++ show_state work_dir ∷ [])

  -- _run_phase, on the name as `capitalize` writes it
  unfoldable pub run_phase : String → TerraformCall → TerraformWork (Unit {0})
  run_phase name call calls =
      let (success, output) = answer calls call in
      (
        if success
            then ok tt
            else raised (terraform_execution (fstring (name ∷ " failed: " ∷ output ∷ []))),
        calls ++ call ∷ [],
      )

  -- _apply_action
  unfoldable pub apply_action : String → String → TerraformWork (Unit {0})
  apply_action action work_dir =
      if str_eq action "create" || str_eq action "update"
      then run_phase "Apply" (apply work_dir)
      else if str_eq action "destroy"
      then run_phase "Destroy" (destroy work_dir)
      else skip

  unfoldable pub execute : Task → TerraformWork TerraformResult
  execute task = do
    resource_spec ←
        or_raise (validate (spec_json (get "resource_spec" task.input_data))) invalid_spec
    let work_dir = join_path task.deployment_id task.step_id
    generated ← call_terraform (generate_config resource_spec work_dir)
    run_phase "Init" (init work_dir resource_spec.provider)
    run_phase "Plan" (plan work_dir)
    apply_action task.terraform_action work_dir
    state ← show_terraform work_dir
    pure (record {
      action = task.terraform_action;
      resource = resource_spec.name;
      provider = resource_spec.provider;
      state = state;
      work_dir = work_dir;
    })
