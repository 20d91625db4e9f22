-- ===== src/Infrastructure/Planning/Valid.antt =====
-- Generated plans, and the engine's own validation.
use mathlib.Core.List.{cons≢nil}
use multi_cloud_ai_orchestra.Base.{
  ◌≡◌, ◌≢◌, refl, sym, ap, subst, String, str_eq, eq_iff, true, not, ◌&&◌, Option, none, some, List,
  [], ◌∷◌, ◌++◌, arith, map, mem_text, All, inl, inr, Bool-cases,
}
use multi_cloud_ai_orchestra.Base.Dict.{Dict, get, put}
use multi_cloud_ai_orchestra.Domain.Cloud.{CloudProviderType, ResourceSpec, resource_identifier}
use multi_cloud_ai_orchestra.Domain.Entity.{Ambient}
use multi_cloud_ai_orchestra.Domain.Plan.{DeploymentIntent, ExecutionStep}
use multi_cloud_ai_orchestra.Infrastructure.Planning.Steps.{
  new_step, steps_for, create_steps_from_resources, default_steps_for, create_default_steps,
}
use multi_cloud_ai_orchestra.Infrastructure.Planning.Dependencies.{
  index_steps, add_dependency, collect_dependencies, resolve_step, resolve_dependencies,
}
use multi_cloud_ai_orchestra.Infrastructure.Planning.Generate.{or_default, generate_plan}
use multi_cloud_ai_orchestra.Infrastructure.Planning.Checks.{
  missing_dependencies, step_errors, no_steps_error, validate_plan,
}

abbrev step_ids : List ExecutionStep → List String
step_ids steps = map (λ step. step.step_id) steps

module _ (known : List String) where
  abbrev Known : List String → Type 0
  Known names = All (λ name. mem_text name known ≡ true) names

  abbrev IsClosed : List ExecutionStep → Type 0
  IsClosed steps = All (λ step. Known step.dependencies) steps

  abbrev KnownValues : Dict String → Type 0
  KnownValues table = All (λ (entry : String × String). mem_text entry.1 known ≡ true) table

  get-Known :
      (table : Dict String) (key : String) {id : String}
      → KnownValues table
      → get key table ≡ some id
      → mem_text id known ≡ true
  unfolding get
  get-Known [] key h e = cc
  get-Known ((j, v) ∷ table) key h e = elim (Bool-cases (str_eq j key)) [
    | inl t ↦ ground (arith, h.0)
    | inr f ↦ get-Known table key h.1 (rw f at e)
  ]

  put-KnownValues :
      (table : Dict String) (key id : String)
      → mem_text id known ≡ true
      → KnownValues table
      → KnownValues (put key id table)
  unfolding put
  put-KnownValues [] key id m h = (m, tt)
  put-KnownValues ((j, v) ∷ table) key id m h = elim (Bool-cases (str_eq j key)) [
    | inl t ↦ rw t (m, h.1)
    | inr f ↦ rw f (h.0, put-KnownValues table key id m h.1)
  ]

  index_steps-KnownValues :
      (table : Dict String) (steps : List ExecutionStep)
      → KnownValues table
      → Known (step_ids steps)
      → KnownValues (index_steps table steps)
  unfolding index_steps
  index_steps-KnownValues table [] h k = h
  index_steps-KnownValues table (step ∷ steps) h k =
      let key = resource_identifier step.resource_spec in
      index_steps-KnownValues (put key step.step_id table) steps
        (put-KnownValues table key step.step_id k.0 h) k.1

  Known-append : (xs ys : List String) → Known xs → Known ys → Known (xs ++ ys)
  Known-append [] ys h k = k
  Known-append (x ∷ xs) ys h k = (h.0, Known-append xs ys h.1 k)

  add_dependency-Known :
      (found : Option String) (deps : List String)
      → ((id : String) → found ≡ some id → mem_text id known ≡ true)
      → Known deps
      → Known (add_dependency found deps)
  unfolding add_dependency
  add_dependency-Known none deps h k = k
  add_dependency-Known (some id) deps h k =
      elim (Bool-cases (not (str_eq id "") && not (mem_text id deps))) [
        | inl t ↦ rw t (Known-append deps (id ∷ []) k (h id refl, tt))
        | inr f ↦ rw f k
      ]

  collect_dependencies-Known :
      (table : Dict String) (resources deps : List String)
      → KnownValues table
      → Known deps
      → Known (collect_dependencies table resources deps)
  unfolding collect_dependencies
  collect_dependencies-Known table [] deps h k = k
  collect_dependencies-Known table (r ∷ resources) deps h k =
      collect_dependencies-Known table resources (add_dependency (get r table) deps) h
        (add_dependency-Known (get r table) deps (λ id e. get-Known table r h e) k)

  resolve-IsClosed :
      (table : Dict String) (steps : List ExecutionStep)
      → KnownValues table
      → IsClosed steps
      → IsClosed (map (resolve_step table) steps)
  unfolding resolve_step
  resolve-IsClosed table [] h k = tt
  resolve-IsClosed table (step ∷ steps) h k = (
    collect_dependencies-Known table step.resource_spec.dependencies step.dependencies h k.0,
    resolve-IsClosed table steps h k.1,
  )

  missing-nil :
      (name : String) (deps : List String) → Known deps → missing_dependencies known name deps ≡ []
  unfolding missing_dependencies
  missing-nil name [] h = refl
  missing-nil name (dep ∷ deps) h = rw h.0 (missing-nil name deps h.1)

  step_errors-nil : (steps : List ExecutionStep) → IsClosed steps → step_errors known steps ≡ []
  unfolding step_errors
  step_errors-nil [] h = refl
  step_errors-nil (step ∷ steps) h =
      rw (missing-nil step.name step.dependencies h.0) (step_errors-nil steps h.1)

  -- Steps for explicit resources start without dependencies.
  steps_for-IsClosed : (rs : List ResourceSpec) (a : Ambient) → IsClosed (steps_for rs a).0
  unfolding steps_for new_step
  steps_for-IsClosed [] a = tt
  steps_for-IsClosed (r ∷ rs) a = (tt, steps_for-IsClosed rs _)

  -- A default compute step depends on the network step before it.
  default_steps-IsClosed :
      (intent : DeploymentIntent) (providers : List CloudProviderType) (a : Ambient)
      → Known (step_ids (default_steps_for intent providers a).0)
      → IsClosed (default_steps_for intent providers a).0
  unfolding default_steps_for new_step
  default_steps-IsClosed intent [] a h = tt
  default_steps-IsClosed intent (p ∷ providers) a h =
      (tt, ((h.0, tt), default_steps-IsClosed intent providers _ h.1.1))

-- Every name of a list is in it.
Known-more : (x : String) (known names : List String) → Known known names → Known (x ∷ known) names
Known-more x known [] h = tt
Known-more x known (n ∷ names) h = (ground (arith, h.0), Known-more x known names h.1)

Known-self : (names : List String) → Known names names
Known-self [] = tt
Known-self (n ∷ names) = (ground (arith, eq_iff n n), Known-more n names names (Known-self names))

step_ids-resolve :
    (table : Dict String) (steps : List ExecutionStep)
    → step_ids (map (resolve_step table) steps) ≡ step_ids steps
unfolding resolve_step
step_ids-resolve table [] = refl
step_ids-resolve table (step ∷ steps) = ap (λ l. step.step_id ∷ l) (step_ids-resolve table steps)

resolve_dependencies-IsClosed :
    (steps : List ExecutionStep)
    → IsClosed (step_ids steps) steps
    → IsClosed (step_ids (resolve_dependencies steps)) (resolve_dependencies steps)
unfolding resolve_dependencies
resolve_dependencies-IsClosed steps h =
    let known = step_ids steps in
    let table = index_steps [] steps in
    subst (λ names. IsClosed names (map (resolve_step table) steps))
      (sym (step_ids-resolve table steps))
      (resolve-IsClosed known table steps
        (index_steps-KnownValues known [] steps tt (Known-self known)) h)

created-IsClosed :
    (intent : DeploymentIntent) (steps : List ExecutionStep) (a : Ambient)
    → ((known : List String) → IsClosed known steps)
    → let created = (or_default intent (steps, a)).0 in IsClosed (step_ids created) created
unfolding or_default create_default_steps
created-IsClosed intent [] a h =
    default_steps-IsClosed _ intent intent.target_providers a (Known-self _)
created-IsClosed intent (step ∷ steps) a h = h (step_ids (step ∷ steps))

plan-IsClosed :
    (intent : DeploymentIntent) (a : Ambient)
    → let steps = (generate_plan intent a).0.steps in IsClosed (step_ids steps) steps
unfolding generate_plan create_steps_from_resources
plan-IsClosed intent a =
    let made = create_steps_from_resources intent a in
    resolve_dependencies-IsClosed (or_default intent made).0
      (created-IsClosed intent made.0 made.1 (λ known. steps_for-IsClosed known _ a))

default_steps-ne-nil :
    (intent : DeploymentIntent) (providers : List CloudProviderType) (a : Ambient)
    → providers ≢ []
    → (default_steps_for intent providers a).0 ≢ []
unfolding default_steps_for
default_steps-ne-nil intent [] a h e = h refl
default_steps-ne-nil intent (p ∷ providers) a h e = cons≢nil e

created-ne-nil :
    (intent : DeploymentIntent) (steps : List ExecutionStep) (a : Ambient)
    → intent.target_providers ≢ []
    → (or_default intent (steps, a)).0 ≢ []
unfolding or_default create_default_steps
created-ne-nil intent [] a h = default_steps-ne-nil intent intent.target_providers a h
created-ne-nil intent (step ∷ steps) a h = cons≢nil

no_errors :
    (table : Dict String) (steps : List ExecutionStep)
    → steps ≢ []
    → no_steps_error (map (resolve_step table) steps) ≡ []
unfolding no_steps_error
no_errors table [] h = absurd (h refl)
no_errors table (step ∷ steps) h = refl

no_steps_error-plan :
    (intent : DeploymentIntent) (a : Ambient)
    → intent.target_providers ≢ []
    → no_steps_error (generate_plan intent a).0.steps ≡ []
unfolding generate_plan resolve_dependencies create_steps_from_resources
no_steps_error-plan intent a h =
    let made = create_steps_from_resources intent a in
    no_errors (index_steps [] (or_default intent made).0) (or_default intent made).0
      (created-ne-nil intent made.0 made.1 h)

errors-plan :
    (intent : DeploymentIntent) (a : Ambient)
    → intent.target_providers ≢ []
    → let steps = (generate_plan intent a).0.steps in
      no_steps_error steps ++ step_errors (step_ids steps) steps ≡ []
errors-plan intent a h =
    let steps = (generate_plan intent a).0.steps in
    rw (no_steps_error-plan intent a h)
      (step_errors-nil (step_ids steps) steps (plan-IsClosed intent a))

-- For every intent with a target provider, which the API requires, the generated plan passes
-- validate_plan: it has steps, and each dependency of a step is the id of a step of the plan.
pub validate_plan-generate_plan :
    (intent : DeploymentIntent) (a : Ambient)
    → intent.target_providers ≢ []
    → validate_plan (generate_plan intent a).0 ≡ (true, [])
unfolding validate_plan
validate_plan-generate_plan intent a h = rw (errors-plan intent a h)
