-- ===== src/Infrastructure/Planning/Sorted.antt =====
-- A plan for explicit resources: its steps and their order.
use mathlib.Core.List.{cons≢nil}
use mathlib.Core.List.{Perm}
use multi_cloud_ai_orchestra.Base.{
  ℕ, ◌≡◌, ◌≢◌, refl, sym, ap, ◌∙◌, List, [], ◌∷◌, map, select, inl, inr, Bool-cases,
}
use multi_cloud_ai_orchestra.Base.Dict.{Dict}
use multi_cloud_ai_orchestra.Base.Sort.{
  insert, sort, sorted, ascending, same_key, IsSorted, sort-perm, sort-IsSorted, ascending-IsTotal,
  sorted-stable,
}
use multi_cloud_ai_orchestra.Domain.Cloud.{ResourceSpec}
use multi_cloud_ai_orchestra.Domain.Entity.{Ambient}
use multi_cloud_ai_orchestra.Domain.Plan.{DeploymentIntent, ExecutionStep}
use multi_cloud_ai_orchestra.Infrastructure.Planning.Tables.{priority}
use multi_cloud_ai_orchestra.Infrastructure.Planning.Steps.{
  new_step, steps_for, create_steps_from_resources,
}
use multi_cloud_ai_orchestra.Infrastructure.Planning.Dependencies.{
  resolve_step, resolve_dependencies,
}
use multi_cloud_ai_orchestra.Infrastructure.Planning.Generate.{or_default, generate_plan}

abbrev pub specs : List ExecutionStep → List ResourceSpec
specs steps = map (λ step. step.resource_spec) steps

specs-steps_for : (rs : List ResourceSpec) (a : Ambient) → specs (steps_for rs a).0 ≡ rs
unfolding steps_for new_step
specs-steps_for [] a = refl
specs-steps_for (r ∷ rs) a = ap (λ l. r ∷ l) (specs-steps_for rs _)

specs-resolve :
    (table : Dict _) (steps : List ExecutionStep)
    → specs (map (resolve_step table) steps) ≡ specs steps
unfolding resolve_step
specs-resolve table [] = refl
specs-resolve table (step ∷ steps) = ap (λ l. step.resource_spec ∷ l) (specs-resolve table steps)

insert-ne-nil : (r : ResourceSpec) (rs : List ResourceSpec) → insert (ascending priority) r rs ≢ []
unfolding insert
insert-ne-nil r [] e = cons≢nil e
insert-ne-nil r (q ∷ rs) e = elim (Bool-cases (ascending priority r q)) [
  | inl t ↦ cons≢nil (rw t at e)
  | inr f ↦ cons≢nil (rw f at e)
]

sorted-ne-nil : (r : ResourceSpec) (rs : List ResourceSpec) → sorted priority (r ∷ rs) ≢ []
unfolding sort
sorted-ne-nil r rs = insert-ne-nil r (sorted priority rs)

specs-or_default :
    (intent : DeploymentIntent) (steps : List ExecutionStep) (a : Ambient)
    → specs steps ≢ []
    → specs (or_default intent (steps, a)).0 ≡ specs steps
unfolding or_default
specs-or_default intent [] a h = absurd (h refl)
specs-or_default intent (step ∷ steps) a h = refl

specs-generate_plan :
    (intent : DeploymentIntent) (a : Ambient) (r : ResourceSpec) (rs : List ResourceSpec)
    → intent.resources ≡ r ∷ rs
    → specs (generate_plan intent a).0.steps ≡ sorted priority intent.resources
unfolding generate_plan resolve_dependencies create_steps_from_resources
specs-generate_plan intent a r rs e =
    let order = sorted priority intent.resources in
    let made = specs-steps_for order a in
    specs-resolve _ _
    ∙ specs-or_default intent (steps_for order a).0 (steps_for order a).1
        (λ none. sorted-ne-nil r rs (ap (sorted priority) (sym e) ∙ sym made ∙ none))
    ∙ made

-- If the intent lists resources, the specifications of the plan's steps are these resources, each
-- as often as it is listed, in ascending order of RESOURCE_PRIORITY, and resources of the same
-- priority stand in the order in which the intent lists them.
pub generate_plan-resources :
    (intent : DeploymentIntent) (a : Ambient) (r : ResourceSpec) (rs : List ResourceSpec)
    → intent.resources ≡ r ∷ rs
    → let made = specs (generate_plan intent a).0.steps in
      Perm made intent.resources
      × IsSorted (ascending priority) made
      × ((k : ℕ)
          → select (same_key priority k) made ≡ select (same_key priority k) intent.resources)
generate_plan-resources intent a r rs e = rw (specs-generate_plan intent a r rs e) (
  sort-perm (ascending priority) intent.resources,
  sort-IsSorted (ascending-IsTotal priority) intent.resources,
  λ k. sorted-stable priority k intent.resources,
)
