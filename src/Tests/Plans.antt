-- ===== src/Tests/Plans.antt =====
-- The theorems on plans at concrete inputs.
use mathlib.Core.List.{Perm, flatten, cons≢nil}
use multi_cloud_ai_orchestra.Base.{
  ℕ, ◌≡◌, ◌≢◌, refl, String, str_eq, eq_iff, true, [], ◌∷◌, arith, All, select, if◌then◌else◌,
}
use multi_cloud_ai_orchestra.Base.Sort.{IsSorted, ascending, same_key}
use multi_cloud_ai_orchestra.Domain.Cloud.{network, compute, database}
use multi_cloud_ai_orchestra.Domain.Plan.Order.{get_execution_order}
use multi_cloud_ai_orchestra.Domain.Plan.Order.Complete.{get_execution_order-perm}
use multi_cloud_ai_orchestra.Domain.Plan.Order.Respects.{IsOrdered, get_execution_order-IsOrdered}
use multi_cloud_ai_orchestra.Infrastructure.Planning.Tables.{priority}
use multi_cloud_ai_orchestra.Infrastructure.Planning.Generate.{generate_plan}
use multi_cloud_ai_orchestra.Infrastructure.Planning.Checks.{validate_plan}
use multi_cloud_ai_orchestra.Infrastructure.Planning.Sorted.{specs, generate_plan-resources}
use multi_cloud_ai_orchestra.Infrastructure.Planning.Valid.{validate_plan-generate_plan}
use multi_cloud_ai_orchestra.Tests.Samples.{outside, intent, plan, spec}

get_execution_order-perm_example :
    Perm (flatten (get_execution_order plan)) plan.steps
    × All (λ w. w ≢ []) (get_execution_order plan)
get_execution_order-perm_example = get_execution_order-perm plan

-- The network comes first.
abbrev level : String → ℕ
level id = if str_eq id "vpc" then 0 else 1

get_execution_order-IsOrdered_example : IsOrdered [] (get_execution_order plan)
get_execution_order-IsOrdered_example =
    get_execution_order-IsOrdered level plan
      (λ dep m f. ground (arith, eq_iff "vpc" dep, m), (λ dep m f. cc, tt))

generate_plan-resources_example :
    let made = specs (generate_plan intent outside).0.steps in
    Perm made intent.resources
    × IsSorted (ascending priority) made
    × ((k : ℕ) → select (same_key priority k) made ≡ select (same_key priority k) intent.resources)
generate_plan-resources_example =
    generate_plan-resources intent outside (spec database "db")
      (spec compute "web" ∷ spec network "vpc" ∷ []) refl

validate_plan-generate_plan_example : validate_plan (generate_plan intent outside).0 ≡ (true, [])
validate_plan-generate_plan_example = validate_plan-generate_plan intent outside cons≢nil
