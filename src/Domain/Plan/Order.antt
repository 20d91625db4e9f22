-- ===== src/Domain/Plan/Order.antt =====
-- ExecutionPlan.get_execution_order: the waves in which steps may run. The set `completed` is the
-- list of its members. `remaining.remove(step)` finds its step, since the wave is drawn from
-- `remaining`; steps are compared by their fields, dictionaries by their entries in order.
pub mod Complete
pub mod Respects
use mathlib.Core.Logic.{ite}
use multi_cloud_ai_orchestra.Base.{
  ℕ, zero, suc, String, Bool, List, [], ◌∷◌, ◌++◌, map, all, mem_text, select, length,
}
use multi_cloud_ai_orchestra.Domain.Plan.{ExecutionStep, ExecutionStep-discrete, ExecutionPlan}

abbrev pub ids : List ExecutionStep → List String
ids steps = map (λ step. step.step_id) steps

-- `all(dep in completed for dep in step.dependencies)`
unfoldable pub satisfied : List String → ExecutionStep → Bool
satisfied completed step = all (λ dep. mem_text dep completed) step.dependencies

-- `remaining.remove(step)`
unfoldable pub remove : ExecutionStep → List ExecutionStep → List ExecutionStep
remove step [] = []
remove step (r ∷ remaining) =
    let rest = remove step remaining in ite (ExecutionStep-discrete r step) remaining (r ∷ rest)

-- `for step in wave: remaining.remove(step)`
unfoldable pub remove_all : List ExecutionStep → List ExecutionStep → List ExecutionStep
remove_all [] remaining = remaining
remove_all (step ∷ wave) remaining = remove_all wave (remove step remaining)

-- `if not wave: wave = [remaining[0]]`
unfoldable pub or_first : List ExecutionStep → ExecutionStep → List ExecutionStep
or_first [] first = first ∷ []
or_first (step ∷ wave) first = step ∷ wave

-- The `while` loop, on fuel.
unfoldable pub rounds : ℕ → List String → List ExecutionStep → List (List ExecutionStep)
rounds zero completed remaining = []
rounds (suc fuel) completed [] = []
rounds (suc fuel) completed (first ∷ others) =
    let remaining = first ∷ others in
    let wave = or_first (select (satisfied completed) remaining) first in
    wave ∷ rounds fuel (completed ++ ids wave) (remove_all wave remaining)

-- A round removes a step at least, so there are at most as many rounds as steps.
unfoldable pub get_execution_order : ExecutionPlan → List (List ExecutionStep)
get_execution_order plan = rounds (length plan.steps) [] plan.steps
