-- ===== src/Domain/Deployment/Calls.antt =====
-- Clients of a deployment: one value for each mutating method, and sequences of calls in which
-- an exception ends only its own call.
use multi_cloud_ai_orchestra.Base.{String, List, [], ◌∷◌}
use multi_cloud_ai_orchestra.Domain.Entity.{Live}
use multi_cloud_ai_orchestra.Domain.Plan.{ExecutionPlan, StepResult}
use multi_cloud_ai_orchestra.Domain.Deployment
use multi_cloud_ai_orchestra.Domain.Deployment.{Deployment, Action}

pub data Call : Type 0 where
  start_planning start_execution start_verification complete start_rollback complete_rollback
        cancel :
      Call
  set_plan : ExecutionPlan → Call
  approve fail : String → Call
  record_step_result : StepResult → Call

unfoldable pub perform : Call → Action
perform start_planning = Deployment.start_planning
perform (set_plan plan) = Deployment.set_plan plan
perform (approve approved_by) = Deployment.approve approved_by
perform start_execution = Deployment.start_execution
perform (record_step_result result) = Deployment.record_step_result result
perform start_verification = Deployment.start_verification
perform complete = Deployment.complete
perform (fail message) = Deployment.fail message
perform start_rollback = Deployment.start_rollback
perform complete_rollback = Deployment.complete_rollback
perform cancel = Deployment.cancel

-- The object after one call, whether it returned or raised.
abbrev pub after : Call → Live Deployment → Live Deployment
after c s = (perform c s).1

unfoldable pub run : List Call → Live Deployment → Live Deployment
run [] s = s
run (c ∷ cs) s = run cs (after c s)
