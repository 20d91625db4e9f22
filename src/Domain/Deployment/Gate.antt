-- ===== src/Domain/Deployment/Gate.antt =====
-- Approval, and the runs of a deployment.
use multi_cloud_ai_orchestra.Base.{
  ◌≡◌, Bool, true, false, List, [], ◌∷◌, arith, any, inl, inr, Bool-cases,
}
use multi_cloud_ai_orchestra.Domain.Status.{
  DeploymentStatus, valid_transitions, pending, planned, approved, executing, verifying, completed,
}
use multi_cloud_ai_orchestra.Domain.Entity.{Live}
use multi_cloud_ai_orchestra.Domain.Deployment.{Deployment, methods}
use multi_cloud_ai_orchestra.Domain.Deployment.Calls.{Call, perform, after, run}

-- The states that lie behind the approval.
abbrev pub is_released : DeploymentStatus → Bool
is_released planned = true
is_released approved = true
is_released executing = true
is_released verifying = true
is_released completed = true
is_released _ = false

abbrev pub is_approve : Call → Bool
is_approve (Call.approve _) = true
is_approve _ = false

record Held (s : Live Deployment) : Type 0 where
  manual : s.self.intent.auto_approve ≡ false
  closed : is_released s.self.status ≡ false

perform-Held : (c : Call) (s : Live Deployment) → is_approve c ≡ false → Held s → Held (after c s)
unfolding perform methods valid_transitions
perform-Held Call.start_planning s n h = ground arith
perform-Held _ s n h = ground arith

run-Held :
    (cs : List Call) (s : Live Deployment) → Held s → any is_approve cs ≡ false → Held (run cs s)
unfolding run
run-Held [] s h n = h
run-Held (c ∷ cs) s h n = run-Held cs (after c s) (perform-Held c s (ground arith) h) (ground arith)

-- If a pending deployment whose intent does not ask for auto-approval is planned, approved,
-- executing, verifying or completed after some sequence of calls, raising ones included, then
-- that sequence has a call of `approve`.
pub run-needs_approve :
    (cs : List Call) (s : Live Deployment)
    → s.self.status ≡ pending
    → s.self.intent.auto_approve ≡ false
    → is_released (run cs s).self.status ≡ true
    → any is_approve cs ≡ true
run-needs_approve cs s p m r = elim (Bool-cases (any is_approve cs)) [
  | inl found ↦ found
  | inr none ↦ ground (arith, run-Held cs s (ground arith) none)
]
