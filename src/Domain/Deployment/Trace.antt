-- ===== src/Domain/Deployment/Trace.antt =====
-- Runs of a deployment, the transition table and the version.
use Prim.Native.Nat.add
use multi_cloud_ai_orchestra.Base.{
  not, ◌&&◌, fstring, gets, ◌>>=◌, if◌then◌else◌, modify, ◌>>◌, skip, some, ◌++◌, String, ℕ, zero,
  suc, ◌+◌, ◌≡◌, true, inl, inr, Bool-cases, List, [], ◌∷◌, arith, any, length, length-append,
}
use multi_cloud_ai_orchestra.Base.Relates.{
  Relates, IsPreorder, Relates-bind, Relates-then, Relates-gets, Relates-skip, Relates-if,
}
use multi_cloud_ai_orchestra.Domain.Plan.{ExecutionPlan, StepResult}
use multi_cloud_ai_orchestra.Domain.Errors.{Error}
use multi_cloud_ai_orchestra.Domain.Events.{EventBody}
use multi_cloud_ai_orchestra.Domain.Status.{DeploymentStatus, is_status, valid_transitions}
use multi_cloud_ai_orchestra.Domain.Entity
use multi_cloud_ai_orchestra.Domain.Entity.{Live}
use multi_cloud_ai_orchestra.Domain.Deployment.{
  Deployment, transition_to, add_event, approve, fail, start_planning, set_plan, touch, Action,
  record_step_result, start_execution, start_verification, complete, start_rollback,
  complete_rollback, cancel,
}
use multi_cloud_ai_orchestra.Domain.Deployment.Calls.{Call, perform, after, run}

abbrev pub CanMove : DeploymentStatus → DeploymentStatus → Type 0
CanMove a b = any (is_status b) (valid_transitions a) ≡ true

-- A path of `n` edges of the transition table.
pub data Moves : ℕ → DeploymentStatus → DeploymentStatus → Type 0 where
  stay : {a : DeploymentStatus} → Moves zero a a
  move : {n : ℕ} {a b c : DeploymentStatus} → CanMove a b → Moves n b c → Moves (suc n) a c

Moves-trans : {n m : ℕ} {a b c : DeploymentStatus} → Moves n a b → Moves m b c → Moves (n + m) a c
Moves-trans stay q = rw (add.zero) q
Moves-trans (move h p) q = rw (add.suc) (move h (Moves-trans p q))

-- `s` became `t` along the table, and the version rose by one for each move and each result.
pub record Accounted (s t : Live Deployment) : Type 0 where
  pub moves : ℕ
  pub path : Moves moves s.self.status t.self.status
  pub versions :
      t.self.version + length s.self.step_results
      ≡ s.self.version + moves + length t.self.step_results

Accounted-order : IsPreorder Accounted
Accounted-order = record {
  same = λ s. record { moves = 0; path = stay; versions = omega arith };
  join = λ s t u p q. record {
    moves = p.moves + q.moves;
    path = Moves-trans p.path q.path;
    versions = omega (arith, p.versions, q.versions);
  };
}

transition_to-Accounted : (b : DeploymentStatus) → Relates Accounted (transition_to b)
unfolding transition_to touch Entity.touch
transition_to-Accounted b = record {
  at = λ s. elim (Bool-cases (any (is_status b) (valid_transitions s.self.status))) [
    | inl valid ↦ rw valid (record { moves = 1; path = move valid stay; versions = omega arith })
    | inr invalid ↦ rw invalid (IsPreorder.same Accounted-order s)
  ];
}

add_event-Accounted : (body : String → EventBody) → Relates Accounted (add_event body)
unfolding add_event
add_event-Accounted body = record {
  at = λ s. record { moves = 0; path = stay; versions = omega arith };
}

plan-Accounted :
    (plan : ExecutionPlan)
    → Relates Accounted
        (modify {E = Error} (λ s. record s { self = record s.self { plan = some plan } }))
plan-Accounted plan = record { at = λ s. record { moves = 0; path = stay; versions = omega arith } }

message-Accounted :
    (message : String)
    → Relates Accounted
        (modify {E = Error} (λ s. record s { self = record s.self { error_message = message } }))
message-Accounted message = record {
  at = λ s. record { moves = 0; path = stay; versions = omega arith };
}

ruleset rules = (
  transition_to-Accounted, add_event-Accounted, plan-Accounted, message-Accounted, Accounted-order,
  Relates-bind, Relates-then, Relates-gets, Relates-skip, Relates-if,
)

approve-Accounted : (by : String) → Relates Accounted (approve by)
unfolding approve
approve-Accounted by = search rules

fail-Accounted : (message : String) → Relates Accounted (fail message)
unfolding fail
fail-Accounted message = search rules

set_plan-Accounted : (plan : ExecutionPlan) → Relates Accounted (set_plan plan)
unfolding set_plan
set_plan-Accounted plan = search (rules, approve-Accounted) depth 9

-- The append and the `touch` that follows it, as one step.
filed-Accounted :
    (result : StepResult) (rest : Action)
    → Relates Accounted rest
    → Relates Accounted (
        modify (λ s. record s {
          self = record s.self { step_results = s.self.step_results ++ result ∷ [] };
        })
        >> (touch >> rest))
unfolding touch Entity.touch
filed-Accounted result rest h = record {
  at = λ s.
      let t : Live Deployment =
        (touch (record s {
          self = record s.self { step_results = s.self.step_results ++ result ∷ [] };
        })).1 in
      IsPreorder.join Accounted-order s t _
        (record {
          moves = 0;
          path = stay;
          versions = omega (arith, length-append {0} s.self.step_results (result ∷ []));
        })
        (h.at t);
}

record_step_result-Accounted : (r : StepResult) → Relates Accounted (record_step_result r)
unfolding record_step_result
record_step_result-Accounted r =
    filed-Accounted r
      (do
        rollback ← gets (λ s. s.self.intent.rollback_on_failure)
        if not r.success && rollback
            then fail (fstring ("Step " ∷ r.step_id ∷ " failed: " ∷ r.error_message ∷ []))
            else skip)
      (search (rules, fail-Accounted))

perform-Accounted : (c : Call) → Relates Accounted (perform c)
unfolding perform start_planning start_execution start_verification complete start_rollback
    complete_rollback cancel
perform-Accounted (Call.set_plan p) = set_plan-Accounted p
perform-Accounted (Call.approve by) = approve-Accounted by
perform-Accounted (Call.fail m) = fail-Accounted m
perform-Accounted (Call.record_step_result r) = record_step_result-Accounted r
perform-Accounted _ = search rules

-- Whatever sequence of methods a client calls, and whichever of them raise, the status follows a
-- path of VALID_TRANSITIONS, and the version rises by exactly one for each edge of that path and
-- each step result that was recorded.
pub run-Accounted : (cs : List Call) (s : Live Deployment) → Accounted s (run cs s)
unfolding run
run-Accounted [] s = IsPreorder.same Accounted-order s
run-Accounted (c ∷ cs) s =
    IsPreorder.join Accounted-order s (after c s) (run cs (after c s)) ((perform-Accounted c).at s)
      (run-Accounted cs (after c s))
