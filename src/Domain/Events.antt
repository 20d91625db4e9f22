-- ===== src/Domain/Events.antt =====
-- domain/events/deployment_events.py, and DomainEvent of domain/models/base.py.
use multi_cloud_ai_orchestra.Base.{ℕ, String, Fields, no_fields}
use multi_cloud_ai_orchestra.Domain.Entity.{Ambient, fresh_id, after_id, now, after_now}

-- The event classes, with the fields that each adds.
pub data EventBody : Type 0 where
  deployment_created : (deployment_id : String) → EventBody
  deployment_plan_generated : (deployment_id plan_id : String) (step_count : ℕ) → EventBody
  deployment_approved : (deployment_id approved_by : String) → EventBody
  deployment_started : (deployment_id : String) → EventBody
  deployment_completed : (deployment_id : String) → EventBody
  deployment_failed : (deployment_id error_message : String) → EventBody
  deployment_rollback_started : (deployment_id : String) → EventBody
  deployment_rollback_completed : (deployment_id : String) → EventBody

-- The default of `event_type` in each class.
unfoldable pub event_type : EventBody → String
event_type (deployment_created _) = "deployment.created"
event_type (deployment_plan_generated _ _ _) = "deployment.plan_generated"
event_type (deployment_approved _ _) = "deployment.approved"
event_type (deployment_started _) = "deployment.started"
event_type (deployment_completed _) = "deployment.completed"
event_type (deployment_failed _ _) = "deployment.failed"
event_type (deployment_rollback_started _) = "deployment.rollback_started"
event_type (deployment_rollback_completed _) = "deployment.rollback_completed"

pub record DomainEvent : Type 0 where
  pub event_id : String
  pub occurred_at : ℕ
  pub correlation_id : String
  pub metadata : Fields
  pub body : EventBody

-- The construction of an event with a `correlation_id`.
unfoldable pub new_event : EventBody → String → Ambient → DomainEvent × Ambient
new_event body correlation a =
    let a' = after_id a in
    (
      record {
        event_id = fresh_id a;
        occurred_at = now a';
        correlation_id = correlation;
        metadata = no_fields;
        body = body;
      },
      after_now a',
    )
