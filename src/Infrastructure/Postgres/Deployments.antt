-- ===== src/Infrastructure/Postgres/Deployments.antt =====
-- PostgresDeploymentRepository of infrastructure/persistence/repositories/deployment_repo.py. The
-- dumps of the pydantic models are a parameter.
pub mod Revised
use multi_cloud_ai_orchestra.Base.{
  ℕ, String, str_eq, Bool, true, false, List, [], ◌∷◌, Option, none, some, Method, pure, or_raise,
  ◌>>=◌, ◌>>◌, Json, leb, if◌then◌else◌,
}
use multi_cloud_ai_orchestra.Domain.Status.{DeploymentStatus}
use multi_cloud_ai_orchestra.Domain.Enums.{deployment_status_value, deployment_status_of}
use multi_cloud_ai_orchestra.Domain.Plan.{DeploymentIntent, ExecutionPlan, StepResult}
use multi_cloud_ai_orchestra.Domain.Deployment.{Deployment}
use multi_cloud_ai_orchestra.Domain.Ports.{DeploymentRepository}
use multi_cloud_ai_orchestra.Infrastructure.Postgres.{
  RepositoryError, value_error, Query, select_where, Session, each, if_found,
}
use multi_cloud_ai_orchestra.Infrastructure.Postgres.Columns.{
  Dumps, or_empty_text, time, truthy, dump_all, validate_column,
}
use multi_cloud_ai_orchestra.Infrastructure.Postgres.Models.{DeploymentOrm}

-- `DeploymentORM.created_at.desc()`
abbrev pub created_desc : DeploymentOrm → DeploymentOrm → Bool
created_desc r s = leb (time s.created_at) (time r.created_at)

module _ (intents : Dumps DeploymentIntent) (plans : Dumps ExecutionPlan)
    (results : Dumps StepResult) where
  -- `deployment.plan.model_dump() if deployment.plan else None`
  abbrev pub dump_plan : Option ExecutionPlan → Option Json
  dump_plan none = none
  dump_plan (some plan) = some (plans.model_dump plan)

  -- _to_orm
  unfoldable pub deployment_to_orm : Deployment → DeploymentOrm
  unfolding deployment_status_value
  deployment_to_orm deployment = record {
    id = deployment.id;
    name = deployment.name;
    status = deployment_status_value deployment.status;
    intent_data = intents.model_dump deployment.intent;
    plan_data = dump_plan deployment.plan;
    step_results_data = some (dump_all results deployment.step_results);
    initiated_by = deployment.initiated_by;
    tenant_id = deployment.tenant_id;
    error_message = some deployment.error_message;
    rollback_deployment_id = deployment.rollback_deployment_id;
    version = deployment.version;
    created_at = none;
    updated_at = none;
  }

  -- `orm_data` of update
  unfoldable pub deployment_values : Deployment → DeploymentOrm → DeploymentOrm
  deployment_values deployment orm = record orm {
    name = deployment.name;
    status = deployment_status_value deployment.status;
    intent_data = intents.model_dump deployment.intent;
    plan_data = dump_plan deployment.plan;
    step_results_data = some (dump_all results deployment.step_results);
    error_message = some deployment.error_message;
    rollback_deployment_id = deployment.rollback_deployment_id;
    version = deployment.version;
  }

  module _ {S : Type 0} where
    -- `ExecutionPlan.model_validate(orm.plan_data)` under `if orm.plan_data:`
    abbrev pub validate_plan : Option Json → Method RepositoryError S (Option ExecutionPlan)
    validate_plan none = pure none
    validate_plan (some json) =
        if truthy json
        then (do plan ← or_raise (plans.model_validate json) value_error; pure (some plan))
        else pure none

    -- _to_domain
    unfoldable pub deployment_to_domain : DeploymentOrm → Method RepositoryError S Deployment
    deployment_to_domain orm = do
      plan ← validate_plan orm.plan_data
      step_results ← or_raise (validate_column results orm.step_results_data) value_error
      status ← or_raise (deployment_status_of orm.status) value_error
      intent ← or_raise (intents.model_validate orm.intent_data) value_error
      created_at ← or_raise orm.created_at value_error
      updated_at ← or_raise orm.updated_at value_error
      pure (record {
        entity = record {
          id = orm.id;
          created_at = created_at;
          updated_at = updated_at;
          version = orm.version;
        };
        domain_events = [];
        name = orm.name;
        intent = intent;
        status = status;
        plan = plan;
        step_results = step_results;
        initiated_by = orm.initiated_by;
        tenant_id = orm.tenant_id;
        error_message = or_empty_text orm.error_message;
        rollback_deployment_id = orm.rollback_deployment_id;
      })

  module _ {S : Type 0} (session : Session S DeploymentOrm) where
    unfoldable pub save_deployment : Deployment → Method RepositoryError S Deployment
    save_deployment deployment = do session.add (deployment_to_orm deployment); pure deployment

    unfoldable pub deployment_by_id : String → Method RepositoryError S (Option Deployment)
    deployment_by_id deployment_id = do
      orm ← session.scalar_one_or_none (select_where (λ r. str_eq r.id deployment_id))
      if_found deployment_to_domain orm

    -- The page of a listing, the newest first.
    abbrev pub newest : (DeploymentOrm → Bool) → ℕ → ℕ → Query DeploymentOrm
    newest matches limit offset = record (select_where matches) {
      order_by = some created_desc;
      limit = some limit;
      offset = offset;
    }

    unfoldable pub deployments_by_status :
        DeploymentStatus → ℕ → ℕ → Method RepositoryError S (List Deployment)
    deployments_by_status status limit offset = do
      rows ←
          session.scalars
            (newest (λ r. str_eq r.status (deployment_status_value status)) limit offset)
      each deployment_to_domain rows

    unfoldable pub deployments_by_tenant :
        String → ℕ → ℕ → Method RepositoryError S (List Deployment)
    deployments_by_tenant tenant_id limit offset = do
      rows ← session.scalars (newest (λ r. str_eq r.tenant_id tenant_id) limit offset)
      each deployment_to_domain rows

    unfoldable pub update_deployment : Deployment → Method RepositoryError S Deployment
    update_deployment deployment = do
      session.update (λ r. str_eq r.id deployment.id) (deployment_values deployment)
      pure deployment

    unfoldable pub count_by_status : DeploymentStatus → Method RepositoryError S ℕ
    count_by_status status = session.count (λ r. str_eq r.status (deployment_status_value status))

    -- The port that the class fills.
    abbrev pub deployment_repository : DeploymentRepository RepositoryError S
    deployment_repository = record {
      save = save_deployment;
      get_by_id = deployment_by_id;
      list_by_status = deployments_by_status;
      list_by_tenant = deployments_by_tenant;
      update = update_deployment;
      count_by_status = count_by_status;
    }
