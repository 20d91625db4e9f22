-- ===== src/Infrastructure/Postgres/Deployments/Revised.antt =====
-- What the deployment repository gives back of a deployment that it has saved and updated.
use multi_cloud_ai_orchestra.Base.{
  then-pure, ◌≡◌, ◌≢◌, refl, ℕ, String, str_eq, true, false, All, Option, none, some, [], ok,
}
use multi_cloud_ai_orchestra.Domain.Enums.{deployment_status_of-deployment_status_value}
use multi_cloud_ai_orchestra.Domain.Plan.{DeploymentIntent, ExecutionPlan, StepResult}
use multi_cloud_ai_orchestra.Domain.Deployment.{Deployment}
use multi_cloud_ai_orchestra.Infrastructure.Postgres.{Session, IsTable}
use multi_cloud_ai_orchestra.Infrastructure.Postgres.Columns.{
  Dumps, IsDumped, validate_all-dump_all,
}
use multi_cloud_ai_orchestra.Infrastructure.Postgres.Kept.{
  after_add, after_update, added, added_row, updated, updated_row, updated_others,
}
use multi_cloud_ai_orchestra.Infrastructure.Postgres.Models.{
  DeploymentOrm, deployments, deployment_fits,
}
use multi_cloud_ai_orchestra.Infrastructure.Postgres.Deployments.{
  deployment_to_orm, deployment_to_domain, deployment_values, save_deployment, deployment_by_id,
  update_deployment, validate_plan, dump_plan,
}

-- The deployment as the repository reads it back: the server's times stand for its own, and it has no
-- events to publish.
abbrev pub stored : ℕ → Deployment → Deployment
stored t d = record d {
  entity = record d.entity { created_at = t; updated_at = t };
  domain_events = [];
}

-- What an update writes of `new` over a deployment that is stored.
abbrev pub revised : ℕ → Deployment → Deployment → Deployment
revised t old new = record old {
  entity = record old.entity { updated_at = t; version = new.version };
  name = new.name;
  intent = new.intent;
  status = new.status;
  plan = new.plan;
  step_results = new.step_results;
  error_message = new.error_message;
  rollback_deployment_id = new.rollback_deployment_id;
}

module _ (intents : Dumps DeploymentIntent) (plans : Dumps ExecutionPlan)
    (results : Dumps StepResult) {S : Type 0} (session : Session S DeploymentOrm)
    (table : IsTable deployments session) where
  abbrev pub IsDumpedPlan : Option ExecutionPlan → Type 0
  IsDumpedPlan none = Unit
  IsDumpedPlan (some plan) = IsDumped plans plan

  -- Every pydantic model in the deployment is dumped to a value that is validated to it.
  abbrev pub IsDumpedWhole : Deployment → Type 0
  IsDumpedWhole d =
      IsDumped intents d.intent × IsDumpedPlan d.plan × All (IsDumped results) d.step_results

  -- The row of a deployment that is saved.
  abbrev row : ℕ → Deployment → DeploymentOrm
  row t d = deployments.inserted t (deployment_to_orm intents plans results d)

  -- The row of a saved deployment after an update.
  abbrev revised_row : ℕ → ℕ → Deployment → Deployment → DeploymentOrm
  revised_row t t' old new =
      deployments.updated t' (deployment_values intents plans results new (row t old))

  validate_plan-dump_plan :
      (plan : Option ExecutionPlan) (s : S)
      → IsDumpedPlan plan
      → validate_plan intents plans results (dump_plan intents plans results plan) s ≡ (ok plan, s)
  validate_plan-dump_plan none s h = refl
  validate_plan-dump_plan (some plan) s h = rw (h.1, h.0) refl

  row-to_domain :
      (t : ℕ) (d : Deployment) (s : S)
      → IsDumpedWhole d
      → deployment_to_domain intents plans results (row t d) s ≡ (ok (stored t d), s)
  unfolding deployment_to_domain deployment_to_orm
  row-to_domain t d s h =
      rw
        (
          validate_plan-dump_plan d.plan s h.1,
          validate_all-dump_all results d.step_results h.2,
          deployment_status_of-deployment_status_value d.status,
          h.0.0,
        )
        refl

  revised_row-to_domain :
      (t t' : ℕ) (old new : Deployment) (s : S)
      → IsDumpedWhole new
      → deployment_to_domain intents plans results (revised_row t t' old new) s
        ≡ (ok (revised t' (stored t old) new), s)
  unfolding deployment_to_domain deployment_to_orm deployment_values
  revised_row-to_domain t t' old new s h =
      rw
        (
          validate_plan-dump_plan new.plan s h.1,
          validate_all-dump_all results new.step_results h.2,
          deployment_status_of-deployment_status_value new.status,
          h.0.0,
        )
        refl

  get_row :
      (k : String) (s : S) {r : DeploymentOrm} {d : Deployment}
      → table.lookup s k ≡ some r
      → deployment_to_domain intents plans results r s ≡ (ok d, s)
      → deployment_by_id intents plans results session k s ≡ (ok (some d), s)
  unfolding deployment_by_id
  get_row k s found e = rw (table.by_identity k s, found, e) refl

  saved :
      (d : Deployment) (s : S)
      → (session.add (deployment_to_orm intents plans results d) s).0 ≡ ok tt
      → save_deployment intents plans results session d s
        ≡ (ok d, (session.add (deployment_to_orm intents plans results d) s).1)
  unfolding save_deployment
  saved d s h = then-pure (session.add (deployment_to_orm intents plans results d)) tt d s h

  revises :
      (d : Deployment) (s : S)
      → (session.update (λ r. str_eq r.id d.id) (deployment_values intents plans results d) s).0
        ≡ ok tt
      → update_deployment intents plans results session d s ≡ (
        ok d,
        (session.update (λ r. str_eq r.id d.id) (deployment_values intents plans results d) s).1,
      )
  unfolding update_deployment
  revises d s h =
      then-pure (session.update (λ r. str_eq r.id d.id) (deployment_values intents plans results d))
        tt d s h

  values_id :
      (new : Deployment) (r : DeploymentOrm)
      → deployments.identity (deployment_values intents plans results new r)
        ≡ deployments.identity r
  unfolding deployment_values
  values_id new r = refl

  values_clashes :
      (new : Deployment) (r other : DeploymentOrm)
      → deployments.clashes (deployment_values intents plans results new r) other
        ≡ deployments.clashes r other
  unfolding deployment_values
  values_clashes new r other = refl

  same_id :
      (old new : Deployment)
      → new.id ≡ old.id
      → new.id ≡ deployments.identity (deployment_to_orm intents plans results old)
  unfolding deployment_to_orm
  same_id old new e = e

  -- For deployments whose pydantic models are dumped to values that are validated to the same models:
  -- one that fits the columns, and whose id no row has, is saved. Then the repository finds it under
  -- its id, with the server's time for its two times and no events. Then an update with a
  -- deployment of this id that fits the columns writes everything but the initiator, the tenant and
  -- the time of creation, which stay those of the deployment that was saved. No other row changes.
  pub deployment_by_id-update_deployment :
      (old new : Deployment) (s : S)
      → IsDumpedWhole old
      → IsDumpedWhole new
      → deployment_fits (deployment_to_orm intents plans results old) ≡ true
      → ((k : String) (r : DeploymentOrm)
          → table.lookup s k ≡ some r
          → deployments.clashes (deployment_to_orm intents plans results old) r ≡ false)
      → new.id ≡ old.id
      → deployment_fits (deployment_values intents plans results new (row (table.server_now s) old))
        ≡ true
      → let (result, t) = save_deployment intents plans results session old s in
        let (result', u) = update_deployment intents plans results session new t in
        (result ≡ ok old)
        × (deployment_by_id intents plans results session old.id t
            ≡ (ok (some (stored (table.server_now s) old)), t))
        × (result' ≡ ok new)
        × (deployment_by_id intents plans results session old.id u
            ≡ (ok (some (revised (table.server_now t) (stored (table.server_now s) old) new)), u))
        × ((k : String) → k ≢ old.id → table.lookup u k ≡ table.lookup s k)
  unfolding deployment_to_orm
  deployment_by_id-update_deployment old new s dumped dumped_new fits alone same fits_new =
      let r = deployment_to_orm intents plans results old in
      let t = table.server_now s in
      let later = after_add deployments session table r s fits alone in
      let values = deployment_values intents plans results new in
      let id = same_id old new same in
      let last =
        after_update deployments session table r s fits alone new.id id values (values_id new)
          (values_clashes new) fits_new in
      rw
        (
          saved old s (added deployments session table r s fits alone),
          revises new later (
              updated deployments session table r s fits alone new.id id values (values_id new)
                (values_clashes new) fits_new),
        )
        (
          refl,
          get_row old.id later (added_row deployments session table r s fits alone)
              (row-to_domain t old later dumped),
          refl,
          get_row old.id last
              (updated_row deployments session table r s fits alone new.id id values (values_id new)
                (values_clashes new) fits_new)
              (revised_row-to_domain t (table.server_now later) old new last dumped_new),
          updated_others deployments session table r s fits alone new.id id values (values_id new)
              (values_clashes new) fits_new,
        )
