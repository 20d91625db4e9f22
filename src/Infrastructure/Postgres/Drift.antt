-- ===== src/Infrastructure/Postgres/Drift.antt =====
-- PostgresDriftReportRepository of infrastructure/persistence/repositories/drift_repo.py.
use multi_cloud_ai_orchestra.Base.{
  ℕ, String, str_eq, List, Option, none, some, Method, pure, or_raise, ◌>>=◌, ◌>>◌, leb,
}
use multi_cloud_ai_orchestra.Domain.Drift.{DriftItem, DriftReport}
use multi_cloud_ai_orchestra.Domain.Ports.{DriftReportRepository}
use multi_cloud_ai_orchestra.Infrastructure.Postgres.{
  RepositoryError, value_error, Query, select_where, Session, each, if_found,
}
use multi_cloud_ai_orchestra.Infrastructure.Postgres.Columns.{
  Dumps, or_empty_text, time, dump_all, validate_column,
}
use multi_cloud_ai_orchestra.Infrastructure.Postgres.Models.{DriftReportOrm}

-- The reports of a deployment, the newest first.
abbrev pub latest_first : String → ℕ → Query DriftReportOrm
latest_first deployment_id limit =
    record (select_where (λ r. str_eq r.deployment_id deployment_id)) {
      order_by = some (λ r s. leb (time s.created_at) (time r.created_at));
      limit = some limit;
    }

module _ (items : Dumps DriftItem) where
  -- _to_orm
  unfoldable pub report_to_orm : DriftReport → DriftReportOrm
  report_to_orm report = record {
    id = report.id;
    deployment_id = report.deployment_id;
    scan_type = report.scan_type;
    items_data = some (dump_all items report.items);
    summary = some report.summary;
    auto_remediate = report.auto_remediate;
    remediation_deployment_id = report.remediation_deployment_id;
    version = report.version;
    created_at = none;
    updated_at = none;
  }

  -- _to_domain
  unfoldable pub report_to_domain :
      {S : Type 0} → DriftReportOrm → Method RepositoryError S DriftReport
  report_to_domain orm = do
    found ← or_raise (validate_column items orm.items_data) value_error
    created_at ← or_raise orm.created_at value_error
    updated_at ← or_raise orm.updated_at value_error
    pure (record {
      entity = record {
        id = orm.id;
        created_at = created_at;
        updated_at = updated_at;
        version = orm.version;
      };
      deployment_id = orm.deployment_id;
      scan_type = orm.scan_type;
      items = found;
      summary = or_empty_text orm.summary;
      auto_remediate = orm.auto_remediate;
      remediation_deployment_id = orm.remediation_deployment_id;
    })

  module _ {S : Type 0} (session : Session S DriftReportOrm) where
    unfoldable pub save_report : DriftReport → Method RepositoryError S DriftReport
    save_report report = do session.add (report_to_orm report); pure report

    unfoldable pub report_by_id : String → Method RepositoryError S (Option DriftReport)
    report_by_id report_id = do
      orm ← session.scalar_one_or_none (select_where (λ r. str_eq r.id report_id))
      if_found report_to_domain orm

    unfoldable pub reports_by_deployment : String → ℕ → Method RepositoryError S (List DriftReport)
    reports_by_deployment deployment_id limit = do
      rows ← session.scalars (latest_first deployment_id limit)
      each report_to_domain rows

    unfoldable pub latest_report : String → Method RepositoryError S (Option DriftReport)
    latest_report deployment_id = do
      orm ← session.scalar_one_or_none (latest_first deployment_id 1)
      if_found report_to_domain orm

    -- The port that the class fills.
    abbrev pub report_repository : DriftReportRepository RepositoryError S
    report_repository = record {
      save = save_report;
      get_by_id = report_by_id;
      list_by_deployment = reports_by_deployment;
      get_latest_for_deployment = latest_report;
    }
