-- ===== src/Domain/Ports.antt =====
-- The repository ports of domain/ports/repositories.py: for each abstract class a record of its
-- methods, over the state `S` that an adapter keeps and the exceptions `E` that it may raise. The
-- default arguments are the callers' to give.
pub mod Queue
pub mod Services
use multi_cloud_ai_orchestra.Base.{ℕ, String, List, Option, Method}
use multi_cloud_ai_orchestra.Domain.Status.{DeploymentStatus, TaskStatus}
use multi_cloud_ai_orchestra.Domain.Deployment.{Deployment}
use multi_cloud_ai_orchestra.Domain.Task.{Task}
use multi_cloud_ai_orchestra.Domain.Drift.{DriftReport}
use multi_cloud_ai_orchestra.Domain.User.{User}

pub record DeploymentRepository (E S : Type 0) : Type 0 where
  pub save : Deployment → Method E S Deployment
  pub get_by_id : String → Method E S (Option Deployment)
  pub list_by_status : DeploymentStatus → ℕ → ℕ → Method E S (List Deployment)
  pub list_by_tenant : String → ℕ → ℕ → Method E S (List Deployment)
  pub update : Deployment → Method E S Deployment
  pub count_by_status : DeploymentStatus → Method E S ℕ

pub record TaskRepository (E S : Type 0) : Type 0 where
  pub save : Task → Method E S Task
  pub get_by_id : String → Method E S (Option Task)
  pub list_by_deployment : String → Method E S (List Task)
  pub list_by_status : TaskStatus → ℕ → Method E S (List Task)
  pub update : Task → Method E S Task
  pub acquire_next : String → Method E S (Option Task)
  pub list_by_worker : String → Method E S (List Task)

pub record DriftReportRepository (E S : Type 0) : Type 0 where
  pub save : DriftReport → Method E S DriftReport
  pub get_by_id : String → Method E S (Option DriftReport)
  pub list_by_deployment : String → ℕ → Method E S (List DriftReport)
  pub get_latest_for_deployment : String → Method E S (Option DriftReport)

pub record UserRepository (E S : Type 0) : Type 0 where
  pub save : User → Method E S User
  pub get_by_id : String → Method E S (Option User)
  pub get_by_username : String → Method E S (Option User)
  pub list_by_tenant : String → Method E S (List User)
  pub update : User → Method E S User
