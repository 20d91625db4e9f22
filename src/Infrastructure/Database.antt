-- ===== src/Infrastructure/Database.antt =====
-- DatabaseManager of infrastructure/persistence/database.py. The engine, the factory of sessions and
-- what a session does are SQLAlchemy's; a rollback that fails is left out.
pub mod Atomic
use multi_cloud_ai_orchestra.Base.{
  Bool, Option, none, some, Method, Result, ok, raised, pure, ◌>>=◌, ◌>>◌,
}
use multi_cloud_ai_orchestra.Config.{DatabaseSettings}

pub data DatabaseError (E : Type 0) : Type 0 where
  session_not_initialized : DatabaseError E
  engine_not_initialized : DatabaseError E
  failed : E → DatabaseError E

-- The calls of SQLAlchemy: `commit` and what runs in a session may raise.
pub record Sqlalchemy (Engine Factory Session E : Type 0) : Type 0 where
  pub create_async_engine : DatabaseSettings → Engine
  pub async_sessionmaker : Engine → Factory
  pub dispose : Engine → Engine
  pub open_session : Factory → Session
  pub commit : Method E Session (Unit {0})
  pub rollback : Session → Session
  pub close_session : Session → Session

pub record DatabaseManager (Engine Factory : Type 0) : Type 0 where
  pub settings : DatabaseSettings
  pub engine : Option Engine
  pub session_factory : Option Factory

module _ {Engine Factory Session E : Type 0} (calls : Sqlalchemy Engine Factory Session E) where
  unfoldable pub new_manager : DatabaseSettings → DatabaseManager Engine Factory
  new_manager settings = record { settings = settings; engine = none; session_factory = none }

  unfoldable pub initialize : DatabaseManager Engine Factory → DatabaseManager Engine Factory
  initialize m =
      let engine = calls.create_async_engine m.settings in
      record m { engine = some engine; session_factory = some (calls.async_sessionmaker engine) }

  unfoldable pub disposed : Option Engine → Option Engine
  disposed none = none
  disposed (some engine) = some (calls.dispose engine)

  unfoldable pub close : DatabaseManager Engine Factory → DatabaseManager Engine Factory
  unfolding disposed
  close m = record m { engine = disposed m.engine }

  unfoldable pub engine_of : Option Engine → Result (DatabaseError E) Engine
  engine_of none = raised engine_not_initialized
  engine_of (some engine) = ok engine

  module _ {A : Type 0} where
    -- The `except` clause, and the end of `async with`.
    unfoldable pub finish : Result E A × Session → Result (DatabaseError E) A × Option Session
    finish (ok a, s) = (ok a, some (calls.close_session s))
    finish (raised e, s) = (raised (failed e), some (calls.close_session (calls.rollback s)))

    -- `async with manager.session() as session: body`: the result, and the session as it was left.
    unfoldable pub in_session :
        Option Factory → Method E Session A → Result (DatabaseError E) A × Option Session
    unfolding finish
    in_session none body = (raised session_not_initialized, none)
    in_session (some factory) body =
        finish ((do a ← body; calls.commit; pure a) (calls.open_session factory))

    unfoldable pub session :
        DatabaseManager Engine Factory
        → Method E Session A
        → Result (DatabaseError E) A × Option Session
    unfolding in_session
    session m body = in_session m.session_factory body
