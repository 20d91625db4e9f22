-- ===== src/Infrastructure/Postgres.antt =====
-- The database behind infrastructure/persistence/repositories. SQLAlchemy and PostgreSQL are a
-- parameter: a table, as an AsyncSession shows it, is a record of the calls that the repositories
-- make, and what those calls are documented to do is a record of laws.
pub mod Columns
pub mod Kept
pub mod Models
pub mod Tasks
pub mod Deployments
pub mod Drift
pub mod Users
use mathlib.Core.Option
use multi_cloud_ai_orchestra.Base.Sort.{IsTotal}
use multi_cloud_ai_orchestra.Base.{
  ◌≡◌, ℕ, String, str_eq, Bool, true, false, ◌&&◌, List, [], ◌∷◌, Option, none, some, Method,
  Result, ok, raised, pure, and_then, ◌>>=◌, ◌⊎◌, if◌then◌else◌,
}

-- What a repository raises: what the database refuses; the ValueError of an enumeration or of
-- pydantic on what a row holds; a text where `isoformat` is called on a time.
pub data RepositoryError : Type 0 where
  database_error value_error attribute_error : RepositoryError

-- `select(...)` with its clauses.
pub record Query (Row : Type 0) : Type 0 where
  pub matches : Row → Bool
  pub order_by : Option (Row → Row → Bool)
  pub limit : Option ℕ
  pub offset : ℕ
  pub skip_locked : Bool

-- `select(...).where(...)` alone.
abbrev pub select_where : {Row : Type 0} → (Row → Bool) → Query Row
select_where matches = record {
  matches = matches;
  order_by = none;
  limit = none;
  offset = 0;
  skip_locked = false;
}

-- The calls of a session on one table: `add` followed by `flush`; `execute` of a select with
-- `scalars().all()`, `scalar_one_or_none()`, or as a count with `scalar_one()`; `execute` of an
-- update; `flush` after an object of the session got new attributes; and a read of the attributes of
-- such an object, which SQLAlchemy loads again where the flush has left them to the server.
pub record Session (S Row : Type 0) : Type 0 where
  pub add : Row → Method RepositoryError S (Unit {0})
  pub scalars : Query Row → Method RepositoryError S (List Row)
  pub scalar_one_or_none : Query Row → Method RepositoryError S (Option Row)
  pub count : (Row → Bool) → Method RepositoryError S ℕ
  pub update : (Row → Bool) → (Row → Row) → Method RepositoryError S (Unit {0})
  pub flush : Row → Method RepositoryError S (Unit {0})
  pub attributes : Row → Method RepositoryError S Row

-- What models.py declares of a table: its primary key, which rows cannot stand beside each other,
-- which values the columns take, and the columns that the server fills in.
pub record Model (Row : Type 0) : Type 0 where
  pub identity : Row → String
  pub clashes : Row → Row → Bool
  pub fits : Row → Bool
  pub inserted : ℕ → Row → Row
  pub updated : ℕ → Row → Row

-- What SQLAlchemy and PostgreSQL document of these calls. `lookup` is the row of a primary key as
-- the transaction sees it, `locked` tells the rows that another transaction has locked, and
-- `server_now` is `now()`.
pub record IsTable {S Row : Type 0} (model : Model Row) (session : Session S Row) : Type 0 where
  pub lookup : S → String → Option Row
  pub locked : S → String → Bool
  pub server_now : S → ℕ
  pub keyed : (k : String) (r : Row) (s : S) → lookup s k ≡ some r → model.identity r ≡ k
  pub rows_fit : (k : String) (r : Row) (s : S) → lookup s k ≡ some r → model.fits r ≡ true
  pub by_identity :
      (k : String) (s : S)
      → session.scalar_one_or_none (select_where (λ r. str_eq (model.identity r) k)) s
        ≡ (ok (lookup s k), s)
  pub add_new :
      (r : Row) (s : S)
      → model.fits r ≡ true
      → ((k : String) (old : Row) → lookup s k ≡ some old → model.clashes r old ≡ false)
      → let (result, t) = session.add r s in
        (result ≡ ok tt)
        × ((k : String)
            → lookup t k ≡ (
                if str_eq (model.identity r) k
                then some (model.inserted (server_now s) r)
                else lookup s k))
  pub update_rows :
      (matches : Row → Bool) (values : Row → Row) (s : S)
      → ((r : Row) → model.identity (values r) ≡ model.identity r)
      → ((r other : Row) → model.clashes (values r) other ≡ model.clashes r other)
      → ((k : String) (r : Row)
          → lookup s k ≡ some r
          → matches r ≡ true
          → model.fits (values r) ≡ true)
      → let (result, t) = session.update matches values s in
        (result ≡ ok tt)
        × ((k : String)
            → lookup t k
              ≡ Option.map
                  (λ r. if matches r then model.updated (server_now s) (values r) else r)
                  (lookup s k))
  pub first_row :
      (q : Query Row) (before : Row → Row → Bool) (s : S)
      → IsTotal before
      → q.order_by ≡ some before
      → q.limit ≡ some 1
      → q.offset ≡ 0
      → let (result, t) = session.scalar_one_or_none q s in
        ((k : String) → lookup t k ≡ lookup s k)
        × (((result ≡ ok none)
              × ((k : String) (r : Row)
                  → lookup s k ≡ some r
                  → (q.skip_locked && locked s k) ≡ false
                  → q.matches r ≡ false))
            ⊎ ((r : Row) × (result ≡ ok (some r))
                × (lookup s (model.identity r) ≡ some r)
                × (q.matches r ≡ true)
                × ((k : String) (other : Row)
                    → lookup s k ≡ some other
                    → (q.skip_locked && locked s k) ≡ false
                    → q.matches other ≡ true
                    → before r other ≡ true)))
  pub flush_object :
      (r old : Row) (s : S)
      → lookup s (model.identity r) ≡ some old
      → model.fits r ≡ true
      → ((other : Row) → model.clashes r other ≡ model.clashes old other)
      → let (result, t) = session.flush r s in
        (result ≡ ok tt)
        × ((k : String)
            → lookup t k ≡ (
                if str_eq (model.identity r) k
                then some (model.updated (server_now s) r)
                else lookup s k))
  pub read_attributes :
      (r : Row) (s : S)
      → let (result, t) = session.attributes r s in
        ((k : String) → lookup t k ≡ lookup s k)
        × ((row : Row) → result ≡ ok row → model.identity row ≡ model.identity r)

module _ {S A B : Type 0} (f : A → Method RepositoryError S B) where
  -- The object of each row, in order; the first one that cannot be made raises.
  abbrev pub each : List A → Method RepositoryError S (List B)
  each [] = pure []
  each (a ∷ rows) = do b ← f a; bs ← each rows; pure (b ∷ bs)

  -- `self._to_domain(orm) if orm else None`
  abbrev pub if_found : Option A → Method RepositoryError S (Option B)
  if_found none = pure none
  if_found (some a) = do b ← f a; pure (some b)
