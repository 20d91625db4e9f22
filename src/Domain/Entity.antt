-- ===== src/Domain/Entity.antt =====
-- domain/models/base.py: entities, value objects and domain events. `uuid.uuid4()` and
-- `datetime.now()` are answers of the outside world, one for each call.
use multi_cloud_ai_orchestra.Base.{ℕ, suc, ◌+◌, String}

-- The answers to come: the readings of the clock and the identifiers of `uuid4`.
pub record Ambient : Type 0 where
  pub clock : ℕ → ℕ
  pub ids : ℕ → String

-- generate_id()
abbrev pub fresh_id : Ambient → String
fresh_id a = a.ids 0

abbrev pub after_id : Ambient → Ambient
after_id a = record a { ids = λ n. a.ids (suc n) }

-- utc_now()
abbrev pub now : Ambient → ℕ
now a = a.clock 0

abbrev pub after_now : Ambient → Ambient
after_now a = record a { clock = λ n. a.clock (suc n) }

-- DomainEntity. Times are readings of the clock, which only orders compare.
pub record Entity : Type 0 where
  pub id : String
  pub created_at : ℕ
  pub updated_at : ℕ
  pub version : ℕ

-- The defaults of DomainEntity, in the order of its fields.
unfoldable pub new_entity : Ambient → Entity × Ambient
new_entity a =
    let a' = after_id a in
    (
      record { id = fresh_id a; created_at = now a'; updated_at = now (after_now a'); version = 1 },
      after_now (after_now a'),
    )

-- DomainEntity.touch
unfoldable pub touch : Entity → Ambient → Entity × Ambient
touch e a = (record e { updated_at = now a; version = e.version + 1 }, after_now a)

-- An object and the outside world that its methods ask.
pub record Live (A : Type 0) : Type 0 where
  pub self : A
  pub ambient : Ambient
