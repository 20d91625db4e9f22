-- ===== src/Infrastructure/RedisLock/Exclusion.antt =====
-- Two lock objects of RedisDistributedLock that want the same resource.
use multi_cloud_ai_orchestra.Base.{
  ◌≡◌, ◌≢◌, refl, sym, ap, ◌∙◌, ℕ, String, str_eq, eq_iff, true, false, none, some, Option, inl,
  inr, Bool-cases, if◌then◌else◌,
}
use multi_cloud_ai_orchestra.Base.Dict.{get, get-put}
use multi_cloud_ai_orchestra.Domain.Entity.{fresh_id, after_id}
use multi_cloud_ai_orchestra.Infrastructure.RedisLock.{
  Redis, Locking, lock_key, acquire, release, release_value, extend, extend_value, is_locked,
}

-- What Redis documents: `SET key value NX EX ttl` sets a key that is not there, and then the key has
-- the value; a key that is there is left as it is; a key that is deleted has no value.
pub record IsRedis {S : Type 0} (redis : Redis S) : Type 0 where
  pub free :
      (key value : String) (ttl : ℕ) (s : S)
      → redis.get_key key s ≡ none
      → let (set, t) = redis.set_nx key value ttl s in
        (set ≡ true) × (redis.get_key key t ≡ some value)
  pub taken :
      (key value held : String) (ttl : ℕ) (s : S)
      → redis.get_key key s ≡ some held
      → redis.set_nx key value ttl s ≡ (false, s)
  pub deleted : (key : String) (s : S) → redis.get_key key (redis.del key s) ≡ none

-- A lock object whose value is not the one that the key has can neither release nor extend the lock.
refuses :
    {S : Type 0} (redis : Redis S) (resource_id held : String) (ttl : ℕ) (value : Option String)
    (m : Locking redis)
    → redis.get_key (lock_key resource_id) m.server ≡ some held
    → value ≢ some held
    → (release_value redis resource_id value m ≡ (false, m))
      × (extend_value redis resource_id ttl value m ≡ (false, m))
unfolding release_value extend_value
refuses redis resource_id held ttl none m h differ = (refl, refl)
refuses redis resource_id held ttl (some value) m h differ = elim (Bool-cases (str_eq held value)) [
  | inl same ↦ absurd (differ (ap some (sym ((eq_iff held value).0 same))))
  | inr other ↦ rw (h, other) (refl, refl)
]

-- On a server where the lock of a resource is free, the first of two lock objects that ask for it
-- gets it. Until the key expires the second one does not get it. Unless the second one already keeps
-- the very value that the first one drew, a uuid4, it can neither release the lock nor extend it, also
-- with a value that it keeps from a lock that it held before: it is told so, and neither the server
-- nor the object is changed. The first one can release the lock, which is free then.
pub acquire-excludes :
    {S : Type 0} (redis : Redis S) (laws : IsRedis redis) (resource_id : String) (ttl : ℕ)
    (first second : Locking redis)
    → redis.get_key (lock_key resource_id) first.server ≡ none
    → get resource_id second.lock_values ≢ some (fresh_id first.ambient)
    → let (got, l) = acquire redis resource_id ttl first in
      let later : Locking redis = record second { server = l.server } in
      let (other, m) = acquire redis resource_id ttl later in
      let (gone, f) = release redis resource_id l in
      (got ≡ true)
      × (other ≡ false)
      × (m.server ≡ l.server)
      × (release redis resource_id m ≡ (false, m))
      × (extend redis resource_id ttl m ≡ (false, m))
      × (gone ≡ true)
      × (is_locked redis resource_id f ≡ false)
unfolding acquire release release_value extend is_locked
acquire-excludes redis laws resource_id ttl first second free stale =
    let key = lock_key resource_id in
    let token = fresh_id first.ambient in
    let (set, held) = laws.free key token ttl first.server free in
    let refused = laws.taken key (fresh_id second.ambient) token ttl _ held in
    let (no_release, no_extend) =
      refuses redis resource_id token ttl (get resource_id second.lock_values)
        (record {
          lock_values = second.lock_values;
          server = (redis.set_nx key token ttl first.server).1;
          ambient = after_id second.ambient;
        })
        held stale in
    let mine =
      get-put resource_id resource_id token first.lock_values
      ∙ ap (λ b. if b then some token else get resource_id first.lock_values)
          ((eq_iff resource_id resource_id).1 refl) in
    let same = (eq_iff token token).1 refl in
    rw (set, refused)
      (
        refl,
        refl,
        refl,
        no_release,
        no_extend,
        rw (mine, held) same,
        rw (mine, held, same, laws.deleted) refl,
      )
