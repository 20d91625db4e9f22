-- ===== src/Api/Container/Quiet.antt =====
-- What the properties of the container leave alone.
use multi_cloud_ai_orchestra.Base.{
  ◌≡◌, refl, ◌∙◌, ℕ, ◌+◌, List, [], ◌∷◌, ◌++◌, Bool, true, false, Option, none, some, count_if,
  arith, if◌then◌else◌,
}
use multi_cloud_ai_orchestra.Api.Container.{
  Object, in_memory_event_publisher, rule_based_planning_engine, simulated_terraform_executor,
  simulated_drift_detector, redis_client, redis_distributed_lock, redis_cache_service,
  deployment_domain_service, ServiceContainer, Process, build, new_container, instance_or_new,
  get_instance, lock_of, lock_service, cache_of, cache_service,
}

abbrev pub is_deployment_service : Object → Bool
is_deployment_service (deployment_domain_service a b c d e) = true
is_deployment_service _ = false

-- How many deployment services were built.
abbrev pub services_built : Process → ℕ
services_built p = count_if is_deployment_service p.objects

pub count_if-append_one :
    (o : Object) (xs : List Object)
    → count_if is_deployment_service (xs ++ o ∷ [])
      ≡ count_if is_deployment_service xs + (if is_deployment_service o then 1 else 0)
count_if-append_one o [] = omega arith
count_if-append_one o (x ∷ xs) = omega (arith, count_if-append_one o xs)

-- The same service, the same lock, and no service built between two states.
pub record IsQuiet (p q : Process) : Type 0 where
  pub same_service : q.service ≡ p.service
  pub same_lock : q.init_lock ≡ p.init_lock
  pub same_count : services_built q ≡ services_built p

pub IsQuiet-refl : (p : Process) → IsQuiet p p
IsQuiet-refl p = record { same_service = refl; same_lock = refl; same_count = refl }

pub IsQuiet-trans : {p q r : Process} → IsQuiet p q → IsQuiet q r → IsQuiet p r
IsQuiet-trans a b = record {
  same_service = b.same_service ∙ a.same_service;
  same_lock = b.same_lock ∙ a.same_lock;
  same_count = b.same_count ∙ a.same_count;
}

pub build-IsQuiet :
    (o : Object) (p : Process) → is_deployment_service o ≡ false → IsQuiet p (build o p).1
unfolding build
build-IsQuiet o p h = record {
  same_service = refl;
  same_lock = refl;
  same_count = count_if-append_one o p.objects ∙ rw h (omega arith);
}

set_instance-IsQuiet :
    {p q : Process} (i : Option ServiceContainer)
    → IsQuiet p q
    → IsQuiet p (record q { instance = i })
set_instance-IsQuiet i h = record {
  same_service = h.same_service;
  same_lock = h.same_lock;
  same_count = h.same_count;
}

instance_or_new-IsQuiet :
    (i : Option ServiceContainer) (p : Process) → IsQuiet p (instance_or_new i p).1
unfolding instance_or_new new_container
instance_or_new-IsQuiet (some c) p = IsQuiet-refl p
instance_or_new-IsQuiet none p =
    let (_, a) = build in_memory_event_publisher p in
    let (_, b) = build rule_based_planning_engine a in
    let (_, c) = build simulated_terraform_executor b in
    set_instance-IsQuiet _ (
      IsQuiet-trans (build-IsQuiet in_memory_event_publisher p refl) (
        IsQuiet-trans (build-IsQuiet rule_based_planning_engine a refl) (
          IsQuiet-trans (build-IsQuiet simulated_terraform_executor b refl)
            (build-IsQuiet simulated_drift_detector c refl))))

pub get_instance-IsQuiet : (p : Process) → IsQuiet p (get_instance p).1
unfolding get_instance
get_instance-IsQuiet p = instance_or_new-IsQuiet p.instance p

-- A client, and a service on it.
client_and-IsQuiet :
    (o : ℕ → Object) (i : Option ServiceContainer) (p : Process)
    → ((client : ℕ) → is_deployment_service (o client) ≡ false)
    → let (client, a) = build redis_client p in
      IsQuiet p (record (build (o client) a).1 { instance = i })
client_and-IsQuiet o i p h =
    let (client, a) = build redis_client p in
    set_instance-IsQuiet i
      (IsQuiet-trans (build-IsQuiet redis_client p refl) (build-IsQuiet (o client) a (h client)))

lock_of-IsQuiet : (c : ServiceContainer) (o : Option ℕ) (p : Process) → IsQuiet p (lock_of c o p).1
unfolding lock_of
lock_of-IsQuiet c (some lock) p = IsQuiet-refl p
lock_of-IsQuiet c none p = client_and-IsQuiet redis_distributed_lock _ p (λ _. refl)

cache_of-IsQuiet :
    (c : ServiceContainer) (o : Option ℕ) (p : Process) → IsQuiet p (cache_of c o p).1
unfolding cache_of
cache_of-IsQuiet c (some cache) p = IsQuiet-refl p
cache_of-IsQuiet c none p = client_and-IsQuiet redis_cache_service _ p (λ _. refl)

pub lock_service-IsQuiet : (p : Process) → IsQuiet p (lock_service p).1
unfolding lock_service
lock_service-IsQuiet p =
    let (c, q) = get_instance p in
    IsQuiet-trans (get_instance-IsQuiet p) (lock_of-IsQuiet c c.lock_service q)

pub cache_service-IsQuiet : (p : Process) → IsQuiet p (cache_service p).1
unfolding cache_service
cache_service-IsQuiet p =
    let (c, q) = get_instance p in
    IsQuiet-trans (get_instance-IsQuiet p) (cache_of-IsQuiet c c.cache_service q)
