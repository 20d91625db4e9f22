-- ===== src/Api/Deployments/Singleton/Steps.antt =====
-- One step of a request for the deployment service: what it leaves true of the others.
use multi_cloud_ai_orchestra.Base.{
  ◌≡◌, refl, ap, sym, ◌∙◌, ℕ, suc, ◌+◌, ◌==◌, Bool, true, false, Option, none, some, inl, inr, ◌⊎◌,
  arith, if◌then◌else◌,
}
use multi_cloud_ai_orchestra.Api.Container.{
  in_memory_deployment_repository, in_memory_task_repository, deployment_domain_service, Process,
  build, get_instance, lock_service,
}
use multi_cloud_ai_orchestra.Api.Container.Quiet.{
  IsQuiet-trans, services_built, count_if-append_one, build-IsQuiet, get_instance-IsQuiet,
  lock_service-IsQuiet,
}
use multi_cloud_ai_orchestra.Api.Deployments.Singleton.{
  build_deployment_service, Stage, asked, waiting, holding, building, leaving, fetching, returned,
  assertion_failed, first_check, second_check, fetched, enter, advance,
}

-- The request has the lock.
abbrev pub inside : Stage → Bool
inside holding = true
inside building = true
inside leaving = true
inside _ = false

-- What a request knows of the service fits with what `_state` holds.
abbrev pub agrees : Option ℕ → Stage → Bool
agrees o asked = true
agrees o waiting = true
agrees o holding = true
agrees none building = true
agrees (some service) building = false
agrees none leaving = false
agrees (some service) leaving = true
agrees none fetching = false
agrees (some service) fetching = true
agrees none (returned r) = false
agrees (some service) (returned r) = service == r
agrees o assertion_failed = false

abbrev pub bit : Bool → ℕ
bit b = if b then 1 else 0

abbrev pub count : Option ℕ → ℕ
count none = 0
count (some service) = 1

-- The service stays, or it is set while no other request has the lock.
abbrev pub Sets : ℕ → Process → Process → Type 0
Sets others p q = (q.service ≡ p.service) ⊎ ((others ≡ 0) × (p.service ≡ none))

agrees_later :
    (o : Option ℕ) (s : Stage) → agrees none s ≡ true → inside s ≡ false → agrees o s ≡ true
agrees_later o asked h f = refl
agrees_later o waiting h f = refl
agrees_later o holding h f = ground arith
agrees_later o building h f = ground arith
agrees_later o leaving h f = ground arith
agrees_later o fetching h f = ground arith
agrees_later o (returned service) h f = ground arith
agrees_later o assertion_failed h f = ground arith

pub keeps_agreeing :
    (others : ℕ) (s : Stage) (p q : Process)
    → Sets (others + bit (inside s)) p q
    → agrees p.service s ≡ true
    → agrees q.service s ≡ true
keeps_agreeing others s p q (inl same) h = rw same h
keeps_agreeing others s p q (inr (zero_others, was_none)) h =
    agrees_later q.service s (rw (sym was_none) h) (ground arith)

-- One request, among others.
pub record Keeps (others : ℕ) (p : Process) (s' : Stage) (q : Process) : Type 0 where
  pub one_inside : others + bit (inside s') ≡ bit q.init_lock
  pub agreed : agrees q.service s' ≡ true
  pub built : services_built q ≡ count q.service
  pub sets : Sets others p q

first_check_lem :
    (o : Option ℕ) → (inside (first_check o) ≡ false) × (agrees o (first_check o) ≡ true)
unfolding first_check
first_check_lem none = (refl, refl)
first_check_lem (some service) = (refl, refl)

second_check_lem :
    (o : Option ℕ) → (inside (second_check o) ≡ true) × (agrees o (second_check o) ≡ true)
unfolding second_check
second_check_lem none = (refl, refl)
second_check_lem (some service) = (refl, refl)

fetched_lem :
    (o : Option ℕ)
    → agrees o fetching ≡ true
    → (inside (fetched o) ≡ false) × (agrees o (fetched o) ≡ true)
unfolding fetched
fetched_lem none h = ground arith
fetched_lem (some service) h = (refl, ground arith)

building-none : (o : Option ℕ) → agrees o building ≡ true → o ≡ none
building-none none h = refl
building-none (some service) h = ground arith

build_deployment_service-built :
    (p : Process)
    → let (service, q) = build_deployment_service p in
      (services_built q ≡ suc (services_built p)) × (q.init_lock ≡ p.init_lock)
unfolding build_deployment_service build
build_deployment_service-built p =
    let (deployments, a) = build in_memory_deployment_repository p in
    let (tasks, b) = build in_memory_task_repository a in
    let (c, d) = get_instance b in
    let (lock, e) = lock_service d in
    let quiet = IsQuiet-trans (build-IsQuiet in_memory_deployment_repository p refl) (
      IsQuiet-trans (build-IsQuiet in_memory_task_repository a refl)
        (IsQuiet-trans (get_instance-IsQuiet b) (lock_service-IsQuiet d))) in
    let made =
      count_if-append_one
        (deployment_domain_service deployments tasks c.planning_engine c.event_publisher lock)
        e.objects in
    (omega (arith, made, quiet.same_count), quiet.same_lock)

enter-Keeps :
    (others : ℕ) (held : Bool) (p : Process)
    → p.init_lock ≡ held
    → others + 0 ≡ bit p.init_lock
    → services_built p ≡ count p.service
    → let (s', q) = enter held p in Keeps others p s' q
unfolding enter
enter-Keeps others true p h one built = record {
  one_inside = one;
  agreed = refl;
  built = built;
  sets = inl refl;
}
enter-Keeps others false p h one built = record {
  one_inside = ground arith;
  agreed = refl;
  built = built;
  sets = inl refl;
}

leaving-fetching : (o : Option ℕ) → agrees o leaving ≡ true → agrees o fetching ≡ true
leaving-fetching none h = h
leaving-fetching (some service) h = h

pub advance-Keeps :
    (others : ℕ) (s : Stage) (p : Process)
    → others + bit (inside s) ≡ bit p.init_lock
    → agrees p.service s ≡ true
    → services_built p ≡ count p.service
    → let (s', q) = advance s p in Keeps others p s' q
unfolding advance
advance-Keeps others asked p one agreed built =
    let (out, fits) = first_check_lem p.service in
    record { one_inside = rw out one; agreed = fits; built = built; sets = inl refl }
advance-Keeps others waiting p one agreed built = enter-Keeps others p.init_lock p refl one built
advance-Keeps others holding p one agreed built =
    let (within, fits) = second_check_lem p.service in
    record { one_inside = rw within one; agreed = fits; built = built; sets = inl refl }
advance-Keeps others building p one agreed built =
    let (more, same_lock) = build_deployment_service-built p in
    let was_none = building-none p.service agreed in
    record {
      one_inside = rw same_lock one;
      agreed = refl;
      built = more ∙ ap suc (built ∙ ap count was_none);
      sets = inr (ground arith, was_none);
    }
advance-Keeps others leaving p one agreed built = record {
  one_inside = ground arith;
  agreed = leaving-fetching p.service agreed;
  built = built;
  sets = inl refl;
}
advance-Keeps others fetching p one agreed built =
    let (out, fits) = fetched_lem p.service agreed in
    record { one_inside = rw out one; agreed = fits; built = built; sets = inl refl }
advance-Keeps others (returned service) p one agreed built = record {
  one_inside = one;
  agreed = agreed;
  built = built;
  sets = inl refl;
}
advance-Keeps others assertion_failed p one agreed built = record {
  one_inside = one;
  agreed = agreed;
  built = built;
  sets = inl refl;
}
