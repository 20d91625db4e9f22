-- ===== src/Api/Deployments/Singleton.antt =====
-- _get_deployment_service and _build_deployment_service of api/routes/deployment_routes.py. Requests
-- run it together. A turn lets one of them go one step further, from one read or write of `_state`
-- or of `_init_lock` to the next: finer than the event loop, which switches at an `await` only.
pub mod Steps
pub mod BuiltOnce
use multi_cloud_ai_orchestra.Base.{
  ℕ, zero, suc, List, [], ◌∷◌, Bool, true, false, Option, none, some,
}
use multi_cloud_ai_orchestra.Api.Container.{
  in_memory_deployment_repository, in_memory_task_repository, deployment_domain_service, Process,
  build, get_instance, lock_service, cache_service,
}

unfoldable pub build_deployment_service : Process → ℕ × Process
build_deployment_service p =
    let (deployments, p) = build in_memory_deployment_repository p in
    let (tasks, p) = build in_memory_task_repository p in
    let (c, p) = get_instance p in
    let (lock, p) = lock_service p in
    build (deployment_domain_service deployments tasks c.planning_engine c.event_publisher lock) p

-- How far a request is in _get_deployment_service.
pub data Stage : Type 0 where
  asked : Stage
  waiting : Stage
  holding : Stage
  building : Stage
  leaving : Stage
  fetching : Stage
  returned : (service : ℕ) → Stage
  assertion_failed : Stage

-- `if _state["service"] is None`, before the lock is taken and under it
unfoldable pub first_check : Option ℕ → Stage
first_check none = waiting
first_check (some service) = fetching

unfoldable pub second_check : Option ℕ → Stage
second_check none = building
second_check (some service) = leaving

-- `service = _state["service"]; assert service is not None; return service`
unfoldable pub fetched : Option ℕ → Stage
fetched none = assertion_failed
fetched (some service) = returned service

-- `async with _init_lock`: a request waits while another has the lock.
unfoldable pub enter : Bool → Process → Stage × Process
enter true p = (waiting, p)
enter false p = (holding, record p { init_lock = true })

unfoldable pub advance : Stage → Process → Stage × Process
unfolding first_check second_check fetched enter build_deployment_service
advance asked p = (first_check p.service, p)
advance waiting p = enter p.init_lock p
advance holding p = (second_check p.service, p)
advance building p =
    let (service, p) = build_deployment_service p in (leaving, record p { service = some service })
advance leaving p = (fetching, record p { init_lock = false })
advance fetching p = (fetched p.service, p)
advance (returned service) p = (returned service, p)
advance assertion_failed p = (assertion_failed, p)

-- One step of the request with the given number.
unfoldable pub resume : ℕ → List Stage → Process → List Stage × Process
unfolding advance
resume i [] p = ([], p)
resume zero (s ∷ requests) p = let (s', p) = advance s p in (s' ∷ requests, p)
resume (suc i) (s ∷ requests) p = let (rest, p) = resume i requests p in (s ∷ rest, p)

-- A request goes on, a request arrives, or another route reads a service of the container.
pub data Turn : Type 0 where
  goes_on : (request : ℕ) → Turn
  arrives : Turn
  reads_lock : Turn
  reads_cache : Turn

unfoldable pub take_turn : Turn → List Stage → Process → List Stage × Process
unfolding resume
take_turn (goes_on i) requests p = resume i requests p
take_turn arrives requests p = (asked ∷ requests, p)
take_turn reads_lock requests p = (requests, (lock_service p).1)
take_turn reads_cache requests p = (requests, (cache_service p).1)

unfoldable pub run : List Turn → List Stage → Process → List Stage × Process
unfolding take_turn
run [] requests p = (requests, p)
run (t ∷ turns) requests p = let (requests, p) = take_turn t requests p in run turns requests p
