-- ===== src/Lib.antt =====
-- Multi-cloud deployment orchestrator: the domain layer, the services, the adapters that keep their
-- state in memory, the workers and the HTTP routes, as functions with theorems about them.
--
-- A user describes a deployment (an intent); the planning engine turns it into a plan of steps;
-- after an approval the service makes one task for each step; workers take tasks from the queue,
-- execute them and report; the reports drive the deployment to verification or to a rollback. Drift
-- scans compare the plan of a deployment with the state of its resources.
--
-- Methods. A method that changes an object and may raise is a function from a state to a result and
-- the state after it (Base/Calls): what was written before an exception stays written. The clock and
-- `uuid4` are streams of answers in the state (`Ambient`, Domain/Entity), read once for each call in
-- the order of the source, so that the times, versions and identifiers of objects are theirs.
--
-- Files, with the sources below src/orchestrator:
--   Base: Python's dictionaries, sorting and texts, tests, and relations that methods keep.
--   Domain/Status, Domain/Deployment, Domain/Plan: domain/models/deployment.py, the tables, the
--     aggregate with every method, plans and their execution order; Domain/Deployment/Calls has the
--     sequences of calls of a client, exceptions included.
--   Domain/Entity, Domain/Events: domain/models/base.py, domain/events/deployment_events.py.
--   Domain/Task: domain/models/task.py, with the same shape as Domain/Deployment.
--   Domain/Drift, Domain/User, Domain/Cloud: drift.py, user.py, cloud_provider.py of domain/models.
--     Domain/Enums: the values of their enumerations.
--   Domain/Ports: domain/ports, and what workers count on from a queue of tasks.
--   Infrastructure/Planning: infrastructure/ai/planning_engine.py; Tables, Steps, Dependencies,
--     Generate and Checks are its methods in this order.
--   Infrastructure/InMemory: infrastructure/persistence/repositories/in_memory.py. A store is a
--     dictionary in insertion order; an object is known by its id, and what a method changes in it
--     is changed in its store.
--   Infrastructure/Postgres: the tables of infrastructure/persistence/models.py (Models) and the other
--     classes of infrastructure/persistence/repositories (Tasks, Deployments, Drift, Users). A table
--     is a record of the calls of a SQLAlchemy session, with what they are documented to do as laws
--     (IsTable); the columns, unique columns and server defaults are those of the models.
--   Infrastructure/EventPublisher: infrastructure/messaging/event_publisher.py.
--   Infrastructure/TerraformExecutor: infrastructure/terraform/executor.py.
--   Infrastructure/Adapters: the adapters as the ports that they fill. Infrastructure/Queues: both
--     task repositories as the queue of Domain/Ports/Queue.
--   Infrastructure/DriftDetector: infrastructure/ai/drift_detector.py.
--   Infrastructure/Database: infrastructure/persistence/database.py.
--   Infrastructure/RedisLock, Infrastructure/RedisCache: RedisDistributedLock and RedisCacheService of
--     infrastructure/cache/redis_cache.py.
--   Services/World, Services/Deployments: domain/services/deployment_service.py. The world holds the
--     stores, the events that were published and the calls of the distributed lock, whose answers
--     come from outside. Services/Drift: domain/services/drift_service.py.
--   Workers/Base: workers/base.py, the lifecycle of a task, the poll and the loop of start, in which a
--     lifecycle ends before the next poll. Workers/Health: workers/health_worker.py. Workers/Terraform:
--     workers/terraform_worker.py, over the calls of an executor; Workers/Terraform/Simulated runs it
--     on the simulated one.
--   Api/RateLimiter, Api/Correlation: the files of api/middleware. Api/Health:
--     api/routes/health_routes.py. Config: config.py.
--   Api/Container: ServiceContainer of api/dependencies/services.py.
--   Api/Deployments/Singleton: the deployment service that the routes of deployment_routes.py
--     share, with the steps of the requests that ask for it as a list of turns.
--   Api: api/routes, api/schemas, api/dependencies/auth.py, infrastructure/auth/jwt_handler.py.
--   Tests: small inputs; Tests/Database is a table in memory that satisfies the laws of the database.
--
-- Fuel. The execution order removes a step at least in each round, so as many rounds as the plan
-- has steps are enough.
--
-- Parameters. pydantic's `model_dump`, `str` of a dictionary, jose's and bcrypt's functions, the
-- `execute` of a worker, the executor that a Terraform worker calls, the functions of json and
-- os.path, the session of the database, the handlers of events, the producer of Kafka and the Redis
-- server are arguments of the definitions that use them.
--
-- Not modelled: logging, metrics and tracing, the construction of clients and of the application; the
-- event loop with its semaphore, so that a coroutine runs to its end between two calls of a client,
-- but for the requests of Api/Deployments/Singleton; pydantic's checks of request fields; floats but
-- for the progress, which is kept as a fraction, step durations and costs, which are whole numbers,
-- and the tokens of the rate limiter, which are exact where the source rounds.
pub mod Base
pub mod Domain
pub mod Infrastructure
pub mod Services
pub mod Workers
pub mod Api
pub mod Config
pub mod Tests
