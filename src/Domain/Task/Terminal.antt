-- ===== src/Domain/Task/Terminal.antt =====
-- Succeeded and cancelled tasks.
use multi_cloud_ai_orchestra.Base.{
  ◌≡◌, refl, true, none, some, List, [], ◌∷◌, arith, raised, Json, String, ◌∙◌,
}
use multi_cloud_ai_orchestra.Base.Dict.{Dict}
use multi_cloud_ai_orchestra.Domain.Status.{TaskStatus, task_valid_transitions, succeeded}
use multi_cloud_ai_orchestra.Domain.Entity.{Live}
use multi_cloud_ai_orchestra.Domain.Errors.{invalid_task_transition}
use multi_cloud_ai_orchestra.Domain.Task
use multi_cloud_ai_orchestra.Domain.Task.{kept_output, Task, methods, is_terminal}
use multi_cloud_ai_orchestra.Domain.Task.Calls.{Call, perform, after, run}

after-status :
    (c : Call) (s : Live Task) → is_terminal s.self ≡ true → (after c s).self.status ≡ s.self.status
unfolding perform methods task_valid_transitions is_terminal
after-status (Call.succeed none) s h = ground arith
after-status (Call.succeed (some [])) s h = ground arith
after-status (Call.succeed (some (e ∷ es))) s h = ground arith
after-status _ s h = ground arith

is_terminal-after :
    (c : Call) (s : Live Task) → is_terminal s.self ≡ true → is_terminal (after c s).self ≡ true
unfolding is_terminal
is_terminal-after c s h = rw (after-status c s h) h

-- A task that has succeeded or been cancelled keeps its status under every sequence of calls.
pub run-settled :
    (cs : List Call) (s : Live Task)
    → is_terminal s.self ≡ true
    → (run cs s).self.status ≡ s.self.status
unfolding run
run-settled [] s h = refl
run-settled (c ∷ cs) s h = run-settled cs (after c s) (is_terminal-after c s h) ∙ after-status c s h

-- Reporting success to a task that has succeeded or been cancelled raises, and yet a non-empty
-- output replaces the stored one; a report of failure raises and replaces the error message.
pub report-overwrites :
    (s : Live Task) (key message : String) (value : Json) (rest : Dict Json)
    → is_terminal s.self ≡ true
    → let late = Task.succeed (some ((key, value) ∷ rest)) s in
      let wrong = Task.fail message s in
      (late.0 ≡ raised (invalid_task_transition s.self.status succeeded))
      × (late.1.self.output_data ≡ (key, value) ∷ rest)
      × (wrong.0 ≡ raised (invalid_task_transition s.self.status TaskStatus.failed))
      × (wrong.1.self.error_message ≡ message)
unfolding methods task_valid_transitions is_terminal kept_output
report-overwrites s key message value rest h = ground arith
