-- ===== src/Domain/Task/Calls.antt =====
-- Clients of a task: one value for each mutating method, and sequences of calls in which an
-- exception ends only its own call.
use multi_cloud_ai_orchestra.Base.{String, List, [], ◌∷◌, Option, Json}
use multi_cloud_ai_orchestra.Base.Dict.{Dict}
use multi_cloud_ai_orchestra.Domain.Entity.{Live}
use multi_cloud_ai_orchestra.Domain.Task
use multi_cloud_ai_orchestra.Domain.Task.{Task, Action}

pub data Call : Type 0 where
  enqueue start retry timeout cancel : Call
  acquire fail : String → Call
  succeed : Option (Dict Json) → Call

unfoldable pub perform : Call → Action
perform enqueue = Task.enqueue
perform (acquire worker) = Task.acquire worker
perform start = Task.start
perform (succeed output) = Task.succeed output
perform (fail message) = Task.fail message
perform retry = Task.retry
perform timeout = Task.timeout
perform cancel = Task.cancel

abbrev pub after : Call → Live Task → Live Task
after c s = (perform c s).1

unfoldable pub run : List Call → Live Task → Live Task
run [] s = s
run (c ∷ cs) s = run cs (after c s)
