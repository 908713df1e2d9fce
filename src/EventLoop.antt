-- ===== src/EventLoop.antt =====
-- The tasks and their queue in src/eventloop.c, with the reference counts of src/ref.c. A task is
-- followed through the sections of code that hold the loop's mutex, each of them one step.
pub mod Life
pub mod Counts
pub mod Runs
pub mod Steps
pub mod Safety
use pokerunicorn_server.Prelude.{
  ℕ, zero, suc, ◌+◌, ◌-◌, Bool, true, false, not, ◌&&◌, Option, none, some, List, [], ◌∷◌, ◌++◌,
  if◌then◌else◌, ◌==◌,
}
use pokerunicorn_server.Prelude.Result.{Result, ok, fault, no_reference, ◌>>=◌}

-- `pkrsrv_eventloop_task_t`, with the count of its `pkrsrv_ref_counted_t`. A queue is the ids of its
-- tasks.
pub record Task : Type 0 where
  pub id : ℕ
  pub count : ℕ
  pub is_queued : Bool
  pub is_popped : Bool
  pub is_called : Bool
  pub is_cancelled : Bool

-- `pkrsrv_ref_counted_init`
abbrev pub counted_init : ℕ
counted_init = 0

-- `pkrsrv_ref_counted_use`
abbrev pub counted_use : Task → Task
counted_use task = record task { count = task.count + 1 }

-- What a LEAVE makes of a task whose count it brings to a number: `none` is a task that has been freed.
abbrev pub left_with : ℕ → Task → Option Task
left_with zero task = none
left_with (suc n) task = some (record task { count = suc n })

-- `pkrsrv_ref_counted_leave`. A count below zero, where the assertion only prints, is a fault.
abbrev pub counted_leave : Task → Result (Option Task)
counted_leave task = elim task.count [ zero ↦ fault no_reference | suc n ↦ ok (left_with n task) ]

-- `pkrsrv_eventloop_task_new`
abbrev pub task_new : ℕ → Task
task_new id = record {
  id = id;
  count = counted_init;
  is_queued = false;
  is_popped = false;
  is_called = false;
  is_cancelled = false;
}

-- `pkrsrv_eventloop_tasks_push`
abbrev pub tasks_push : List ℕ → Task → List ℕ × Task
tasks_push tasks task = (tasks ++ (task.id ∷ []), record (counted_use task) { is_queued = true })

-- `pkrsrv_eventloop_tasks_prepend`
abbrev pub tasks_prepend : List ℕ → Task → List ℕ × Task
tasks_prepend tasks task = (task.id ∷ tasks, record (counted_use task) { is_queued = true })

-- The two ends of the queue.
pub data Side : Type 0 where
  back front : Side

abbrev pub tasks_put : Side → List ℕ → Task → List ℕ × Task
tasks_put back tasks task = tasks_push tasks task
tasks_put front tasks task = tasks_prepend tasks task

-- `LIST_REMOVE` of a task.
abbrev pub remove_task : ℕ → List ℕ → List ℕ
remove_task id [] = []
remove_task id (t ∷ tasks) = if t == id then tasks else t ∷ remove_task id tasks

-- `pkrsrv_eventloop_tasks_pop` on the task at the head.
abbrev pub tasks_pop : List ℕ → Task → Result (List ℕ × Option Task)
tasks_pop tasks task =
    counted_leave (record task { is_popped = true }) >>= λ t. ok (remove_task task.id tasks, t)

-- `pkrsrv_eventloop_tasks_remove`
abbrev pub tasks_remove : List ℕ → Task → Result (List ℕ × Option Task)
tasks_remove tasks task = counted_leave task >>= λ t. ok (remove_task task.id tasks, t)

-- `pkrsrv_eventloop_call` and, in front, `pkrsrv_eventloop_call_immediate`.
abbrev pub call : Side → List ℕ → ℕ → List ℕ × Task
call side tasks id = tasks_put side tasks (counted_use (task_new id))

-- `pkrsrv_eventloop_call_after` and `pkrsrv_eventloop_call_immediate_after`, up to the thread that they
-- make.
abbrev pub call_after : ℕ → Task
call_after id = counted_use (counted_use (task_new id))

-- Two LEAVEs. Nothing is left for the second where the first has freed the task.
unfoldable pub leave_twice : Task → Result (Option Task)
leave_twice task =
    counted_leave task >>= λ t. elim t [ none ↦ fault no_reference | some u ↦ counted_leave u ]

-- `pkrsrv_eventloop_call_after_thread_f` and `pkrsrv_eventloop_call_immediate_after_thread_f` after the
-- delay. The LEAVE at the end, which stands behind the section under the mutex, is one with it.
unfoldable pub thread_f : Side → List ℕ → Task → Result (List ℕ × Option Task)
unfolding leave_twice
thread_f side tasks task =
    if task.is_cancelled
    then (leave_twice task >>= λ t. ok (tasks, t))
    else (counted_leave put.1 >>= λ t. ok (put.0, t))
  where
    put : List ℕ × Task
    put = tasks_put side tasks task

-- `pkrsrv_eventloop_task_cancel`
unfoldable pub task_cancel : List ℕ → Task → Result (List ℕ × Option Task)
task_cancel tasks task =
    if task.is_cancelled
    then ok (tasks, some task)
    else if task.is_queued && not task.is_popped
    then tasks_remove tasks (record task { is_cancelled = true })
    else ok (tasks, some (record task { is_cancelled = true }))
