-- ===== src/EventLoop/Life.antt =====
-- One task of src/eventloop.c among the others: the steps that concern it, from the call that makes it.
use pokerunicorn_server.Prelude.{
  ℕ, suc, ◌+◌, ◌≡◌, ◌≢◌, Bool, true, false, Option, none, some, List, [], ◌∷◌, ◌++◌, if◌then◌else◌,
  All,
}
use pokerunicorn_server.Prelude.Result.{Result, ok, fault, null_pointer, ◌>>=◌}
use pokerunicorn_server.EventLoop.{
  Task, Side, counted_use, counted_leave, tasks_pop, call, call_after, thread_f, task_cancel,
  remove_task,
}

-- The queue; the task, or `none` where it has been freed; the end of the queue for which a delay thread
-- sleeps; whether the loop is in the task's function; and how many references others hold.
pub record View : Type 0 where
  pub tasks : List ℕ
  pub task : Option Task
  pub asleep : Option Side
  pub is_running : Bool
  pub held : ℕ

abbrev pub with_task : View → List ℕ × Option Task → View
with_task v p = record v { tasks = p.0; task = p.1 }

-- The task that a pointer leads to.
abbrev pub follow : View → (Task → Result View) → Result View
follow v next = elim v.task [ none ↦ fault null_pointer | some t ↦ next t ]

-- The delay thread wakes up.
unfoldable pub wake : View → Side → Result View
unfolding thread_f
wake v side =
    follow v λ t. thread_f side v.tasks t >>= λ p. ok (record (with_task v p) { asleep = none })

-- A round of `pkrsrv_eventloop_run` that finds the task at the head of the queue, up to its function.
unfoldable pub take : View → Result View
take v = follow v λ t. tasks_pop v.tasks t >>= λ p. elim p.1 [
  | none ↦ fault null_pointer
  | some u ↦
      if u.is_cancelled
      then (counted_leave u >>= λ w. ok (with_task v (p.0, w)))
      else ok (record (with_task v p) { is_running = true })
]

-- The rest of that round, after the task's function.
unfoldable pub finish : View → Result View
finish v = follow v λ t. counted_leave (record t { is_called = true }) >>= λ w.
    ok (record v { task = w; is_running = false })

-- Others take and drop a reference, and cancel the task while they hold one.
unfoldable pub hold : View → Result View
hold v = follow v λ t. ok (record v { task = some (counted_use t); held = v.held + 1 })

unfoldable pub drop : View → ℕ → Result View
drop v n = follow v λ t. counted_leave t >>= λ w. ok (record v { task = w; held = n })

unfoldable pub cancel : View → Result View
unfolding task_cancel
cancel v = follow v λ t. task_cancel v.tasks t >>= λ p. ok (with_task v p)

-- The views that the code reaches, for the task `id`. The other tasks of the queue come and go in any
-- way.
pub data Reach (id : ℕ) : View → Type 0 where
  called :
      (side : Side) (tasks : List ℕ)
      → All (λ t. t ≢ id) tasks
      → Reach id (record {
        tasks = (call side tasks id).0;
        task = some ((call side tasks id).1);
        asleep = none;
        is_running = false;
        held = 0;
      })
  delayed :
      (side : Side) (tasks : List ℕ)
      → All (λ t. t ≢ id) tasks
      → Reach id (record {
        tasks = tasks;
        task = some (call_after id);
        asleep = some side;
        is_running = false;
        held = 0;
      })
  appended :
      (v : View) (t : ℕ) → Reach id v → t ≢ id → Reach id (record v { tasks = v.tasks ++ (t ∷ []) })
  prepended : (v : View) (t : ℕ) → Reach id v → t ≢ id → Reach id (record v { tasks = t ∷ v.tasks })
  removed :
      (v : View) (t : ℕ)
      → Reach id v
      → t ≢ id
      → Reach id (record v { tasks = remove_task t v.tasks })
  woken :
      (v w : View) (side : Side)
      → Reach id v
      → v.asleep ≡ some side
      → wake v side ≡ ok w
      → Reach id w
  taken :
      (v w : View) (tasks : List ℕ)
      → Reach id v
      → v.is_running ≡ false
      → v.tasks ≡ id ∷ tasks
      → take v ≡ ok w
      → Reach id w
  finished : (v w : View) → Reach id v → v.is_running ≡ true → finish v ≡ ok w → Reach id w
  held : (v w : View) (t : Task) → Reach id v → v.task ≡ some t → hold v ≡ ok w → Reach id w
  dropped : (v w : View) (n : ℕ) → Reach id v → v.held ≡ suc n → drop v n ≡ ok w → Reach id w
  cancelled : (v w : View) (n : ℕ) → Reach id v → v.held ≡ suc n → cancel v ≡ ok w → Reach id w
