-- ===== src/EventLoop/Runs.antt =====
-- What each step of a task of src/eventloop.c computes.
use pokerunicorn_server.Prelude.{
  ℕ, suc, ◌≡◌, refl, Bool, true, false, not, ◌&&◌, Option, none, some, List,
}
use pokerunicorn_server.Prelude.Result.{ok}
use pokerunicorn_server.EventLoop.{Task, Side, thread_f, task_cancel, remove_task}
use pokerunicorn_server.EventLoop.Life.{View, wake, take, cancel}
use pokerunicorn_server.EventLoop.Counts.{bit, counted_leave_lem}

pub wake_lem :
    (v : View) (side : Side) (t : Task) (p : List ℕ × Option Task)
    → v.task ≡ some t
    → thread_f side v.tasks t ≡ ok p
    → wake v side ≡ ok (record v { tasks = p.0; task = p.1; asleep = none })
unfolding wake
wake_lem v side t p h e = rw (wake, h, e) refl

pub bit-false : (b : Bool) → bit b ≡ 0 → b ≡ false
bit-false true h = absurd (cc h)
bit-false false h = refl

pub take_lem :
    (v : View) (t : Task) (n : ℕ)
    → v.task ≡ some t
    → t.is_cancelled ≡ false
    → t.count ≡ suc (suc n)
    → take v
      ≡ ok (record v {
        tasks = remove_task t.id v.tasks;
        task = some (record t { is_popped = true; count = suc n });
        is_running = true;
      })
unfolding take
take_lem v t n h s k =
    rw (take, h, counted_leave_lem (record t { is_popped = true }) (suc n) k, s) refl

pub cancel_again :
    (v : View) (t : Task)
    → v.task ≡ some t
    → t.is_cancelled ≡ true
    → cancel v ≡ ok (record v { task = some t })
unfolding cancel
cancel_again v t h s = rw (cancel, task_cancel, h, s) refl

pub cancel_queued :
    (v : View) (t : Task) (n : ℕ)
    → v.task ≡ some t
    → t.is_cancelled ≡ false
    → (t.is_queued && not t.is_popped) ≡ true
    → t.count ≡ suc (suc n)
    → cancel v
      ≡ ok (record v {
        tasks = remove_task t.id v.tasks;
        task = some (record t { is_cancelled = true; count = suc n });
      })
unfolding cancel task_cancel
cancel_queued v t n h s q k =
    rw
      (cancel, task_cancel, h, s, q, counted_leave_lem (record t { is_cancelled = true }) (suc n) k)
      refl

pub cancel_elsewhere :
    (v : View) (t : Task)
    → v.task ≡ some t
    → t.is_cancelled ≡ false
    → (t.is_queued && not t.is_popped) ≡ false
    → cancel v ≡ ok (record v { task = some (record t { is_cancelled = true }) })
unfolding cancel task_cancel
cancel_elsewhere v t h s q = rw (cancel, task_cancel, h, s, q) refl
