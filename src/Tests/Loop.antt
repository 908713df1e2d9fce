-- ===== src/Tests/Loop.antt =====
-- The theorems on src/eventloop.c for the task 3, behind the task 8 of the queue.
use pokerunicorn_server.Prelude.{
  ℕ, suc, ◌≡◌, ◌≢◌, ◌⊎◌, refl, true, false, none, some, List, [], ◌∷◌, All, arith,
}
use pokerunicorn_server.Prelude.Result.{Result, ok, fault}
use pokerunicorn_server.EventLoop.{Task, Side, back, call, call_after}
use pokerunicorn_server.EventLoop.Life.{
  View, Reach, called, delayed, woken, taken, finished, held, dropped, cancelled, wake, take,
  finish, hold, drop, cancel,
}
use pokerunicorn_server.EventLoop.Counts.{is_lost, IsTracked}
use pokerunicorn_server.EventLoop.Steps.{Goes}
use pokerunicorn_server.EventLoop.Safety.{Reach-IsTracked, Reach-Goes, settled_freed, cancelled_out}

abbrev queued : List ℕ → View
queued tasks = record {
  tasks = (call back tasks 3).0;
  task = some ((call back tasks 3).1);
  asleep = none;
  is_running = false;
  held = 0;
}

abbrev view_of : Result View → View
view_of (ok v) = v
view_of (fault e) = queued []

-- A holder cancels the task in the queue, and lets it go.
abbrev kept : View
unfolding hold
kept = view_of (hold (queued (8 ∷ [])))

abbrev dropped_out : View
unfolding cancel kept
dropped_out = view_of (cancel kept)

abbrev lost : View
unfolding drop dropped_out
lost = view_of (drop dropped_out 0)

dropped_out-Reach : Reach 3 dropped_out
unfolding hold cancel kept dropped_out
dropped_out-Reach =
    cancelled kept dropped_out 0
      (held (queued (8 ∷ [])) kept _ (called back (8 ∷ []) (ground arith)) refl refl) refl refl

lost-Reach : Reach 3 lost
unfolding hold cancel drop kept dropped_out lost
lost-Reach = dropped dropped_out lost 0 dropped_out-Reach refl refl

-- A reference is left, and nobody has it.
lost_lem :
    (lost.task
      ≡ some (record {
        id = 3;
        count = 1;
        is_queued = true;
        is_popped = false;
        is_called = false;
        is_cancelled = true;
      }))
    × (lost.held ≡ 0)
    × (lost.tasks ≡ 8 ∷ [])
unfolding hold cancel drop kept dropped_out lost
lost_lem = (refl, refl, refl)

-- A delayed task is called, and gone.
abbrev asleep : View
asleep = record {
  tasks = [];
  task = some (call_after 3);
  asleep = some back;
  is_running = false;
  held = 0;
}

abbrev awake : View
unfolding wake
awake = view_of (wake asleep back)

abbrev running : View
unfolding take awake
running = view_of (take awake)

abbrev gone : View
unfolding finish running
gone = view_of (finish running)

running-Reach : Reach 3 running
unfolding wake take awake running
running-Reach =
    taken awake running [] (woken asleep awake back (delayed back [] tt) refl refl) refl refl refl

gone-Reach : Reach 3 gone
unfolding wake take finish awake running gone
gone-Reach = finished running gone running-Reach refl refl

gone_lem : gone.task ≡ none
unfolding wake take finish awake running gone
gone_lem = refl

Reach-IsTracked_example : IsTracked 3 lost lost.task
Reach-IsTracked_example = Reach-IsTracked 3 lost lost-Reach

Reach-Goes_example :
    ((side : Side) → running.asleep ≡ some side → Goes 3 (wake running side))
    × ((tasks : List ℕ)
        → running.is_running ≡ false
        → running.tasks ≡ 3 ∷ tasks
        → Goes 3 (take running))
    × (running.is_running ≡ true → Goes 3 (finish running))
    × ((n : ℕ) → running.held ≡ suc n → Goes 3 (drop running n) × Goes 3 (cancel running))
Reach-Goes_example = Reach-Goes 3 running running-Reach

settled_freed_example :
    (gone.task ≡ none) ⊎ ((t : Task) × (gone.task ≡ some t) × (is_lost t ≡ true))
unfolding wake take finish awake running gone
settled_freed_example = settled_freed 3 gone gone-Reach refl refl refl refl

cancelled_out_example : All (λ x. x ≢ 3) dropped_out.tasks
unfolding hold cancel kept dropped_out
cancelled_out_example = cancelled_out 3 dropped_out _ dropped_out-Reach refl refl
