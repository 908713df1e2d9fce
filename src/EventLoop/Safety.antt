-- ===== src/EventLoop/Safety.antt =====
-- What holds of a task of src/eventloop.c in every view that the code reaches.
use pokerunicorn_server.Prelude.{
  ℕ, suc, ◌+◌, ◌≡◌, ◌≢◌, ◌⊎◌, ◌∙◌, refl, ap, sym, subst, true, false, Option, none, some, List, ◌∷◌,
  ◌==◌, ==_refl, All, arith, inl, inr, Option-cases, Bool-cases,
}
use pokerunicorn_server.Prelude.Result.{Result, ok, ok_injective, fault, null_pointer}
use pokerunicorn_server.EventLoop.{Task, Side, back, front, call}
use pokerunicorn_server.EventLoop.Life.{
  View, Reach, called, delayed, appended, prepended, removed, woken, taken, finished, held, dropped,
  cancelled, wake, take, finish, hold, drop, cancel,
}
use pokerunicorn_server.EventLoop.Counts.{
  entries, bit, sleepers, is_lost, IsCounted, IsForgotten, IsTracked, entries-append,
  entries-remove_other, entries-none, entries-head, entries-zero, bits,
}
use pokerunicorn_server.EventLoop.Steps.{
  Goes, hold-Goes, drop-Goes, finish-Goes, wake-Goes, take-Goes, cancel-Goes, IsTracked-among,
}

Goes-on :
    (id : ℕ) (step : Result View) (w : View) → Goes id step → step ≡ ok w → IsTracked id w w.task
Goes-on id step w (x, e, k) h =
    subst (λ (y : View). IsTracked id y y.task) (ok_injective (sym e ∙ h)) k

-- A step of a freed task does not end well, and one of a task in order keeps it tracked.
step-IsTracked :
    (id : ℕ) (v w : View) (step : Result View)
    → IsTracked id v v.task
    → (v.task ≡ none → step ≡ fault null_pointer)
    → ((t : Task) → IsCounted id v t → v.task ≡ some t → Goes id step)
    → step ≡ ok w
    → IsTracked id w w.task
step-IsTracked id v w step k freed live e = elim (Option-cases v.task) [
  | inl h ↦ absurd (cc (sym (freed h) ∙ e))
  | inr (t, h) ↦ Goes-on id step w (live t (subst (λ (o : Option Task). IsTracked id v o) h k) h) e
]

called-IsTracked :
    (id : ℕ) (side : Side) (tasks : List ℕ)
    → All (λ t. t ≢ id) tasks
    → let c = call side tasks id in
      IsTracked id
        (record { tasks = c.0; task = some (c.1); asleep = none; is_running = false; held = 0 })
        (some (c.1))
called-IsTracked id back tasks apart =
    let one : bit (id == id) ≡ 1 = rw (==_refl id) refl in
    let zero = entries-none id tasks apart in
    let sum = entries-append id id tasks in
    record {
      order = record {
        same_id = refl;
        count = omega (arith, one, zero, sum);
        waiting = omega (arith, one, zero, sum);
        resting = omega arith;
        popped_first = omega arith;
        queued_first = omega arith;
      };
      used = omega arith;
    }
called-IsTracked id front tasks apart =
    let one : entries id (id ∷ tasks) ≡ 1 + entries id tasks = rw (==_refl id) refl in
    let zero = entries-none id tasks apart in
    record {
      order = record {
        same_id = refl;
        count = omega (arith, one, zero);
        waiting = omega (arith, one, zero);
        resting = omega arith;
        popped_first = omega arith;
        queued_first = omega arith;
      };
      used = omega arith;
    }

-- In every view that the code reaches, the task's count is the number of its references: one of each
-- holder, two of a delay thread, two of an entry in the queue, one of the loop in the task's function,
-- and one more after a cancellation in the queue. A task that has been freed has none.
pub Reach-IsTracked : (id : ℕ) (v : View) → Reach id v → IsTracked id v v.task
unfolding wake take finish hold drop cancel
Reach-IsTracked id _ (called side tasks apart) = called-IsTracked id side tasks apart
Reach-IsTracked id _ (delayed side tasks apart) =
    let zero = entries-none id tasks apart in
    record {
      order = record {
        same_id = refl;
        count = omega (arith, zero);
        waiting = zero;
        resting = omega arith;
        popped_first = omega arith;
        queued_first = omega arith;
      };
      used = omega arith;
    }
Reach-IsTracked id _ (appended v t r apart) =
    let other : bit (t == id) ≡ 0 = ground (arith, apart) in
    IsTracked-among id v _ (omega (arith, entries-append id t v.tasks, other))
      (Reach-IsTracked id v r)
Reach-IsTracked id _ (prepended v t r apart) =
    IsTracked-among id v _ (ground (arith, apart)) (Reach-IsTracked id v r)
Reach-IsTracked id _ (removed v t r apart) =
    IsTracked-among id v _ (entries-remove_other id t v.tasks apart) (Reach-IsTracked id v r)
Reach-IsTracked id _ (woken v w side r k e) =
    step-IsTracked id v w (wake v side) (Reach-IsTracked id v r) (λ h. rw (wake, h) refl)
      (λ t c h. wake-Goes id v t c h side k) e
Reach-IsTracked id _ (taken v w tasks r k q e) =
    step-IsTracked id v w (take v) (Reach-IsTracked id v r) (λ h. rw (take, h) refl)
      (λ t c h. take-Goes id v t c h tasks k q) e
Reach-IsTracked id _ (finished v w r k e) =
    step-IsTracked id v w (finish v) (Reach-IsTracked id v r) (λ h. rw (finish, h) refl)
      (λ t c h. finish-Goes id v t c h k) e
Reach-IsTracked id _ (held v w t r k e) =
    step-IsTracked id v w (hold v) (Reach-IsTracked id v r) (λ h. rw (hold, h) refl)
      (λ t c h. hold-Goes id v t c h) e
Reach-IsTracked id _ (dropped v w n r k e) =
    step-IsTracked id v w (drop v n) (Reach-IsTracked id v r) (λ h. rw (drop, h) refl)
      (λ t c h. drop-Goes id v t c h n k) e
Reach-IsTracked id _ (cancelled v w n r k e) =
    step-IsTracked id v w (cancel v) (Reach-IsTracked id v r) (λ h. rw (cancel, h) refl)
      (λ t c h. cancel-Goes id v t c h) e

pub live_task : (id : ℕ) (v : View) (t : Task) → Reach id v → v.task ≡ some t → IsCounted id v t
live_task id v t r h = subst (λ (o : Option Task). IsTracked id v o) h (Reach-IsTracked id v r)

-- In every view that the code reaches, a step that the view calls for meets the task and does not end in
-- a fault: the waking of a delay thread that sleeps, the round of the loop that finds the task at the
-- head of the queue, the end of the task's function, and a release or a cancellation by a holder.
pub Reach-Goes :
    (id : ℕ) (v : View)
    → Reach id v
    → ((side : Side) → v.asleep ≡ some side → Goes id (wake v side))
      × ((tasks : List ℕ) → v.is_running ≡ false → v.tasks ≡ id ∷ tasks → Goes id (take v))
      × (v.is_running ≡ true → Goes id (finish v))
      × ((n : ℕ) → v.held ≡ suc n → Goes id (drop v n) × Goes id (cancel v))
Reach-Goes id v r = elim (Option-cases v.task) [
  | inl h ↦
      let f : IsForgotten id v =
        subst (λ (o : Option Task). IsTracked id v o) h (Reach-IsTracked id v r) in
      (
        λ side k. absurd (omega (arith, f.not_asleep, ap sleepers k)),
        λ tasks k q. absurd (omega (arith, f.not_queued, entries-head id v.tasks tasks q)),
        λ k. absurd (omega (arith, f.not_running, ap bit k)),
        λ n k. absurd (omega (arith, f.not_held, k)),
      )
  | inr (t, h) ↦
      let c = live_task id v t r h in
      (
        λ side k. wake-Goes id v t c h side k,
        λ tasks k q. take-Goes id v t c h tasks k q,
        λ k. finish-Goes id v t c h k,
        λ n k. (drop-Goes id v t c h n k, cancel-Goes id v t c h),
      )
]

-- Where a view that the code reaches has no delay thread asleep, no entry of the task in the queue, no
-- run of its function and no holder, the task has been freed, unless it was cancelled in the queue.
pub settled_freed :
    (id : ℕ) (v : View)
    → Reach id v
    → v.asleep ≡ none
    → entries id v.tasks ≡ 0
    → v.is_running ≡ false
    → v.held ≡ 0
    → (v.task ≡ none) ⊎ ((t : Task) × (v.task ≡ some t) × (is_lost t ≡ true))
settled_freed id v r a q k n = elim (Option-cases v.task) [
  | inl h ↦ inl h
  | inr (t, h) ↦ inr (
    t,
    h,
    elim (Bool-cases (is_lost t)) [
      | inl s ↦ s
      | inr s ↦
          let c = live_task id v t r h in
          absurd (omega (arith, c.used, c.order.count, ap sleepers a, q, ap bit k, n, ap bit s))
    ],
  )
]

-- In every view that the code reaches, a task that is cancelled is not in the queue.
pub cancelled_out :
    (id : ℕ) (v : View) (t : Task)
    → Reach id v
    → v.task ≡ some t
    → t.is_cancelled ≡ true
    → All (λ x. x ≢ id) v.tasks
cancelled_out id v t r h s =
    let c = live_task id v t r h in
    entries-zero id v.tasks
      (omega (arith, c.order.waiting, bits t.is_cancelled t.is_queued t.is_popped, ap bit s))
