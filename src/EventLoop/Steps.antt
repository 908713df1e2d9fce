-- ===== src/EventLoop/Steps.antt =====
-- The steps of a task of src/eventloop.c, and its reference count after each.
use pokerunicorn_server.Prelude.{
  ℕ, suc, ◌+◌, ◌*◌, ◌≡◌, ◌∙◌, refl, ap, true, false, not, ◌&&◌, Option, none, some, List, ◌∷◌,
  arith, inl, inr, Bool-cases,
}
use pokerunicorn_server.Prelude.Result.{Result, ok}
use pokerunicorn_server.EventLoop.{
  Task, Side, counted_use, left_with, tasks_put, thread_f, remove_task,
}
use pokerunicorn_server.EventLoop.Life.{View, wake, take, finish, hold, drop, cancel}
use pokerunicorn_server.EventLoop.Counts.{
  entries, bit, sleepers, is_lost, IsInOrder, IsCounted, IsTracked, entries-remove_one,
  entries-head, counted_leave_lem, left_with-IsTracked, thread_f_cancelled, thread_f_awake,
  entries-put, bits, enqueued,
}
use pokerunicorn_server.EventLoop.Runs.{
  wake_lem, bit-false, take_lem, cancel_again, cancel_queued, cancel_elsewhere,
}

-- A step succeeds, and the task is tracked after it.
abbrev pub Goes : ℕ → Result View → Type 0
Goes id step = (w : View) × (step ≡ ok w) × IsTracked id w w.task

module _ (id : ℕ) (v : View) (t : Task) (c : IsCounted id v t) (h : v.task ≡ some t) where
  pub hold-Goes : Goes id (hold v)
  unfolding hold
  hold-Goes =
      let o = c.order in
      (
        record v { task = some (counted_use t); held = v.held + 1 },
        rw (hold, h) refl,
        record {
          order = record {
            same_id = o.same_id;
            count = omega (arith, o.count);
            waiting = o.waiting;
            resting = o.resting;
            popped_first = o.popped_first;
            queued_first = o.queued_first;
          };
          used = omega arith;
        },
      )

  pub drop-Goes : (n : ℕ) → v.held ≡ suc n → Goes id (drop v n)
  unfolding drop
  drop-Goes n k =
      let o = c.order in
      let m =
        n + 2 * sleepers v.asleep + 2 * entries id v.tasks + bit v.is_running + bit (is_lost t) in
      (
        record v { task = left_with m t; held = n },
        rw (drop, h, counted_leave_lem t m (omega (arith, o.count, k))) refl,
        left_with-IsTracked id m (record v { task = left_with m t; held = n }) t
            (record {
              same_id = o.same_id;
              count = refl;
              waiting = o.waiting;
              resting = o.resting;
              popped_first = o.popped_first;
              queued_first = o.queued_first;
            }),
      )

  pub finish-Goes : v.is_running ≡ true → Goes id (finish v)
  unfolding finish
  finish-Goes k =
      let o = c.order in
      let m = v.held + 2 * sleepers v.asleep + 2 * entries id v.tasks + bit (is_lost t) in
      let u : Task = record t { is_called = true } in
      (
        record v { task = left_with m u; is_running = false },
        rw (finish, h, counted_leave_lem u m (omega (arith, o.count, ap bit k))) refl,
        left_with-IsTracked id m (record v { task = left_with m u; is_running = false }) u
            (record {
              same_id = o.same_id;
              count = omega arith;
              waiting = o.waiting;
              resting = o.resting;
              popped_first = omega arith;
              queued_first = o.queued_first;
            }),
      )

  pub wake-Goes : (side : Side) → v.asleep ≡ some side → Goes id (wake v side)
  unfolding wake thread_f
  wake-Goes side k =
      let o = c.order in
      let one : sleepers v.asleep ≡ 1 = ap sleepers k in
      let m = v.held + 2 * entries id v.tasks + bit v.is_running + bit (is_lost t) in
      elim (Bool-cases t.is_cancelled) [
        | inl s ↦
            let w : View = record v { task = left_with m t; asleep = none } in
            (
              w,
              wake_lem v side t (v.tasks, left_with m t) h
                  (thread_f_cancelled side v.tasks t m s (omega (arith, o.count, one))),
              left_with-IsTracked id m w t (record {
                same_id = o.same_id;
                count = omega arith;
                waiting = o.waiting;
                resting = omega (arith, o.resting);
                popped_first = o.popped_first;
                queued_first = o.queued_first;
              }),
            )
        | inr s ↦ awake side k s
      ]
    where
      awake : (side : Side) → v.asleep ≡ some side → t.is_cancelled ≡ false → Goes id (wake v side)
      awake side k s =
          let o = c.order in
          let put = tasks_put side v.tasks t in
          let u = enqueued t in
          let w : View = record v { tasks = put.0; task = left_with t.count u; asleep = none } in
          let one : sleepers v.asleep ≡ 1 = ap sleepers k in
          let more : entries id put.0 ≡ entries id v.tasks + 1 =
            entries-put side id v.tasks t o.same_id in
          let cancelled : bit t.is_cancelled ≡ 0 = ap bit s in
          let before = bits t.is_cancelled t.is_queued t.is_popped in
          let after = bits t.is_cancelled true t.is_popped in
          (
            w,
            wake_lem v side t (put.0, left_with t.count u) h (thread_f_awake side v.tasks t s),
            left_with-IsTracked id t.count w u (record {
              same_id = o.same_id;
              count = omega (
                arith, o.count, o.waiting, o.resting, o.popped_first, o.queued_first, one, more,
                cancelled, before, after,
              );
              waiting = omega (
                arith, o.count, o.waiting, o.resting, o.popped_first, o.queued_first, one, more,
                cancelled, before, after,
              );
              resting = omega (
                arith, o.count, o.waiting, o.resting, o.popped_first, o.queued_first, one, more,
                cancelled, before, after,
              );
              popped_first = omega (
                arith, o.count, o.waiting, o.resting, o.popped_first, o.queued_first, one, more,
                cancelled, before, after,
              );
              queued_first = omega (
                arith, o.count, o.waiting, o.resting, o.popped_first, o.queued_first, one, more,
                cancelled, before, after,
              );
            }),
          )

  pub take-Goes : (tasks : List ℕ) → v.is_running ≡ false → v.tasks ≡ id ∷ tasks → Goes id (take v)
  take-Goes tasks k q =
      let o = c.order in
      let first : entries id v.tasks ≡ 1 + entries id tasks = entries-head id v.tasks tasks q in
      let before = bits t.is_cancelled t.is_queued t.is_popped in
      let after = bits t.is_cancelled t.is_queued true in
      let alone : entries id v.tasks ≡ 1 = omega (arith, first, o.waiting, before) in
      let n = v.held + 2 * sleepers v.asleep + bit (is_lost t) in
      let u : Task = record t { is_popped = true; count = suc n } in
      let idle : bit v.is_running ≡ 0 = ap bit k in
      let rest : entries id (remove_task t.id v.tasks) ≡ 0 =
        rw (o.same_id) (entries-remove_one id v.tasks alone) in
      (
        record v { tasks = remove_task t.id v.tasks; task = some u; is_running = true },
        take_lem v t n h (bit-false t.is_cancelled (omega (arith, first, o.waiting, before)))
            (omega (arith, o.count, alone, idle)),
        record {
          order = record {
            same_id = o.same_id;
            count =
                omega
                  (arith, o.count, o.waiting, o.resting, first, alone, idle, rest, before, after);
            waiting =
                omega
                  (arith, o.count, o.waiting, o.resting, first, alone, idle, rest, before, after);
            resting = o.resting;
            popped_first = omega arith;
            queued_first =
                omega
                  (arith, o.count, o.waiting, o.resting, first, alone, idle, rest, before, after);
          };
          used = omega arith;
        },
      )

  pub cancel-Goes : Goes id (cancel v)
  cancel-Goes = elim (Bool-cases t.is_cancelled) [
    | inl s ↦ (
      record v { task = some t },
      cancel_again v t h s,
      record {
        order = record {
          same_id = o.same_id;
          count = o.count;
          waiting = o.waiting;
          resting = o.resting;
          popped_first = o.popped_first;
          queued_first = o.queued_first;
        };
        used = c.used;
      },
    )
    | inr s ↦ elim (Bool-cases (t.is_queued && not t.is_popped)) [
      | inl q ↦ queued s q
      | inr q ↦
          let clear : bit t.is_cancelled ≡ 0 = ap bit s in
          let waits : bit (t.is_queued && not t.is_popped) ≡ 0 = ap bit q in
          let before = bits t.is_cancelled t.is_queued t.is_popped in
          let after = bits true t.is_queued t.is_popped in
          (
            record v { task = some (record t { is_cancelled = true }) },
            cancel_elsewhere v t h s q,
            record {
              order = record {
                same_id = o.same_id;
                count = omega (arith, o.count, o.waiting, clear, waits, before, after);
                waiting = omega (arith, o.count, o.waiting, clear, waits, before, after);
                resting = o.resting;
                popped_first = o.popped_first;
                queued_first = o.queued_first;
              };
              used = c.used;
            },
          )
    ]
  ]
    where
      o : IsInOrder id v t
      o = c.order

      queued : t.is_cancelled ≡ false → (t.is_queued && not t.is_popped) ≡ true → Goes id (cancel v)
      queued s q =
          let clear : bit t.is_cancelled ≡ 0 = ap bit s in
          let waits : bit (t.is_queued && not t.is_popped) ≡ 1 = ap bit q in
          let before = bits t.is_cancelled t.is_queued t.is_popped in
          let after = bits true t.is_queued t.is_popped in
          let one : entries id v.tasks ≡ 1 =
            omega (arith, o.waiting, clear, waits, before, after) in
          let rest : entries id (remove_task t.id v.tasks) ≡ 0 =
            rw (o.same_id) (entries-remove_one id v.tasks one) in
          let n = v.held + 2 * sleepers v.asleep + bit v.is_running in
          (
            record v {
              tasks = remove_task t.id v.tasks;
              task = some (record t { is_cancelled = true; count = suc n });
            },
            cancel_queued v t n h s q (omega (arith, o.count, one, clear, before)),
            record {
              order = record {
                same_id = o.same_id;
                count = omega (arith, rest, waits);
                waiting = rest;
                resting = o.resting;
                popped_first = o.popped_first;
                queued_first = o.queued_first;
              };
              used = omega arith;
            },
          )

-- The other tasks of the queue come and go.
pub IsTracked-among :
    (id : ℕ) (v : View) (tasks : List ℕ)
    → entries id tasks ≡ entries id v.tasks
    → IsTracked id v v.task
    → IsTracked id (record v { tasks = tasks }) v.task
IsTracked-among id v tasks e = go v.task
  where
    go : (o : Option Task) → IsTracked id v o → IsTracked id (record v { tasks = tasks }) o
    go none f = record {
      not_held = f.not_held;
      not_queued = e ∙ f.not_queued;
      not_asleep = f.not_asleep;
      not_running = f.not_running;
    }
    go (some t) c = record {
      order = record {
        same_id = c.order.same_id;
        count = omega (arith, e, c.order.count);
        waiting = e ∙ c.order.waiting;
        resting = c.order.resting;
        popped_first = c.order.popped_first;
        queued_first = c.order.queued_first;
      };
      used = c.used;
    }
