-- ===== src/EventLoop/Counts.antt =====
-- The reference count of a task of src/eventloop.c.
use pokerunicorn_server.Prelude.{
  ℕ, zero, suc, ◌+◌, ◌*◌, ◌≤◌, ◌≡◌, ◌≢◌, ◌∙◌, refl, ap, Bool, true, false, not, ◌&&◌, Option, none,
  some, List, [], ◌∷◌, ◌++◌, if◌then◌else◌, ◌==◌, ==_refl, All, count_if, arith,
}
use pokerunicorn_server.Prelude.Result.{Result, ok, ◌>>=◌}
use pokerunicorn_server.EventLoop.{
  Task, Side, back, front, counted_use, counted_leave, left_with, leave_twice, tasks_put, thread_f,
  remove_task,
}
use pokerunicorn_server.EventLoop.Life.{View}

-- How often the queue holds the task.
abbrev pub entries : ℕ → List ℕ → ℕ
entries id tasks = count_if (λ t. t == id) tasks

abbrev pub bit : Bool → ℕ
bit true = 1
bit false = 0

abbrev pub sleepers : Option Side → ℕ
sleepers none = 0
sleepers (some side) = 1

-- Was the task cancelled in the queue?
abbrev pub is_lost : Task → Bool
is_lost t = t.is_cancelled && t.is_queued && not t.is_popped

-- The references: one of each holder, two of a delay thread, two of an entry in the queue, one of the
-- loop in the task's function, and one that a cancellation in the queue leaves behind.
abbrev pub references : ℕ → View → Task → ℕ
references id v t =
    v.held + 2 * sleepers v.asleep + 2 * entries id v.tasks + bit v.is_running + bit (is_lost t)

-- The members of a task and its place agree.
pub record IsInOrder (id : ℕ) (v : View) (t : Task) : Type 0 where
  pub same_id : t.id ≡ id
  pub count : t.count ≡ references id v t
  pub waiting : entries id v.tasks ≡ bit (not t.is_cancelled && t.is_queued && not t.is_popped)
  pub resting : sleepers v.asleep + bit t.is_queued ≤ 1
  pub popped_first : bit v.is_running ≤ bit t.is_popped
  pub queued_first : bit t.is_popped ≤ bit t.is_queued

-- A task that has not been freed.
pub record IsCounted (id : ℕ) (v : View) (t : Task) : Type 0 where
  pub order : IsInOrder id v t
  pub used : 1 ≤ t.count

-- Nothing refers to a task that has been freed.
pub record IsForgotten (id : ℕ) (v : View) : Type 0 where
  pub not_held : v.held ≡ 0
  pub not_queued : entries id v.tasks ≡ 0
  pub not_asleep : sleepers v.asleep ≡ 0
  pub not_running : bit v.is_running ≡ 0

abbrev pub IsTracked : ℕ → View → Option Task → Type 0
IsTracked id v none = IsForgotten id v
IsTracked id v (some t) = IsCounted id v t

pub entries-append :
    (id t : ℕ) (tasks : List ℕ) → entries id (tasks ++ (t ∷ [])) ≡ entries id tasks + bit (t == id)
entries-append id t [] = ground arith
entries-append id t (x ∷ xs) = ground (arith, entries-append id t xs)

pub entries-remove_other :
    (id t : ℕ) (tasks : List ℕ) → t ≢ id → entries id (remove_task t tasks) ≡ entries id tasks
entries-remove_other id t [] h = refl
entries-remove_other id t (x ∷ xs) h = ground (arith, h, entries-remove_other id t xs h)

pub entries-remove :
    (id : ℕ) (tasks : List ℕ) → entries id (remove_task id tasks) + 1 ≤ entries id tasks + 1
entries-remove id [] = omega arith
entries-remove id (x ∷ xs) = ground (arith, entries-remove id xs)

pub entries-remove_one :
    (id : ℕ) (tasks : List ℕ) → entries id tasks ≡ 1 → entries id (remove_task id tasks) ≡ 0
entries-remove_one id [] h = refl
entries-remove_one id (x ∷ xs) h = ground (arith, h, entries-remove_one id xs)

pub entries-head :
    (id : ℕ) (tasks rest : List ℕ) → tasks ≡ id ∷ rest → entries id tasks ≡ 1 + entries id rest
entries-head id tasks rest h =
    ap (λ (l : List ℕ). entries id l) h
    ∙ ap (λ (b : Bool). (if b then 1 else 0) + entries id rest) (==_refl id)

pub entries-zero : (id : ℕ) (tasks : List ℕ) → entries id tasks ≡ 0 → All (λ t. t ≢ id) tasks
entries-zero id [] h = tt
entries-zero id (x ∷ xs) h = (ground (arith, h), entries-zero id xs (ground (arith, h)))

pub entries-none : (id : ℕ) (tasks : List ℕ) → All (λ t. t ≢ id) tasks → entries id tasks ≡ 0
entries-none id [] h = refl
entries-none id (x ∷ xs) h = ground (arith, h.0, entries-none id xs h.1)

pub counted_leave_lem : (t : Task) (n : ℕ) → t.count ≡ suc n → counted_leave t ≡ ok (left_with n t)
counted_leave_lem t n h = rw h refl

pub leave_twice_lem :
    (t : Task) (n : ℕ) → t.count ≡ suc (suc n) → leave_twice t ≡ ok (left_with n t)
unfolding leave_twice
leave_twice_lem t zero h = rw h refl
leave_twice_lem t (suc n) h = rw h refl

abbrev pub enqueued : Task → Task
enqueued t = record (counted_use t) { is_queued = true }

-- The flags of a task as numbers: of an entry that waits in the queue, and of one lost by a
-- cancellation there.
abbrev IsBits : Bool → Bool → Bool → Type 0
IsBits c q p =
    let w = bit (not c && q && not p) in
    let l = bit (c && q && not p) in
    (w + bit c ≤ 1)
    × (w + bit p ≤ 1)
    × (w ≤ bit q)
    × (bit q ≤ w + bit c + bit p)
    × (l ≤ bit c)
    × (l ≤ bit q)
    × (l + bit p ≤ 1)
    × (bit c + bit q ≤ 1 + bit p + l)

pub bits : (c q p : Bool) → IsBits c q p
bits c q p = ground arith

pub thread_f_cancelled :
    (side : Side) (tasks : List ℕ) (t : Task) (n : ℕ)
    → t.is_cancelled ≡ true
    → t.count ≡ suc (suc n)
    → thread_f side tasks t ≡ ok (tasks, left_with n t)
unfolding thread_f
thread_f_cancelled side tasks t n s h = simp (thread_f, s, leave_twice_lem t n h) refl

pub thread_f_awake :
    (side : Side) (tasks : List ℕ) (t : Task)
    → t.is_cancelled ≡ false
    → thread_f side tasks t ≡ ok ((tasks_put side tasks t).0, left_with t.count (enqueued t))
unfolding thread_f
thread_f_awake back tasks t s =
    let put = tasks_put back tasks t in
    ap
      (λ (b : Bool).
        if b
        then (leave_twice t >>= λ x. ok (tasks, x))
        else (counted_leave put.1 >>= λ x. ok (put.0, x)))
      s
    ∙ ap (λ (r : Result (Option Task)). r >>= λ x. ok (put.0, x))
        (counted_leave_lem put.1 t.count (omega arith))
thread_f_awake front tasks t s =
    let put = tasks_put front tasks t in
    ap
      (λ (b : Bool).
        if b
        then (leave_twice t >>= λ x. ok (tasks, x))
        else (counted_leave put.1 >>= λ x. ok (put.0, x)))
      s
    ∙ ap (λ (r : Result (Option Task)). r >>= λ x. ok (put.0, x))
        (counted_leave_lem put.1 t.count (omega arith))

pub entries-put :
    (side : Side) (id : ℕ) (tasks : List ℕ) (t : Task)
    → t.id ≡ id
    → entries id (tasks_put side tasks t).0 ≡ entries id tasks + 1
entries-put back id tasks t h =
    let one : bit (t.id == id) ≡ 1 = rw (h, ==_refl id) refl in
    omega (arith, entries-append id t.id tasks, one)
entries-put front id tasks t h = rw (h, ==_refl id) (omega arith)

-- The task after a LEAVE is in order, or it is freed and nothing refers to it.
pub left_with-IsTracked :
    (id n : ℕ) (v : View) (t : Task)
    → IsInOrder id v (record t { count = n })
    → IsTracked id v (left_with n t)
left_with-IsTracked id zero v t o = record {
  not_held = omega (arith, o.count);
  not_queued = omega (arith, o.count);
  not_asleep = omega (arith, o.count);
  not_running = omega (arith, o.count);
}
left_with-IsTracked id (suc n) v t o = record { order = o; used = omega arith }
