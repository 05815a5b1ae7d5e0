-- ===== src/Scheduler/Queue.antt =====
-- The array loops of src/resource/scheduler.c: on the ready queue as a list, adding is insertion
-- by priority and removing drops the handle.
use akira_os.Prelude.{
  ℕ, suc, ◌+◌, ◌-◌, ◌≤◌, ◌<◌, ◌≡◌, sym, ap, ◌∙◌, inl, inr, Bool, some, List, [], ◌∷◌, arith, leb,
  ◌==◌, if_case, Option-cases, length, take, set, find_index, find_index-Found, lt_of_get_elem?,
  or_else, insert_at, remove_at, shift_up, take-set-shift_up, take-shift_down, length-take,
  length-set, length-shift_up, length-shift_down,
}
use akira_os.Scheduler.{
  TaskCb, SchedState, max_tasks, task_at, queue, outranks, add_to_ready_queue,
  remove_from_ready_queue,
}
use akira_os.Scheduler.Order.{
  insert_before, erase, insert_at-insert_before, remove_at-erase, erase-miss,
}

pub find_index-or_else-le :
    (p : ℕ → Bool) (xs : List ℕ) → or_else (find_index p xs) (length xs) ≤ length xs
find_index-or_else-le p [] = omega arith
find_index-or_else-le p (x ∷ xs) = ground (arith, find_index-or_else-le p xs)

-- What the queue operations rely on: the array has its size, and the live part lies in it.
pub record Fits (s : SchedState) : Type 0 where
  pub room : length s.ready_queue ≡ max_tasks
  pub count_in : s.ready_count ≤ max_tasks

module _ (s : SchedState) (h : ℕ) (f : Fits s) where
  pub length-queue : length (queue s) ≡ s.ready_count
  length-queue = omega (arith, length-take s.ready_count s.ready_queue)

  pub queue-add :
      (t : TaskCb)
      → task_at s.tasks h ≡ some t
      → s.ready_count < max_tasks
      → queue (add_to_ready_queue s h) ≡ insert_before (outranks s.tasks t.priority) h (queue s)
  unfolding add_to_ready_queue
  queue-add t e room =
      let p = outranks s.tasks t.priority in
      let at = or_else (find_index p (queue s)) s.ready_count in
      let at_eq : or_else (find_index p (queue s)) (length (queue s)) ≡ at =
        ap (or_else (find_index p (queue s))) length-queue in
      let le : at ≤ s.ready_count =
        omega (arith, at_eq, length-queue, find_index-or_else-le p (queue s)) in
      if_case (λ s'. queue s' ≡ insert_before p h (queue s)) (leb max_tasks s.ready_count)
        (λ full. absurd (ground arith))
        λ _.
          rw (e, add_to_ready_queue)
            (ap (λ n. take n (set (shift_up (s.ready_count - at) at s.ready_queue) at h))
                {x = s.ready_count + 1} {y = suc s.ready_count} (omega arith)
              ∙ take-set-shift_up at (s.ready_count - at) s.ready_count s.ready_queue h
                  (omega arith) (omega (arith, f.room))
              ∙ ap (λ j. insert_at j h (queue s)) (sym at_eq)
              ∙ insert_at-insert_before p h (queue s))

  pub queue-remove : queue (remove_from_ready_queue s h) ≡ erase h (queue s)
  unfolding remove_from_ready_queue
  queue-remove = elim (Option-cases (find_index (λ x. x == h) (queue s))) [
    | inl n ↦ rw (n, remove_from_ready_queue) (sym (erase-miss h (queue s) n))
    | inr (i, e) ↦
        let g = find_index-Found (λ x. x == h) (queue s) i e in
        let lt = lt_of_get_elem? (queue s) i g.there in
        rw (e, remove_from_ready_queue)
          (take-shift_down i (s.ready_count - 1 - i) (s.ready_count - 1) s.ready_queue
              (omega (arith, lt, length-queue))
              (omega (arith, lt, length-queue, f.count_in, f.room))
            ∙ ap (λ n. remove_at i (take n s.ready_queue)) {x = suc (s.ready_count - 1)}
                (omega (arith, lt, length-queue))
            ∙ remove_at-erase h i (queue s) e)
  ]

  pub add-Fits : Fits (add_to_ready_queue s h)
  unfolding add_to_ready_queue
  add-Fits =
      if_case Fits (leb max_tasks s.ready_count) (λ _. f)
        λ room. elim (Option-cases (task_at s.tasks h)) [
          | inl n ↦ rw (n, add_to_ready_queue) f
          | inr (t, e) ↦
              let at = or_else (find_index (outranks s.tasks t.priority) (queue s)) s.ready_count in
              let k = s.ready_count - at in
              rw (e, add_to_ready_queue)
                (record {
                  room =
                      length-set (shift_up k at s.ready_queue) at h
                      ∙ length-shift_up k at s.ready_queue
                      ∙ f.room;
                  count_in = ground arith;
                })
        ]

  pub remove-Fits : Fits (remove_from_ready_queue s h)
  unfolding remove_from_ready_queue
  remove-Fits = elim (Option-cases (find_index (λ x. x == h) (queue s))) [
    | inl n ↦ rw (n, remove_from_ready_queue) f
    | inr (i, e) ↦
        rw (e, remove_from_ready_queue)
          (record {
            room = length-shift_down (s.ready_count - 1 - i) i s.ready_queue ∙ f.room;
            count_in = omega (arith, f.count_in);
          })
  ]

-- What the queue operations promise of the queue as a list.
pub record QueueKept (s : SchedState) (h : ℕ) : Type 0 where
  pub adds :
      (t : TaskCb)
      → task_at s.tasks h ≡ some t
      → s.ready_count < max_tasks
      → queue (add_to_ready_queue s h) ≡ insert_before (outranks s.tasks t.priority) h (queue s)
  pub removes : queue (remove_from_ready_queue s h) ≡ erase h (queue s)

-- Where the queue array has its size and the count is in it: adding a task of the table, with the count below
-- the size, inserts its handle before the first queued one of lower priority and keeps the order of the
-- others, and removing a handle drops its first occurrence and keeps the others, or changes nothing.
pub queue_ops-QueueKept : (s : SchedState) (h : ℕ) → Fits s → QueueKept s h
queue_ops-QueueKept s h f = record { adds = queue-add s h f; removes = queue-remove s h f }

-- The queue operations change the queue alone.
pub tasks-add : (s : SchedState) (h : ℕ) → (add_to_ready_queue s h).tasks ≡ s.tasks
unfolding add_to_ready_queue
tasks-add s h = ground arith

pub tasks-remove : (s : SchedState) (h : ℕ) → (remove_from_ready_queue s h).tasks ≡ s.tasks
unfolding remove_from_ready_queue
tasks-remove s h = ground arith

pub current-add : (s : SchedState) (h : ℕ) → (add_to_ready_queue s h).current_task ≡ s.current_task
unfolding add_to_ready_queue
current-add s h = ground arith

pub current-remove :
    (s : SchedState) (h : ℕ) → (remove_from_ready_queue s h).current_task ≡ s.current_task
unfolding remove_from_ready_queue
current-remove s h = ground arith
