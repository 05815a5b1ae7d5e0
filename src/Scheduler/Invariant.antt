-- ===== src/Scheduler/Invariant.antt =====
-- The invariant of src/resource/scheduler.c: the ready queue holds each ready task once and nothing
-- else, in order of priority.
use akira_os.Prelude.{
  ℕ, ◌+◌, ◌≤◌, ◌<◌, ◌≡◌, ◌≢◌, sym, ap, subst, ◌∙◌, inl, inr, Bool, true, false, ◌&&◌, Option, none,
  some, List, arith, ◌==◌, if◌then◌else◌, Bool-cases, Option-cases, length, get_elem?, set,
  count_if, count_if-set, count_if-le-length, length-set, get_elem?-set_self, get_elem?-set_ne,
  lt_of_get_elem?, find_index,
}
use akira_os.Scheduler.{
  TaskState, TaskCb, SchedState, max_tasks, in_use?, task_at, queue, outranks, add_to_ready_queue,
  remove_from_ready_queue,
}
use akira_os.Scheduler.Api.{put_task, is_state, requeue}
use akira_os.Scheduler.Order.{
  count, IsSorted, count-insert_before, count-erase, length-erase, erase-IsSorted,
  insert_before-IsSorted, IsSorted-cong, length-insert_before, All-of_count, All-ne, All-mono,
}
use akira_os.Scheduler.Queue.{
  Fits, length-queue, queue-add, queue-remove, add-Fits, remove-Fits, tasks-add, tasks-remove,
}

-- Whether the handle names a ready task, and its priority.
abbrev pub ready_at : List TaskCb → ℕ → Bool
ready_at tasks h = elim (task_at tasks h) [
  | none ↦ false
  | some t ↦ is_state t.state TaskState.ready
]

abbrev pub priority_at : List TaskCb → ℕ → ℕ
priority_at tasks h = elim (task_at tasks h) [ none ↦ 0 | some t ↦ t.priority ]

abbrev pub is_ready : TaskCb → Bool
is_ready t = t.in_use && is_state t.state TaskState.ready

pub record IsValid (s : SchedState) : Type 0 where
  pub fits : Fits s
  pub slots : length s.tasks ≡ max_tasks
  pub counted : s.ready_count ≡ count_if is_ready s.tasks
  pub once : (h : ℕ) → count h (queue s) ≡ (if ready_at s.tasks h then 1 else 0)
  pub sorted : IsSorted (priority_at s.tasks) (queue s)

-- What remains of the invariant while the task `h` is being moved: it is not in the queue, and the
-- rest is in order.
record Without (h : ℕ) (s : SchedState) : Type 0 where
  fits : Fits s
  slots : length s.tasks ≡ max_tasks
  counted : s.ready_count + (if ready_at s.tasks h then 1 else 0) ≡ count_if is_ready s.tasks
  absent : count h (queue s) ≡ 0
  once : (g : ℕ) → g ≢ h → count g (queue s) ≡ (if ready_at s.tasks g then 1 else 0)
  sorted : IsSorted (priority_at s.tasks) (queue s)

remove-Without : (s : SchedState) (h : ℕ) → IsValid s → Without h (remove_from_ready_queue s h)
remove-Without s h v =
    let q' = queue-remove s h v.fits in
    let ts = tasks-remove s h in
    let s' = remove_from_ready_queue s h in
    let fits' = remove-Fits s h v.fits in
    record {
      fits = fits';
      slots = ap length ts ∙ v.slots;
      counted = rw ts (
          ground (
            arith,
            length-queue s' h fits',
            length-queue s h v.fits,
            ap length q',
            length-erase h (queue s),
            v.once h,
          ));
      absent = ap (count h) q' ∙ ground (arith, count-erase h h (queue s), v.once h);
      once = λ g ne.
          ap (count g) q'
          ∙ ground (arith, count-erase h g (queue s), v.once g)
          ∙ ap (λ xs. if ready_at xs g then 1 else 0) (sym ts);
      sorted = rw (q', ts) (erase-IsSorted (priority_at s.tasks) h (queue s) v.sorted);
    }

-- A task that is not ready is not in the queue.
idle-Without : (s : SchedState) (h : ℕ) → ready_at s.tasks h ≡ false → IsValid s → Without h s
idle-Without s h e v = record {
  fits = v.fits;
  slots = v.slots;
  counted = ground (arith, v.counted);
  absent = ground (arith, v.once h);
  once = λ g ne. v.once g;
  sorted = v.sorted;
}

Without-idle : (s : SchedState) (h : ℕ) → ready_at s.tasks h ≡ false → Without h s → IsValid s
Without-idle s h e w = record {
  fits = w.fits;
  slots = w.slots;
  counted = ground (arith, w.counted);
  once = λ g. elim (Bool-cases (g == h)) [
    | inl same ↦
        subst (λ x. count x (queue s) ≡ (if ready_at s.tasks x then 1 else 0)) {x = h} {y = g}
          (ground arith) (ground (arith, w.absent))
    | inr other ↦ w.once g (ground arith)
  ];
  sorted = w.sorted;
}

ready_at-set_ne :
    (xs : List TaskCb) (h g : ℕ) (t : TaskCb) → g ≢ h → task_at (set xs h t) g ≡ task_at xs g
ready_at-set_ne xs h g t ne = ap in_use? (get_elem?-set_ne xs h g t (λ e. ne (sym e)))

pub task_at-set_self :
    (xs : List TaskCb) (h : ℕ) (t : TaskCb)
    → h < length xs
    → task_at (set xs h t) h ≡ in_use? (some t)
task_at-set_self xs h t lt = ap in_use? (get_elem?-set_self xs h t lt)

pub task_at-inv :
    (xs : List TaskCb) (h : ℕ) {t : TaskCb}
    → task_at xs h ≡ some t
    → (get_elem? xs h ≡ some t) × (t.in_use ≡ true)
task_at-inv xs h e = (ground arith, ground arith)

-- The entry of a task that is not in the queue may be rewritten.
put_task-Without :
    (s : SchedState) (h : ℕ) (t t' : TaskCb)
    → get_elem? s.tasks h ≡ some t
    → Without h s
    → Without h (put_task s h t')
put_task-Without s h t t' e w = record {
  fits = record { room = w.fits.room; count_in = w.fits.count_in };
  slots = length-set s.tasks h t' ∙ w.slots;
  counted = ground (
    arith,
    w.counted,
    lt_of_get_elem? s.tasks h e,
    get_elem?-set_self s.tasks h t',
    count_if-set is_ready s.tasks h t t' e,
  );
  absent = w.absent;
  once = λ g ne.
      w.once g ne
      ∙ ap
          (λ (o : Option TaskCb).
            if (elim o [ none ↦ false | some x ↦ is_state x.state TaskState.ready ]) then 1 else 0)
          (sym (ready_at-set_ne s.tasks h g t' ne));
  sorted =
      IsSorted-cong (priority_at s.tasks) (priority_at (set s.tasks h t')) (queue s)
        (All-mono (λ g. g ≢ h) (λ g. priority_at s.tasks g ≡ priority_at (set s.tasks h t') g)
          (queue s)
          (λ g ne.
            ap (λ (o : Option TaskCb). elim o [ none ↦ 0 | some x ↦ x.priority ])
              (sym (ready_at-set_ne s.tasks h g t' ne)))
          (All-ne h (queue s) w.absent))
        w.sorted;
}

added_once :
    (s : SchedState) (h g : ℕ) (t : TaskCb)
    → task_at s.tasks h ≡ some t
    → is_state t.state TaskState.ready ≡ true
    → Without h s
    → (if h == g then 1 else 0) + count g (queue s) ≡ (if ready_at s.tasks g then 1 else 0)
added_once s h g t e r w = elim (Bool-cases (h == g)) [
  | inl same ↦
      subst
        (λ x. (if h == x then 1 else 0) + count x (queue s) ≡ (if ready_at s.tasks x then 1 else 0))
        {x = h} {y = g} (ground arith) (ground (arith, w.absent))
  | inr other ↦ ground (arith, w.once g (λ q. ground arith))
]

-- An entry of the queue that a task does not outrank has at least the task's priority.
queued_lower :
    (s : SchedState) (h : ℕ) (t : TaskCb)
    → task_at s.tasks h ≡ some t
    → Without h s
    → (x : ℕ) → 0 < count x (queue s)
    → outranks s.tasks t.priority x ≡ false
    → priority_at s.tasks h ≤ priority_at s.tasks x
queued_lower s h t e w x lt o = elim (Bool-cases (x == h)) [
  | inl same ↦
      subst (λ y. priority_at s.tasks h ≤ priority_at s.tasks y) {x = h} {y = x} (ground arith)
        (omega arith)
  | inr other ↦ ground (arith, e, w.once x (λ q. ground arith))
]

-- A ready task that is not in the queue may be added.
add-IsValid :
    (s : SchedState) (h : ℕ) (t : TaskCb)
    → task_at s.tasks h ≡ some t
    → is_state t.state TaskState.ready ≡ true
    → Without h s
    → IsValid (add_to_ready_queue s h)
add-IsValid s h t e r w =
    let room : s.ready_count < max_tasks =
      ground (arith, w.counted, w.slots, count_if-le-length is_ready s.tasks) in
    let p = outranks s.tasks t.priority in
    let q' = queue-add s h w.fits t e room in
    let ts = tasks-add s h in
    let s' = add_to_ready_queue s h in
    let fits' = add-Fits s h w.fits in
    record {
      fits = fits';
      slots = ap length ts ∙ w.slots;
      counted = rw ts (
          ground (
            arith,
            w.counted,
            length-queue s' h fits',
            length-queue s h w.fits,
            ap length q',
            length-insert_before p h (queue s),
          ));
      once = λ g.
          ap (count g) q'
          ∙ count-insert_before p h g (queue s)
          ∙ added_once s h g t e r w
          ∙ ap (λ xs. if ready_at xs g then 1 else 0) (sym ts);
      sorted =
          rw (q', ts)
            (insert_before-IsSorted (priority_at s.tasks) p h (queue s) (λ x o. ground (arith, e))
              (All-of_count (λ x. p x ≡ false → priority_at s.tasks h ≤ priority_at s.tasks x)
                (queue s) (queued_lower s h t e w))
              w.sorted);
    }

pub remove-put_task :
    (s : SchedState) (h : ℕ) (t : TaskCb)
    → remove_from_ready_queue (put_task s h t) h ≡ put_task (remove_from_ready_queue s h) h t
unfolding remove_from_ready_queue
remove-put_task s h t = elim (Option-cases (find_index (λ x. x == h) (queue s))) [
  | inl n ↦ rw (n, remove_from_ready_queue)
  | inr (i, e) ↦ rw (e, remove_from_ready_queue)
]

module _ (s : SchedState) (h : ℕ) (t t' : TaskCb) (e : task_at s.tasks h ≡ some t)
    (v : IsValid s) where
  taken : Without h (put_task (remove_from_ready_queue s h) h t')
  taken =
      put_task-Without (remove_from_ready_queue s h) h t t'
        (ap (λ xs. get_elem? xs h) (tasks-remove s h) ∙ (task_at-inv s.tasks h e).0)
        (remove-Without s h v)

  there' : t'.in_use ≡ true → task_at (set s.tasks h t') h ≡ some t'
  there' u =
      task_at-set_self s.tasks h t' (lt_of_get_elem? s.tasks h (task_at-inv s.tasks h e).0)
      ∙ ground arith

  was_idle : is_ready t ≡ false → ready_at s.tasks h ≡ false
  was_idle o = ground (arith, e, task_at-inv s.tasks h e)

  now_idle : is_ready t' ≡ false → ready_at (set s.tasks h t') h ≡ false
  now_idle r =
      ground (
        arith,
        task_at-set_self s.tasks h t' (lt_of_get_elem? s.tasks h (task_at-inv s.tasks h e).0),
      )

  -- Rewriting a task's entry and queueing it afresh, as a ready task.
  pub requeue-IsValid :
      t'.in_use ≡ true
      → is_state t'.state TaskState.ready ≡ true
      → IsValid (requeue (put_task s h t') h)
  unfolding requeue
  requeue-IsValid u r = rw remove-put_task (
      add-IsValid (put_task (remove_from_ready_queue s h) h t') h t'
        (ap (λ xs. task_at (set xs h t') h) (tasks-remove s h) ∙ there' u) r taken)

  -- Rewriting a task's entry so that it is not ready, and taking it out of the queue.
  pub retire-IsValid : is_ready t' ≡ false → IsValid (put_task (remove_from_ready_queue s h) h t')
  retire-IsValid r =
      Without-idle (put_task (remove_from_ready_queue s h) h t') h
        (ap (λ xs. ready_at (set xs h t') h) (tasks-remove s h) ∙ now_idle r) taken

  -- Rewriting a task's entry where neither the old nor the new one is ready.
  pub keep-IsValid : is_ready t ≡ false → is_ready t' ≡ false → IsValid (put_task s h t')
  keep-IsValid o r =
      Without-idle (put_task s h t') h (now_idle r)
        (put_task-Without s h t t' (task_at-inv s.tasks h e).0 (idle-Without s h (was_idle o) v))

  -- Making a task ready that was not.
  pub ready-IsValid :
      is_ready t ≡ false
      → t'.in_use ≡ true
      → is_state t'.state TaskState.ready ≡ true
      → IsValid (add_to_ready_queue (put_task s h t') h)
  ready-IsValid o u r =
      add-IsValid (put_task s h t') h t' (there' u) r
        (put_task-Without s h t t' (task_at-inv s.tasks h e).0 (idle-Without s h (was_idle o) v))

-- Writing an entry that is not ready into a free slot.
pub fill-IsValid :
    (s : SchedState) (h : ℕ) (t t' : TaskCb)
    → get_elem? s.tasks h ≡ some t
    → t.in_use ≡ false
    → is_ready t' ≡ false
    → IsValid s
    → IsValid (put_task s h t')
fill-IsValid s h t t' e f r v =
    Without-idle (put_task s h t') h
      (ground (arith, task_at-set_self s.tasks h t' (lt_of_get_elem? s.tasks h e)))
      (put_task-Without s h t t' e (idle-Without s h (ground (arith, e)) v))
