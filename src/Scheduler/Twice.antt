-- ===== src/Scheduler/Twice.antt =====
-- `scheduler_run` of src/resource/scheduler.c queues a task again that its own code has queued.
use akira_os.Prelude.{
  ℕ, ◌+◌, ◌-◌, ◌<◌, ◌%◌, ◌≡◌, ap, ◌∙◌, true, some, arith, option_case, if_case, get_elem?,
  lt_of_get_elem?,
}
use akira_os.Scheduler.{
  TaskState, TaskCb, SchedState, max_tasks, task_at, queue, outranks, add_to_ready_queue,
}
use akira_os.Scheduler.Api.{put_task, is_state, settle, u64_mod}
use akira_os.Scheduler.Order.{count, count-insert_before}
use akira_os.Scheduler.Queue.{Fits, queue-add}
use akira_os.Scheduler.Invariant.{IsValid, ready_at, task_at-set_self}

added_twice :
    (s : SchedState) (h : ℕ) (t : TaskCb)
    → Fits s
    → task_at s.tasks h ≡ some t
    → count h (queue s) ≡ 1
    → s.ready_count < max_tasks
    → count h (queue (add_to_ready_queue s h)) ≡ 2
added_twice s h t f e one room =
    ap (count h) (queue-add s h f t e room)
    ∙ count-insert_before (outranks s.tasks t.priority) h h (queue s)
    ∙ ground arith

-- From a valid state with room in the queue, in which the task that ran is ready again (it yielded,
-- or the tick preempted it) and so is queued once, the end of `scheduler_run` queues it a second time.
pub settle_twice :
    (s : SchedState) (h now : ℕ)
    → IsValid s
    → ready_at s.tasks h ≡ true
    → s.ready_count < max_tasks
    → count h (queue (settle s h now)) ≡ 2
unfolding settle
settle_twice s h now v r room =
    option_case (λ (s' : SchedState). count h (queue s') ≡ 2) (get_elem? s.tasks h)
      (λ n. absurd (ground (arith, n)))
      λ t e.
        let used : t.in_use ≡ true = ground (arith, e) in
        let is : is_state t.state TaskState.ready ≡ true = ground (arith, e) in
        let t' = record t {
          total_runtime = (t.total_runtime + (now + u64_mod - t.start_time)) % u64_mod;
        } in
        if_case (λ (s' : SchedState). count h (queue s') ≡ 2) (is_state t.state TaskState.running)
          (λ w. absurd (ground (arith, is)))
          λ _.
            if_case (λ (s' : SchedState). count h (queue s') ≡ 2) (is_state t.state TaskState.ready)
              (λ _.
                added_twice (put_task s h t') h t'
                  (record { room = v.fits.room; count_in = v.fits.count_in })
                  (task_at-set_self s.tasks h t' (lt_of_get_elem? s.tasks h e) ∙ ground arith)
                  (ground (arith, v.once h)) room)
              λ no_r. absurd (ground arith)
