-- ===== src/Scheduler/Run.antt =====
-- `scheduler_init` and `scheduler_run` of src/resource/scheduler.c, on the invariant.
use akira_os.Prelude.{
  ℕ, ◌+◌, ◌%◌, ◌≡◌, refl, sym, subst, ◌∙◌, inl, inr, false, not, none, some, List, arith, if_case,
  Option-cases, option_case, pos, negsuc, get_elem?, lt_of_get_elem?, zero, suc, replicate, leb,
}
use akira_os.Scheduler.{
  TaskState, TaskCb, SchedState, task_at, add_to_ready_queue, select_next_task, no_task, boot,
  max_tasks, EnumAbi,
}
use akira_os.Scheduler.Api.{
  put_task, is_state, u32_mod, scheduler_init, Dispatch, idle, bad_handle, dispatch, go, settle,
  scheduler_run, enter,
}
use akira_os.Scheduler.Invariant.{
  IsValid, ready_at, is_ready, retire-IsValid, keep-IsValid, fill-IsValid, remove-put_task,
  task_at-set_self,
}
use akira_os.Scheduler.Steps.{AfterValid, with_current, Call, run_calls, run_calls-IsValid}

run_go : {h k : ℕ} {s s' : SchedState} → go k s ≡ go h s' → s ≡ s'
run_go q = cc

dispatch-IsValid :
    (abi : EnumAbi) (s : SchedState) (now h : ℕ) (s1 : SchedState)
    → IsValid s
    → dispatch abi s now ≡ go h s1
    → IsValid s1
unfolding dispatch
dispatch-IsValid abi s now h s1 v e =
    option_case (λ d. d ≡ go h s1 → IsValid s1) (select_next_task abi s)
      (λ n q. absurd (ground arith))
      (λ k k_eq.
        option_case (λ d. d ≡ go h s1 → IsValid s1) (task_at s.tasks k)
          (λ n q. absurd (ground arith))
          λ t t_eq q. subst IsValid (run_go q) (
            rw remove-put_task (
              retire-IsValid (record s { current_task = pos k }) k t
                (record t {
                  state = TaskState.running;
                  slice_count = (t.slice_count + 1) % u32_mod;
                  start_time = now;
                })
                t_eq (with_current s (pos k) v) (ground arith))))
      e

add-nobody : (s : SchedState) (h : ℕ) → task_at s.tasks h ≡ none → add_to_ready_queue s h ≡ s
unfolding add_to_ready_queue
add-nobody s h n =
    if_case (λ s'. s' ≡ s) (leb max_tasks s.ready_count) (λ _. refl)
      λ _. option_case (λ s'. s' ≡ s) (task_at s.tasks h) (λ _. refl) λ t e. absurd (ground arith)

-- The task that ran has been destroyed meanwhile.
settle_free :
    (s : SchedState) (h : ℕ) (now : ℕ)
    → task_at s.tasks h ≡ none
    → IsValid s
    → IsValid (settle s h now)
unfolding settle
settle_free s h now e v =
    let P : SchedState → Type 0 = λ s'. IsValid (record s' { current_task = negsuc 0 }) in
    option_case IsValid (get_elem? s.tasks h) (λ _. with_current s (negsuc 0) v)
      λ w w_eq.
        let free : w.in_use ≡ false = ground (arith, w_eq) in
        let filled : (w' : TaskCb) → w'.in_use ≡ false → IsValid (put_task s h w') =
          λ w' f. fill-IsValid s h w w' w_eq free (ground (arith, f)) v in
        if_case P (is_state w.state TaskState.running)
          (λ _. with_current _ (negsuc 0) (filled _ free))
          λ _.
            if_case P (is_state w.state TaskState.ready)
              (λ _.
                subst P
                  (sym (
                    add-nobody (put_task s h _) h (
                      task_at-set_self s.tasks h _ (lt_of_get_elem? s.tasks h w_eq)
                      ∙ ground (arith, free))))
                  (with_current _ (negsuc 0) (filled _ free)))
              λ _. with_current _ (negsuc 0) (filled _ free)

-- The task that ran is there, and is not ready.
settle_idle :
    (s : SchedState) (h : ℕ) (t : TaskCb) (now : ℕ)
    → task_at s.tasks h ≡ some t
    → IsValid s
    → ready_at s.tasks h ≡ false
    → IsValid (settle s h now)
unfolding settle
settle_idle s h t now e v r =
    let P : SchedState → Type 0 = λ s'. IsValid (record s' { current_task = negsuc 0 }) in
    option_case IsValid (get_elem? s.tasks h) (λ _. with_current s (negsuc 0) v)
      λ w w_eq.
        let there : task_at s.tasks h ≡ some w = ground (arith, e, w_eq) in
        let not_ready : is_ready w ≡ false = ground (arith, r, there) in
        if_case P (is_state w.state TaskState.running)
          (λ _. with_current _ (negsuc 0) (keep-IsValid s h w _ there v not_ready (ground arith)))
          λ _.
            if_case P (is_state w.state TaskState.ready) (λ q. absurd (ground (arith, q, r, there)))
              λ q.
                with_current _ (negsuc 0)
                  (keep-IsValid s h w _ there v not_ready (ground (arith, q)))

-- At its end `scheduler_run` keeps a valid state valid where the task that ran is not ready.
settle-IsValid :
    (s : SchedState) (h now : ℕ) → IsValid s → ready_at s.tasks h ≡ false → IsValid (settle s h now)
settle-IsValid s h now v r = elim (Option-cases (task_at s.tasks h)) [
  | inl n ↦ settle_free s h now n v
  | inr (t, e) ↦ settle_idle s h t now e v r
]

enter-IsValid :
    (calls : ℕ → ℕ → List Call) (s : SchedState) (h : ℕ)
    → IsValid s
    → IsValid (enter (λ e a s. run_calls s (calls e a)) s h)
unfolding enter
enter-IsValid calls s h v =
    option_case IsValid (get_elem? s.tasks h) (λ _. v)
      λ t _. option_case IsValid t.entry (λ _. v) λ e _. run_calls-IsValid (calls e t.arg) s v

dispatch_case :
    {B : Type 0} (P : B → Type 0) (d : Dispatch) {i b : B} {g : ℕ → SchedState → B}
    → P i
    → P b
    → ((h : ℕ) (s : SchedState) → d ≡ go h s → P (g h s))
    → P (elim d [ idle ↦ i | bad_handle ↦ b | go h s ↦ g h s ])
dispatch_case P idle i b f = i
dispatch_case P bad_handle i b f = b
dispatch_case P (go h s) i b f = f h s refl

nobody_ready : (n h : ℕ) → ready_at (replicate n no_task) h ≡ false
nobody_ready zero h = refl
nobody_ready (suc n) zero = refl
nobody_ready (suc n) (suc h) = nobody_ready n h

-- From `boot`, `scheduler_init` gives a valid state.
pub scheduler_init-IsValid : (now : ℕ) → IsValid (scheduler_init boot now).1
unfolding scheduler_init
scheduler_init-IsValid now = record {
  fits = record { room = refl; count_in = omega arith };
  slots = refl;
  counted = refl;
  once = λ h. ground (arith, nobody_ready max_tasks h);
  sorted = tt;
}

-- However the priorities are represented, where the code of the task that is dispatched makes a sequence of calls after which that task is not
-- ready, `scheduler_run` keeps a valid state valid: each ready task is queued once, in order of
-- priority, and nothing else is queued.
pub scheduler_run-IsValid :
    (abi : EnumAbi) (calls : ℕ → ℕ → List Call) (s : SchedState) (now later : ℕ)
    → IsValid s
    → ((h : ℕ) (s' : SchedState)
        → dispatch abi s now ≡ go h s'
        → ready_at (enter (λ e a s. run_calls s (calls e a)) s' h).tasks h ≡ false)
    → IsValid (scheduler_run (λ e a s. run_calls s (calls e a)) abi s now later).1
unfolding scheduler_run
scheduler_run-IsValid abi calls s now later v f =
    if_case AfterValid (not s.initialized) (λ _. v)
      λ _. dispatch_case AfterValid (dispatch abi s now) v v λ h s' e.
        settle-IsValid _ h later (enter-IsValid calls s' h (dispatch-IsValid abi s now h s' v e))
          (f h s' e)
