-- ===== src/Process/Lost.antt =====
-- What src/akira/kernel/process.c loses: the slots of processes that came to their end, and the stack of
-- a process that is started twice.
use akira_os.Prelude.{
  ℕ, zero, suc, ◌<◌, ◌≡◌, refl, sym, ap, subst, ◌∙◌, Bool, true, false, not, ◌&&◌, ◌||◌, Option,
  none, some, List, [], ◌∷◌, arith, Ret, ok, err, Errno, if◌then◌else◌, if_case, option_case, ◌==◌,
  get_or, length, All, All-set, All-get, All-map, find_index, find_index-Found, find_index-set,
  length-set, get_or_of_get_elem?, get_or-set_self, lt_of_get_elem?,
}
use akira_os.Process.{
  create_thread, note_thread, in_state, zephyr_priority, ProcState, ProcOptions, Slot, ProcMgr,
  no_slot, is_native, has_pid, is_free, slot_at, put_slot, akira_process_create, is_startable,
  start_slot, akira_process_start, akira_process_stop, is_stoppable, find_slot_by_pid,
}
use akira_os.Process.Signals.{
  akira_process_suspend, akira_process_resume, akira_process_set_priority, reap,
  akira_process_cleanup, thread_begin, thread_end, is_running, is_suspended,
}
use akira_os.Process.Life.{
  Action, perform, Allowed, Reach, here, next, ProcValid, slot_at-SlotValid, perform-ProcValid,
  get_or-range, pending, begun, paused,
}

abbrev pub is_terminated : ProcState → Bool
is_terminated ProcState.terminated = true
is_terminated _ = false

-- A slot of a process that has come to its end.
abbrev pub is_over : Slot → Bool
is_over s = s.in_use && is_terminated s.proc.state

abbrev pub AllOver : ProcMgr → Type 0
AllOver m = All (λ s. is_over s ≡ true) m.slots

abbrev pub NoKill : Action → Type 0
NoKill (Action.kill pid code) = ⊥
NoKill _ = Unit {0}

found_over :
    (m : ProcMgr) (pid i : ℕ)
    → find_index (has_pid pid) m.slots ≡ some i
    → AllOver m
    → is_over (slot_at m i) ≡ true
found_over m pid i e a =
    let f = find_index-Found (has_pid pid) m.slots i e in
    let o = All-get (λ s. is_over s ≡ true) m.slots i a f.there in
    ap is_over (get_or_of_get_elem? m.slots i no_slot f.there) ∙ o

none_free : (xs : List Slot) → All (λ s. is_over s ≡ true) xs → find_index is_free xs ≡ none
none_free [] a = refl
none_free (s ∷ xs) a = ground (arith, none_free xs a.1)

create-over :
    (m : ProcMgr) (o : Option ProcOptions) (now : ℕ)
    → AllOver m
    → akira_process_create m o now ≡ (0, m)
unfolding akira_process_create
create-over m none now a = refl
create-over m (some o) now a = ground (arith, none_free m.slots a)

start-over :
    (m : ProcMgr) (pid : ℕ) (stack : Option ℕ) → AllOver m → (akira_process_start m pid stack).1 ≡ m
unfolding akira_process_start
start-over m pid stack a =
    let P : Ret × ProcMgr → Type 0 = λ r. r.1 ≡ m in
    if_case P (not m.initialized || pid == 0) (λ _. refl)
      λ _.
        option_case P (find_index (has_pid pid) m.slots) (λ _. refl)
          λ i e.
            let o = found_over m pid i e a in
            if_case P (not (is_startable (slot_at m i).proc.state)) (λ _. refl)
              λ st. absurd (ground arith)

stop-over : (m : ProcMgr) (pid : ℕ) → AllOver m → (akira_process_stop m pid).1 ≡ m
unfolding akira_process_stop
stop-over m pid a =
    let P : Ret × ProcMgr → Type 0 = λ r. r.1 ≡ m in
    if_case P (not m.initialized || pid == 0) (λ _. refl)
      λ _.
        option_case P (find_index (has_pid pid) m.slots) (λ _. refl)
          λ i e.
            let o = found_over m pid i e a in
            if_case P (not (is_stoppable (slot_at m i).proc.state)) (λ _. refl)
              λ st. absurd (ground arith)

suspend-over : (m : ProcMgr) (pid : ℕ) → AllOver m → (akira_process_suspend m pid).1 ≡ m
unfolding akira_process_suspend
suspend-over m pid a =
    let P : Ret × ProcMgr → Type 0 = λ r. r.1 ≡ m in
    if_case P (not m.initialized || pid == 0) (λ _. refl)
      λ _.
        option_case P (find_index (has_pid pid) m.slots) (λ _. refl)
          λ i e.
            let o = found_over m pid i e a in
            if_case P (not (is_running (slot_at m i).proc.state)) (λ _. refl)
              λ st. absurd (ground arith)

resume-over : (m : ProcMgr) (pid : ℕ) → AllOver m → (akira_process_resume m pid).1 ≡ m
unfolding akira_process_resume
resume-over m pid a =
    let P : Ret × ProcMgr → Type 0 = λ r. r.1 ≡ m in
    if_case P (not m.initialized || pid == 0) (λ _. refl)
      λ _.
        option_case P (find_index (has_pid pid) m.slots) (λ _. refl)
          λ i e.
            let o = found_over m pid i e a in
            if_case P (not (is_suspended (slot_at m i).proc.state)) (λ _. refl)
              λ st. absurd (ground arith)

slot_at-over :
    (m : ProcMgr) (i : ℕ) (p : Slot → Bool)
    → p no_slot ≡ false
    → p (slot_at m i) ≡ true
    → AllOver m
    → is_over (slot_at m i) ≡ true
slot_at-over m i p n e a = over m.slots i (get_or-range p m.slots i n e) a
  where
    over :
        (xs : List Slot) (i : ℕ)
        → i < length xs
        → All (λ s. is_over s ≡ true) xs
        → is_over (get_or xs i no_slot) ≡ true
    over [] i lt a = absurd (omega arith)
    over (x ∷ xs) zero lt a = a.0
    over (x ∷ xs) (suc i) lt a = over xs i (omega arith) a.1

perform-AllOver :
    (m : ProcMgr) (a : Action)
    → NoKill a
    → Allowed m a
    → ProcValid m
    → AllOver m
    → AllOver (perform m a)
unfolding akira_process_set_priority akira_process_cleanup thread_begin thread_end
perform-AllOver m (Action.create o now) k w v a =
    subst AllOver (sym (ap (λ (r : ℕ × ProcMgr). r.1) (create-over m o now a))) a
perform-AllOver m (Action.start pid stack) k w v a =
    subst AllOver (sym (start-over m pid stack a)) a
perform-AllOver m (Action.stop pid) k w v a = subst AllOver (sym (stop-over m pid a)) a
perform-AllOver m (Action.suspend pid) k w v a = subst AllOver (sym (suspend-over m pid a)) a
perform-AllOver m (Action.resume pid) k w v a = subst AllOver (sym (resume-over m pid a)) a
perform-AllOver m (Action.kill pid code) k w v a = absurd k
perform-AllOver m (Action.set_priority pid p) k w v a =
    option_case (λ (r : Ret × ProcMgr). AllOver r.1) (find_index (has_pid pid) m.slots) (λ _. a)
      λ i e.
        let o = found_over m pid i e a in
        All-set (λ s. is_over s ≡ true) m.slots i _ a (ground arith)
perform-AllOver m Action.cleanup k w v a =
    All-map (λ s. is_over s ≡ true) reap m.slots (λ s o. ground arith) a
perform-AllOver m (Action.thread_begins i now) k w v a =
    let o = slot_at-over m i (λ s. pending s.thread) refl w a in
    let sv = slot_at-SlotValid m i v in absurd (ground (arith, sv.pending_ready w))
perform-AllOver m (Action.thread_ends i) k w v a =
    let o = slot_at-over m i (λ s. begun s.thread && not (paused s.thread)) refl w a in
    let sv = slot_at-SlotValid m i v in absurd (ground (arith, sv.begun_running w))

Reach-AllOver :
    {m m' : ProcMgr} → Reach NoKill m m' → ProcValid m → AllOver m → ProcValid m' × AllOver m'
Reach-AllOver here v a = (v, a)
Reach-AllOver (next r x k w) v a =
    let ih = Reach-AllOver r v a in
    (perform-ProcValid _ x w ih.0, perform-AllOver _ x k w ih.0 ih.1)

-- The defect: once the processes of all slots have come to their end or been stopped, no call but a kill
-- frees a slot, cleaning up included: whatever else happens, no process can be created any more.
pub create_exhausted :
    {m m' : ProcMgr} (o : Option ProcOptions) (now : ℕ)
    → ProcValid m
    → AllOver m
    → Reach NoKill m m'
    → akira_process_create m' o now ≡ (0, m')
create_exhausted {m} {m'} o now v a r = create-over m' o now (Reach-AllOver r v a).1

-- A native process that is started: READY, with a stack and a thread that is created.
abbrev restarted : Slot → ℕ → Slot
restarted s k =
    note_thread (create_thread k (zephyr_priority s.proc.priority))
      (record (in_state s ProcState.ready) { stack = some k })

started :
    (m : ProcMgr) (pid i k : ℕ)
    → m.initialized ≡ true
    → 0 < pid
    → find_slot_by_pid m pid ≡ some i
    → is_startable (slot_at m i).proc.state ≡ true
    → is_native (slot_at m i).proc.type ≡ true
    → akira_process_start m pid (some k) ≡ (ok 0, put_slot m i (restarted (slot_at m i) k))
unfolding akira_process_start start_slot find_slot_by_pid
started m pid i k on some_pid e st n =
    let P : Ret × ProcMgr → Type 0 = λ r. r ≡ (ok 0, put_slot m i (restarted (slot_at m i) k)) in
    if_case P (not m.initialized || pid == 0) (λ off. absurd (ground arith))
      λ _.
        option_case P (find_index (has_pid pid) m.slots)
          (λ none_eq. absurd (ground (arith, none_eq, e)))
          λ j j_eq.
            let Q : ℕ → Type 0 = λ j. P (
              if not (is_startable (slot_at m j).proc.state)
              then (err Errno.failed, m)
              else start_slot m j (some k)) in
            subst Q {x = i} {y = j} (ground (arith, j_eq, e)) (
              if_case P (not (is_startable (slot_at m i).proc.state))
                (λ no. absurd (ground (arith, no, st))) λ _. rw n refl)

-- The defect: a native process that is started again before its thread has begun gets a second stack;
-- the first one is then neither its own nor given back.
pub start_twice_leaks :
    (m : ProcMgr) (pid i k l : ℕ)
    → m.initialized ≡ true
    → 0 < pid
    → find_slot_by_pid m pid ≡ some i
    → is_startable (slot_at m i).proc.state ≡ true
    → is_native (slot_at m i).proc.type ≡ true
    → let (r, m1) = akira_process_start m pid (some k) in
      let (r', m2) = akira_process_start m1 pid (some l) in
      (r ≡ ok 0)
      × (r' ≡ ok 0)
      × ((slot_at m1 i).stack ≡ some k)
      × ((slot_at m2 i).stack ≡ some l)
      × (m2.freed ≡ m.freed)
unfolding find_slot_by_pid
start_twice_leaks m pid i k l on some_pid e st n =
    let f = find_index-Found (has_pid pid) m.slots i e in
    let lt = lt_of_get_elem? m.slots i f.there in
    let m1 = put_slot m i (restarted (slot_at m i) k) in
    let there = get_or-set_self m.slots i (restarted (slot_at m i) k) no_slot lt in
    let there_too =
      get_or-set_self m1.slots i (restarted (slot_at m1 i) l) no_slot
        (omega (arith, length-set m.slots i (restarted (slot_at m i) k))) in
    let same = get_or_of_get_elem? m.slots i no_slot f.there in
    let e1 : find_slot_by_pid m1 pid ≡ some i =
      find_index-set (has_pid pid) m.slots i f.entry (restarted (slot_at m i) k) f.there
        (ap (has_pid pid) same)
      ∙ e in
    let first = started m pid i k on some_pid e st n in
    let second =
      started m1 pid i l on some_pid e1 (ap (λ (s : Slot). is_startable s.proc.state) there)
        (ap (λ (s : Slot). is_native s.proc.type) there ∙ n) in
    let R : Ret × ProcMgr → Type 0 = λ r.
      let (a, m1) = r in
      let (b, m2) = akira_process_start m1 pid (some l) in
      (a ≡ ok 0)
      × (b ≡ ok 0)
      × ((slot_at m1 i).stack ≡ some k)
      × ((slot_at m2 i).stack ≡ some l)
      × (m2.freed ≡ m.freed) in
    let R' : Ret × ProcMgr → Type 0 = λ r.
      let (b, m2) = r in
      (ok 0 ≡ ok 0)
      × (b ≡ ok 0)
      × ((slot_at m1 i).stack ≡ some k)
      × ((slot_at m2 i).stack ≡ some l)
      × (m2.freed ≡ m.freed) in
    subst R (sym first) (
      subst R' (sym second)
        (refl, refl, ap (λ (s : Slot). s.stack) there, ap (λ (s : Slot). s.stack) there_too, refl))
