-- ===== src/Process/Life.antt =====
-- The life of a process in src/akira/kernel/process.c: its state says what its thread may do.
use akira_os.Prelude.{
  ℕ, zero, suc, ◌+◌, ◌<◌, ◌≡◌, refl, ap, ◌∙◌, Bool, true, false, not, ◌&&◌, ◌||◌, Option, none,
  some, List, [], ◌∷◌, arith, Ret, if_case, option_case, ◌==◌, get_or, map, length, All, All-set,
  All-get_or, All-map, All-replicate, count_if, count_if-set_or, find_index, find_index-Found,
  lt_of_get_elem?, length-set, length-map, get_or_of_get_elem?,
}
use akira_os.Process.{
  ProcState, ProcOptions, ProcPriority, ThreadEvent, create_thread, abort_thread, suspend_thread,
  resume_thread, begins, ends, set_thread_priority, reset, Slot, ProcMgr, no_slot, boot,
  max_processes, is_native, has_pid, is_free, slot_at, put_slot, in_state, give_exit,
  akira_process_manager_init, new_proc, akira_process_create, is_startable, start_slot,
  akira_process_start, end_thread, is_stoppable, akira_process_stop,
}
use akira_os.Process.Signals.{
  is_running, is_suspended, akira_process_suspend, akira_process_resume, akira_process_kill,
  akira_process_set_priority, is_zombie, reap, akira_process_cleanup, thread_begin, thread_end,
}

-- A thread was created, and has not begun yet nor been aborted.
abbrev pub pending : List ThreadEvent → Bool
pending [] = false
pending (create_thread k p ∷ es) = true
pending (abort_thread ∷ es) = false
pending (begins ∷ es) = false
pending (ends ∷ es) = false
pending (suspend_thread ∷ es) = pending es
pending (resume_thread ∷ es) = pending es
pending (set_thread_priority p ∷ es) = pending es

-- The thread has begun, and neither come to its end nor been aborted.
abbrev pub begun : List ThreadEvent → Bool
begun [] = false
begun (create_thread k p ∷ es) = false
begun (abort_thread ∷ es) = false
begun (begins ∷ es) = true
begun (ends ∷ es) = false
begun (suspend_thread ∷ es) = begun es
begun (resume_thread ∷ es) = begun es
begun (set_thread_priority p ∷ es) = begun es

-- It was suspended last.
abbrev pub paused : List ThreadEvent → Bool
paused [] = false
paused (create_thread k p ∷ es) = false
paused (abort_thread ∷ es) = false
paused (begins ∷ es) = false
paused (ends ∷ es) = false
paused (suspend_thread ∷ es) = true
paused (resume_thread ∷ es) = false
paused (set_thread_priority p ∷ es) = paused es

abbrev pub is_ready : ProcState → Bool
is_ready ProcState.ready = true
is_ready _ = false

-- A thread that has not begun belongs to a READY process, one that runs to a RUNNING one, and one that
-- is suspended to a SUSPENDED one; and only native processes in use have threads.
pub record SlotValid (s : Slot) : Type 0 where
  pub pending_ready : pending s.thread ≡ true → is_ready s.proc.state ≡ true
  pub begun_running :
      begun s.thread && not (paused s.thread) ≡ true → is_running s.proc.state ≡ true
  pub begun_suspended : begun s.thread && paused s.thread ≡ true → is_suspended s.proc.state ≡ true
  pub threaded :
      pending s.thread || begun s.thread ≡ true → is_native s.proc.type && s.in_use ≡ true

abbrev pub uses : Slot → Bool
uses s = s.in_use

pub record ProcValid (m : ProcMgr) : Type 0 where
  pub room : length m.slots ≡ max_processes
  pub counted : m.process_count ≡ count_if uses m.slots
  pub threads : All SlotValid m.slots

-- What can happen: a call of the interface, with what the kernel answers, or a thread that begins to
-- run or comes back from the process's own code.
pub data Action : Type 0 where
  create : Option ProcOptions → ℕ → Action
  start : ℕ → Option ℕ → Action
  stop suspend resume : ℕ → Action
  kill : ℕ → ℕ → Action
  set_priority : ℕ → ProcPriority → Action
  cleanup : Action
  thread_begins : ℕ → ℕ → Action
  thread_ends : ℕ → Action

abbrev pub perform : ProcMgr → Action → ProcMgr
perform m (create o now) = (akira_process_create m o now).1
perform m (start pid stack) = (akira_process_start m pid stack).1
perform m (stop pid) = (akira_process_stop m pid).1
perform m (suspend pid) = (akira_process_suspend m pid).1
perform m (resume pid) = (akira_process_resume m pid).1
perform m (kill pid code) = (akira_process_kill m pid code).1
perform m (set_priority pid p) = (akira_process_set_priority m pid p).1
perform m cleanup = (akira_process_cleanup m).1
perform m (thread_begins i now) = thread_begin m i now
perform m (thread_ends i) = thread_end m i

-- What the kernel's threads do: a thread begins once it is created, and comes to its end only while it
-- runs.
abbrev pub Allowed : ProcMgr → Action → Type 0
Allowed m (thread_begins i now) = pending (slot_at m i).thread ≡ true
Allowed m (thread_ends i) = begun (slot_at m i).thread && not (paused (slot_at m i).thread) ≡ true
Allowed m _ = Unit {0}

-- The states that actions lead to, of those that `P` admits.
pub data Reach (P : Action → Type 0) (m : ProcMgr) : ProcMgr → Type 0 where
  here : Reach P m m
  next : {t : ProcMgr} → Reach P m t → (a : Action) → P a → Allowed t a → Reach P m (perform t a)

no_slot-SlotValid : SlotValid no_slot
no_slot-SlotValid = ground arith

pub slot_at-SlotValid : (m : ProcMgr) (i : ℕ) → ProcValid m → SlotValid (slot_at m i)
slot_at-SlotValid m i v = All-get_or SlotValid m.slots i no_slot no_slot-SlotValid v.threads

-- A slot that stays in use or free may be rewritten to a valid one.
put_slot-ProcValid :
    (m : ProcMgr) (i : ℕ) (s : Slot)
    → i < length m.slots
    → s.in_use ≡ (slot_at m i).in_use
    → SlotValid s
    → ProcValid m
    → ProcValid (put_slot m i s)
put_slot-ProcValid m i s lt same sv v = record {
  room = length-set m.slots i s ∙ v.room;
  counted = ground (arith, count_if-set_or uses m.slots i no_slot s lt);
  threads = All-set SlotValid m.slots i s v.threads sv;
}

found_lt :
    (m : ProcMgr) (pid i : ℕ) → find_index (has_pid pid) m.slots ≡ some i → i < length m.slots
found_lt m pid i e = lt_of_get_elem? m.slots i (find_index-Found (has_pid pid) m.slots i e).there

found_used :
    (m : ProcMgr) (pid i : ℕ)
    → find_index (has_pid pid) m.slots ≡ some i
    → (slot_at m i).in_use ≡ true
found_used m pid i e =
    let f = find_index-Found (has_pid pid) m.slots i e in
    ap (λ (s : Slot). s.in_use) (get_or_of_get_elem? m.slots i no_slot f.there)
    ∙ ground (arith, f.passes)

pub get_or-range :
    (p : Slot → Bool) (xs : List Slot) (i : ℕ)
    → p no_slot ≡ false
    → p (get_or xs i no_slot) ≡ true
    → i < length xs
get_or-range p [] i n e = absurd (ground arith)
get_or-range p (x ∷ xs) zero n e = omega arith
get_or-range p (x ∷ xs) (suc i) n e = omega (arith, get_or-range p xs i n e)

abbrev AfterValid : Ret × ProcMgr → Type 0
AfterValid r = ProcValid r.1

with_freed : (m : ProcMgr) (f : List ℕ) → ProcValid m → ProcValid (record m { freed = f })
with_freed m f v = record { room = v.room; counted = v.counted; threads = v.threads }

-- A process whose thread neither waits nor runs may be in any state.
over-SlotValid : (s : Slot) → pending s.thread ≡ false → begun s.thread ≡ false → SlotValid s
over-SlotValid s p b = ground arith

-- After `end_thread` the thread is over.
end_thread-over :
    (s : Slot)
    → (pending s.thread || begun s.thread ≡ true → is_native s.proc.type && s.in_use ≡ true)
    → (pending (end_thread s).0.thread ≡ false) × (begun (end_thread s).0.thread ≡ false)
unfolding end_thread
end_thread-over s t = ground arith

end_thread-in_use : (s : Slot) → (end_thread s).0.in_use ≡ s.in_use
unfolding end_thread
end_thread-in_use s = ground arith

create-ProcValid :
    (m : ProcMgr) (o : Option ProcOptions) (now : ℕ)
    → ProcValid m
    → ProcValid (akira_process_create m o now).1
unfolding akira_process_create new_proc
create-ProcValid m none now v = v
create-ProcValid m (some o) now v =
    let P : ℕ × ProcMgr → Type 0 = λ r. ProcValid r.1 in
    if_case P (not m.initialized) (λ _. v)
      λ _.
        option_case P (find_index is_free m.slots) (λ _. v)
          λ i e.
            let f = find_index-Found is_free m.slots i e in
            let lt = lt_of_get_elem? m.slots i f.there in
            let same =
              ap (λ (s : Slot). s.in_use) (get_or_of_get_elem? m.slots i no_slot f.there) in
            let sv = slot_at-SlotValid m i v in
            let s : Slot = record (slot_at m i) {
              proc = new_proc o m.next_pid now;
              in_use = true;
              exit_sem = reset ∷ (slot_at m i).exit_sem;
            } in
            record {
              room = length-set m.slots i s ∙ v.room;
              counted = ground (arith, f.passes, count_if-set_or uses m.slots i no_slot s lt);
              threads =
                  All-set SlotValid m.slots i s v.threads
                    (over-SlotValid s (ground (arith, f.passes)) (ground (arith, f.passes)));
            }

start-ProcValid :
    (m : ProcMgr) (pid : ℕ) (stack : Option ℕ)
    → ProcValid m
    → ProcValid (akira_process_start m pid stack).1
unfolding akira_process_start start_slot
start-ProcValid m pid stack v =
    if_case AfterValid (not m.initialized || pid == 0) (λ _. v)
      λ _.
        option_case AfterValid (find_index (has_pid pid) m.slots) (λ _. v)
          λ i e.
            let lt = found_lt m pid i e in
            let sv = slot_at-SlotValid m i v in
            let used = found_used m pid i e in
            let s = slot_at m i in
            if_case AfterValid (not (is_startable s.proc.state)) (λ _. v)
              λ st.
                if_case AfterValid (is_native s.proc.type)
                  (λ n.
                    option_case AfterValid stack
                      (λ _. put_slot-ProcValid m i _ lt refl (ground arith) v)
                      (λ k _. put_slot-ProcValid m i _ lt refl (ground arith) v))
                  (λ n. put_slot-ProcValid m i _ lt refl (ground arith) v)

stop-ProcValid : (m : ProcMgr) (pid : ℕ) → ProcValid m → ProcValid (akira_process_stop m pid).1
unfolding akira_process_stop
stop-ProcValid m pid v =
    if_case AfterValid (not m.initialized || pid == 0) (λ _. v)
      λ _.
        option_case AfterValid (find_index (has_pid pid) m.slots) (λ _. v)
          λ i e.
            let s = in_state (slot_at m i) ProcState.terminated in
            if_case AfterValid (not (is_stoppable (slot_at m i).proc.state)) (λ _. v)
              λ st.
                let over = end_thread-over s (slot_at-SlotValid m i v).threaded in
                with_freed _ _ (
                  put_slot-ProcValid m i (give_exit (end_thread s).0) (found_lt m pid i e)
                    (end_thread-in_use s) (over-SlotValid _ over.0 over.1) v)

kill-ProcValid :
    (m : ProcMgr) (pid code : ℕ) → ProcValid m → ProcValid (akira_process_kill m pid code).1
unfolding akira_process_kill
kill-ProcValid m pid code v =
    if_case AfterValid (not m.initialized || pid == 0) (λ _. v)
      λ _.
        option_case AfterValid (find_index (has_pid pid) m.slots) (λ _. v)
          λ i e.
            let slot = slot_at m i in
            let s = record slot { proc = record slot.proc { exit_code = code } } in
            let over = end_thread-over s (slot_at-SlotValid m i v).threaded in
            with_freed _ _ (
              put_slot-ProcValid m i (give_exit (in_state (end_thread s).0 ProcState.zombie))
                (found_lt m pid i e) (end_thread-in_use s) (over-SlotValid _ over.0 over.1) v)

suspend-ProcValid :
    (m : ProcMgr) (pid : ℕ) → ProcValid m → ProcValid (akira_process_suspend m pid).1
unfolding akira_process_suspend
suspend-ProcValid m pid v =
    if_case AfterValid (not m.initialized || pid == 0) (λ _. v)
      λ _.
        option_case AfterValid (find_index (has_pid pid) m.slots) (λ _. v)
          λ i e.
            let sv = slot_at-SlotValid m i v in
            let used = found_used m pid i e in
            if_case AfterValid (not (is_running (slot_at m i).proc.state)) (λ _. v)
              λ r. put_slot-ProcValid m i _ (found_lt m pid i e) (ground arith) (ground arith) v

resume-ProcValid : (m : ProcMgr) (pid : ℕ) → ProcValid m → ProcValid (akira_process_resume m pid).1
unfolding akira_process_resume
resume-ProcValid m pid v =
    if_case AfterValid (not m.initialized || pid == 0) (λ _. v)
      λ _.
        option_case AfterValid (find_index (has_pid pid) m.slots) (λ _. v)
          λ i e.
            let sv = slot_at-SlotValid m i v in
            let used = found_used m pid i e in
            if_case AfterValid (not (is_suspended (slot_at m i).proc.state)) (λ _. v)
              λ r. put_slot-ProcValid m i _ (found_lt m pid i e) (ground arith) (ground arith) v

set_priority-ProcValid :
    (m : ProcMgr) (pid : ℕ) (p : ProcPriority)
    → ProcValid m
    → ProcValid (akira_process_set_priority m pid p).1
unfolding akira_process_set_priority
set_priority-ProcValid m pid p v =
    option_case AfterValid (find_index (has_pid pid) m.slots) (λ _. v)
      λ i e.
        let sv = slot_at-SlotValid m i v in
        let used = found_used m pid i e in
        put_slot-ProcValid m i _ (found_lt m pid i e) (ground arith) (ground arith) v

thread_begin-ProcValid :
    (m : ProcMgr) (i now : ℕ)
    → pending (slot_at m i).thread ≡ true
    → ProcValid m
    → ProcValid (thread_begin m i now)
unfolding thread_begin
thread_begin-ProcValid m i now p v =
    let sv = slot_at-SlotValid m i v in
    option_case ProcValid (slot_at m i).proc.entry (λ _. v)
      λ e _.
        put_slot-ProcValid m i _ (get_or-range (λ s. pending s.thread) m.slots i refl p) refl
          (ground arith) v

thread_end-ProcValid :
    (m : ProcMgr) (i : ℕ)
    → begun (slot_at m i).thread && not (paused (slot_at m i).thread) ≡ true
    → ProcValid m
    → ProcValid (thread_end m i)
unfolding thread_end
thread_end-ProcValid m i p v =
    put_slot-ProcValid m i _
      (get_or-range (λ s. begun s.thread && not (paused s.thread)) m.slots i refl p) refl
      (ground arith) v

reap-SlotValid : (s : Slot) → SlotValid s → SlotValid (reap s)
reap-SlotValid s v =
    if_case SlotValid (s.in_use && is_zombie s.proc.state) (λ z. ground arith) (λ _. v)

count_if-reap :
    (xs : List Slot)
    → count_if uses (map reap xs) + count_if (λ (s : Slot). s.in_use && is_zombie s.proc.state) xs
      ≡ count_if uses xs
count_if-reap [] = refl
count_if-reap (s ∷ xs) = ground (arith, count_if-reap xs)

cleanup-ProcValid : (m : ProcMgr) → ProcValid m → ProcValid (akira_process_cleanup m).1
unfolding akira_process_cleanup
cleanup-ProcValid m v = record {
  room = length-map reap m.slots ∙ v.room;
  counted = omega (arith, v.counted, count_if-reap m.slots);
  threads = All-map SlotValid reap m.slots reap-SlotValid v.threads;
}

pub perform-ProcValid :
    (m : ProcMgr) (a : Action) → Allowed m a → ProcValid m → ProcValid (perform m a)
perform-ProcValid m (create o now) w v = create-ProcValid m o now v
perform-ProcValid m (start pid stack) w v = start-ProcValid m pid stack v
perform-ProcValid m (stop pid) w v = stop-ProcValid m pid v
perform-ProcValid m (suspend pid) w v = suspend-ProcValid m pid v
perform-ProcValid m (resume pid) w v = resume-ProcValid m pid v
perform-ProcValid m (kill pid code) w v = kill-ProcValid m pid code v
perform-ProcValid m (set_priority pid p) w v = set_priority-ProcValid m pid p v
perform-ProcValid m cleanup w v = cleanup-ProcValid m v
perform-ProcValid m (thread_begins i now) w v = thread_begin-ProcValid m i now w v
perform-ProcValid m (thread_ends i) w v = thread_end-ProcValid m i w v

-- From a valid state, whatever calls are made and however the threads run in between, the count is the
-- number of slots in use, only native processes in use have threads, and a thread that waits to begin,
-- runs, or is suspended belongs to a process that is READY, RUNNING, or SUSPENDED.
pub Reach-ProcValid :
    {P : Action → Type 0} {m m' : ProcMgr} → Reach P m m' → ProcValid m → ProcValid m'
Reach-ProcValid here v = v
Reach-ProcValid (next r a p w) v = perform-ProcValid _ a w (Reach-ProcValid r v)

-- `akira_process_manager_init` starts with a valid table.
pub manager_init-ProcValid : ProcValid (akira_process_manager_init boot).1
unfolding akira_process_manager_init
manager_init-ProcValid = record {
  room = refl;
  counted = refl;
  threads = All-replicate SlotValid max_processes no_slot no_slot-SlotValid;
}
