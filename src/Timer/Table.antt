-- ===== src/Timer/Table.antt =====
-- The table of timers of src/akira/kernel/timer.c over all sequences of calls and expiries.
use akira_os.Prelude.{
  ℕ, zero, suc, ◌<◌, ◌≤◌, ◌≡◌, refl, sym, ap, ◌∙◌, inl, inr, Bool, true, false, not, Option, none,
  some, List, [], ◌∷◌, arith, Ret, ok, if◌then◌else◌, if_case, option_case, Bool-cases, ltb, get_or,
  set, length, All, All-set, All-get_or, All-replicate, count_if, count_if-set_or, find_index,
  find_index-Found, lt_of_get_elem?, length-set, get_or_of_get_elem?,
}
use akira_os.Timer.{
  Callback, TimerConfig, Timer, TimerMgr, armed, max_timers, no_timer, boot, is_free, timer_at,
  put_timer, find_free_slot, akira_timer_subsystem_init, start_entry, stop_entry, reset_entry,
  pause_entry, resume_entry, set_period_entry, destroy_entry,
}
use akira_os.Timer.Api.{
  new_timer, akira_timer_create, akira_timer_destroy, on_entry, akira_timer_start, akira_timer_stop,
  akira_timer_reset, akira_timer_pause, akira_timer_resume, akira_timer_set_period,
  akira_timer_set_callback, timer_expires,
}
use akira_os.Timer.Armed.{
  TimerValid, Repeats, no_timer-TimerValid, start_entry-TimerValid, stop_entry-TimerValid,
  reset_entry-TimerValid, pause_entry-TimerValid, resume_entry-TimerValid,
  set_period_entry-TimerValid, destroy_entry-TimerValid, new_timer-TimerValid, expires-TimerValid,
  start_entry-in_use, stop_entry-in_use, reset_entry-in_use, pause_entry-in_use,
  resume_entry-in_use, set_period_entry-in_use, expires-in_use,
}

abbrev pub uses : Timer → Bool
uses t = t.in_use

pub record TimersValid (m : TimerMgr) : Type 0 where
  pub room : length m.timers ≡ max_timers
  pub counted : m.active_count ≡ count_if uses m.timers
  pub entries : All TimerValid m.timers

pub data TimerAction : Type 0 where
  create : Option TimerConfig → TimerAction
  destroy start stop reset resume : Option ℕ → TimerAction
  pause set_period : Option ℕ → ℕ → TimerAction
  set_callback : Option ℕ → Option Callback → ℕ → TimerAction
  expiry : ℕ → TimerAction

abbrev pub perform : TimerMgr → TimerAction → TimerMgr
perform m (create config) = (akira_timer_create m config).1
perform m (destroy t) = akira_timer_destroy m t
perform m (start t) = (akira_timer_start m t).1
perform m (stop t) = (akira_timer_stop m t).1
perform m (reset t) = (akira_timer_reset m t).1
perform m (resume t) = (akira_timer_resume m t).1
perform m (pause t left) = (akira_timer_pause m t left).1
perform m (set_period t period) = (akira_timer_set_period m t period).1
perform m (set_callback t callback user_data) = (akira_timer_set_callback m t callback user_data).1
perform m (expiry i) = timer_expires m i

-- What is asked for: a timer that repeats has a period, and a new period is not 0; and what the kernel
-- does: only a timer that runs expires.
abbrev pub Allowed : TimerMgr → TimerAction → Type 0
Allowed m (create (some config)) = Repeats config.mode config.period_ms
Allowed m (set_period t period) = 0 < period
Allowed m (expiry i) = armed (timer_at m i).k_timer ≡ true
Allowed m _ = Unit {0}

timer_at-TimerValid : (m : TimerMgr) (i : ℕ) → TimersValid m → TimerValid (timer_at m i)
timer_at-TimerValid m i v = All-get_or TimerValid m.timers i no_timer no_timer-TimerValid v.entries

set_outside : (xs : List Timer) (i : ℕ) (t : Timer) → length xs ≤ i → set xs i t ≡ xs
set_outside [] i t le = refl
set_outside (x ∷ xs) zero t le = absurd (omega arith)
set_outside (x ∷ xs) (suc i) t le = ap (◌∷◌ x) (set_outside xs i t (omega arith))

-- Rewriting an entry that stays in use, or free, keeps the count.
count_if-put :
    (xs : List Timer) (i : ℕ) (t : Timer)
    → t.in_use ≡ (get_or xs i no_timer).in_use
    → count_if uses (set xs i t) ≡ count_if uses xs
count_if-put xs i t same = elim (Bool-cases (ltb i (length xs))) [
  | inl lt ↦ ground (arith, lt, same, count_if-set_or uses xs i no_timer t (ground (arith, lt)))
  | inr ge ↦ ap (count_if uses) (set_outside xs i t (ground (arith, ge)))
]

put_timer-TimersValid :
    (m : TimerMgr) (i : ℕ) (t : Timer)
    → t.in_use ≡ (timer_at m i).in_use
    → TimerValid t
    → TimersValid m
    → TimersValid (put_timer m i t)
put_timer-TimersValid m i t same tv v = record {
  room = length-set m.timers i t ∙ v.room;
  counted = v.counted ∙ sym (count_if-put m.timers i t same);
  entries = All-set TimerValid m.timers i t v.entries tv;
}

on_entry-TimersValid :
    (m : TimerMgr) (timer : Option ℕ) (f : Timer → Ret × Timer)
    → ((t : Timer) → (f t).1.in_use ≡ t.in_use)
    → ((t : Timer) → TimerValid t → TimerValid (f t).1)
    → TimersValid m
    → TimersValid (on_entry m timer f).1
on_entry-TimersValid m none f same keeps v = v
on_entry-TimersValid m (some i) f same keeps v =
    let t = timer_at m i in
    put_timer-TimersValid m i (f t).1 (same t) (keeps t (timer_at-TimerValid m i v)) v

in_use-new : (config : TimerConfig) (id : ℕ) → (new_timer config id).in_use ≡ true
unfolding new_timer
in_use-new config id = refl

destroy_entry-in_use : (t : Timer) → (destroy_entry t).in_use ≡ false
unfolding destroy_entry
destroy_entry-in_use t = refl

used_inside : (xs : List Timer) (i : ℕ) → (get_or xs i no_timer).in_use ≡ true → i < length xs
used_inside [] i e = absurd (ground (arith, e))
used_inside (x ∷ xs) zero e = omega arith
used_inside (x ∷ xs) (suc i) e = omega (arith, used_inside xs i e)

create-TimersValid :
    (m : TimerMgr) (config : TimerConfig)
    → Repeats config.mode config.period_ms
    → TimersValid m
    → TimersValid (akira_timer_create m (some config)).1
unfolding akira_timer_create find_free_slot
create-TimersValid m config r v =
    let P : Option ℕ × TimerMgr → Type 0 = λ q. TimersValid q.1 in
    if_case P (not m.initialized) (λ _. v)
      λ _.
        option_case P (find_index is_free m.timers) (λ _. v)
          λ i e.
            let f = find_index-Found is_free m.timers i e in
            let fresh = new_timer config m.next_id in
            let t : Timer = if config.start_immediately then (start_entry fresh).1 else fresh in
            let fv = new_timer-TimerValid config m.next_id r in
            let tv : TimerValid t =
              if_case TimerValid config.start_immediately (λ _. start_entry-TimerValid fresh fv)
                λ _. fv in
            let used : t.in_use ≡ true =
              if_case (λ (s : Timer). s.in_use ≡ true) config.start_immediately
                (λ _. start_entry-in_use fresh ∙ in_use-new config m.next_id)
                λ _. in_use-new config m.next_id in
            record {
              room = length-set m.timers i t ∙ v.room;
              counted = ground (
                arith,
                v.counted,
                used,
                f.passes,
                get_or_of_get_elem? m.timers i no_timer f.there,
                count_if-set_or uses m.timers i no_timer t (lt_of_get_elem? m.timers i f.there),
              );
              entries = All-set TimerValid m.timers i t v.entries tv;
            }

destroy-TimersValid :
    (m : TimerMgr) (timer : Option ℕ) → TimersValid m → TimersValid (akira_timer_destroy m timer)
unfolding akira_timer_destroy
destroy-TimersValid m none v = v
destroy-TimersValid m (some i) v =
    let t = destroy_entry (timer_at m i) in
    if_case TimersValid (not (timer_at m i).in_use) (λ _. v)
      λ on. record {
        room = length-set m.timers i t ∙ v.room;
        counted =
            let lt = used_inside m.timers i (ground (arith, on)) in
            ground (
              arith,
              v.counted,
              on,
              destroy_entry-in_use (timer_at m i),
              count_if-set_or uses m.timers i no_timer t lt,
            );
        entries =
            All-set TimerValid m.timers i t v.entries
              (destroy_entry-TimerValid (timer_at m i) (timer_at-TimerValid m i v));
      }

perform-TimersValid :
    (m : TimerMgr) (a : TimerAction) → Allowed m a → TimersValid m → TimersValid (perform m a)
unfolding akira_timer_create
perform-TimersValid m (create none) w v = v
perform-TimersValid m (create (some config)) w v = create-TimersValid m config w v
perform-TimersValid m (destroy t) w v = destroy-TimersValid m t v
perform-TimersValid m (start t) w v =
    on_entry-TimersValid m t start_entry start_entry-in_use start_entry-TimerValid v
perform-TimersValid m (stop t) w v =
    on_entry-TimersValid m t stop_entry stop_entry-in_use stop_entry-TimerValid v
perform-TimersValid m (reset t) w v =
    on_entry-TimersValid m t reset_entry reset_entry-in_use reset_entry-TimerValid v
perform-TimersValid m (resume t) w v =
    on_entry-TimersValid m t resume_entry resume_entry-in_use resume_entry-TimerValid v
perform-TimersValid m (pause t left) w v =
    on_entry-TimersValid m t (λ s. pause_entry s left) (λ s. pause_entry-in_use s left)
      (λ s. pause_entry-TimerValid s left) v
perform-TimersValid m (set_period t period) w v =
    on_entry-TimersValid m t (λ s. set_period_entry s period)
      (λ s. set_period_entry-in_use s period) (λ s. set_period_entry-TimerValid s period w) v
perform-TimersValid m (set_callback t callback user_data) w v =
    on_entry-TimersValid m t (λ s. (ok 0, record s { callback = callback; user_data = user_data }))
      (λ s. refl)
      (λ s sv. record {
        matches = sv.matches;
        cycles = sv.cycles;
        nonzero = sv.nonzero;
        once = sv.once;
      })
      v
perform-TimersValid m (expiry i) w v =
    put_timer-TimersValid m i _ (expires-in_use (timer_at m i))
      (expires-TimerValid (timer_at m i) w (timer_at-TimerValid m i v)) v

-- Sequences of what is allowed.
abbrev pub AllAllowed : TimerMgr → List TimerAction → Type 0
AllAllowed m [] = Unit
AllAllowed m (a ∷ rest) = Allowed m a × AllAllowed (perform m a) rest

abbrev pub perform_all : TimerMgr → List TimerAction → TimerMgr
perform_all m [] = m
perform_all m (a ∷ rest) = perform_all (perform m a) rest

-- From a valid table, after any sequence of calls, in which timers that repeat get a period that is not 0,
-- and of expiries of timers that run, the count of active timers is the number of entries in use, the
-- kernel's timer runs exactly for those that are in use and RUNNING, and only one-shot timers are EXPIRED.
pub perform_all-TimersValid :
    (actions : List TimerAction) (m : TimerMgr)
    → AllAllowed m actions
    → TimersValid m
    → TimersValid (perform_all m actions)
perform_all-TimersValid [] m w v = v
perform_all-TimersValid (a ∷ rest) m w v =
    perform_all-TimersValid rest (perform m a) w.1 (perform-TimersValid m a w.0 v)

-- The table is valid at the start.
pub init-TimersValid : TimersValid (akira_timer_subsystem_init boot).1
unfolding akira_timer_subsystem_init
init-TimersValid = record {
  room = refl;
  counted = refl;
  entries = All-replicate TimerValid max_timers no_timer no_timer-TimerValid;
}
