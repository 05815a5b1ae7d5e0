-- ===== src/Timer/Armed.antt =====
-- The state that src/akira/kernel/timer.c keeps of a timer, and what the kernel's timer does.
use akira_os.Prelude.{
  ℕ, ◌<◌, ◌≡◌, refl, ◌∙◌, ◌⊎◌, inl, inr, Bool, true, false, not, ◌&&◌, ◌||◌, ◌∷◌, arith, Ret,
  if_case, ltb,
}
use akira_os.Timer.{
  TimerMode, TimerState, TimerConfig, Timer, expires, last_period, armed, no_timer, is_oneshot,
  is_running, is_paused, timer_expiry_handler, start_entry, stop_entry, reset_entry, pause_entry,
  resume_entry, set_period_entry, destroy_entry,
}
use akira_os.Timer.Api.{new_timer}

abbrev pub is_expired : TimerState → Bool
is_expired TimerState.expired = true
is_expired _ = false

-- The kernel's timer runs exactly while the entry is in use and RUNNING; it has a period unless the timer is
-- a one-shot one, and only a one-shot timer is EXPIRED.
pub record TimerValid (t : Timer) : Type 0 where
  pub matches : armed t.k_timer ≡ (t.in_use && is_running t.state)
  pub cycles : armed t.k_timer ≡ true → ltb 0 (last_period t.k_timer) ≡ not (is_oneshot t.mode)
  pub nonzero : t.in_use && not (is_oneshot t.mode) ≡ true → ltb 0 t.period_ms ≡ true
  pub once : t.in_use && is_expired t.state ≡ true → is_oneshot t.mode ≡ true

pub no_timer-TimerValid : TimerValid no_timer
no_timer-TimerValid = ground arith

pub start_entry-TimerValid : (t : Timer) → TimerValid t → TimerValid (start_entry t).1
unfolding start_entry
start_entry-TimerValid t v =
    if_case (λ (r : Ret × Timer). TimerValid r.1) (not t.in_use) (λ _. v)
      λ on. record {
        matches = ground (arith, on);
        cycles = λ _. ground (arith, on, v.nonzero);
        nonzero = v.nonzero;
        once = λ e. absurd (ground (arith, e));
      }

pub stop_entry-TimerValid : (t : Timer) → TimerValid t → TimerValid (stop_entry t).1
unfolding stop_entry
stop_entry-TimerValid t v =
    if_case (λ (r : Ret × Timer). TimerValid r.1) (not t.in_use) (λ _. v)
      λ on. record {
        matches = ground (arith, on);
        cycles = λ e. absurd (ground (arith, e));
        nonzero = ground (arith, v.nonzero);
        once = λ e. absurd (ground (arith, e));
      }

pub expires-TimerValid :
    (t : Timer)
    → armed t.k_timer ≡ true
    → TimerValid t
    → TimerValid (timer_expiry_handler (record t { k_timer = expires ∷ t.k_timer }))
unfolding timer_expiry_handler
expires-TimerValid t a v =
    if_case TimerValid (not t.in_use) (λ off. absurd (ground (arith, off, a, v.matches)))
      λ on. record {
        matches = ground (arith, on, a, v.matches, v.cycles a);
        cycles = λ e. ground (arith, v.cycles a);
        nonzero = v.nonzero;
        once = λ e. ground (arith, e, v.once);
      }

pub pause_entry-TimerValid :
    (t : Timer) (left : ℕ) → TimerValid t → TimerValid (pause_entry t left).1
unfolding pause_entry
pause_entry-TimerValid t left v =
    if_case (λ (r : Ret × Timer). TimerValid r.1) (not t.in_use || not (is_running t.state))
      (λ _. v)
      λ on. record {
        matches = ground (arith, on);
        cycles = λ e. absurd (ground (arith, e));
        nonzero = ground (arith, v.nonzero);
        once = λ e. absurd (ground (arith, e));
      }

pub resume_entry-TimerValid : (t : Timer) → TimerValid t → TimerValid (resume_entry t).1
unfolding resume_entry
resume_entry-TimerValid t v =
    if_case (λ (r : Ret × Timer). TimerValid r.1) (not t.in_use || not (is_paused t.state)) (λ _. v)
      λ on. record {
        matches = ground (arith, on);
        cycles = λ _. ground (arith, on, v.nonzero);
        nonzero = v.nonzero;
        once = λ e. absurd (ground (arith, e));
      }

pub destroy_entry-TimerValid : (t : Timer) → TimerValid t → TimerValid (destroy_entry t)
unfolding destroy_entry
destroy_entry-TimerValid t v = record {
  matches = ground arith;
  cycles = λ e. absurd (ground (arith, e));
  nonzero = λ e. absurd (ground (arith, e));
  once = λ e. absurd (ground (arith, e));
}

pub reset_entry-TimerValid : (t : Timer) → TimerValid t → TimerValid (reset_entry t).1
unfolding reset_entry
reset_entry-TimerValid t v =
    if_case (λ (r : Ret × Timer). TimerValid r.1) (not t.in_use) (λ _. v)
      λ on.
        let s = stop_entry-TimerValid t v in
        start_entry-TimerValid (record (stop_entry t).1 { fire_count = 0 })
          (record { matches = s.matches; cycles = s.cycles; nonzero = s.nonzero; once = s.once })

pub set_period_entry-TimerValid :
    (t : Timer) (period : ℕ) → 0 < period → TimerValid t → TimerValid (set_period_entry t period).1
unfolding set_period_entry
set_period_entry-TimerValid t period lt v =
    let changed : Timer = record t { period_ms = period } in
    let v' : TimerValid changed = record {
      matches = v.matches;
      cycles = v.cycles;
      nonzero = λ _. ground arith;
      once = v.once;
    } in
    if_case TimerValid (is_running t.state) (λ _. reset_entry-TimerValid changed v') λ _. v'

-- A timer that repeats has a period.
abbrev pub Repeats : TimerMode → ℕ → Type 0
Repeats mode period = is_oneshot mode ≡ true ⊎ 0 < period

pub new_timer-TimerValid :
    (config : TimerConfig) (id : ℕ)
    → Repeats config.mode config.period_ms
    → TimerValid (new_timer config id)
unfolding new_timer
new_timer-TimerValid config id r = record {
  matches = refl;
  cycles = λ e. absurd (ground (arith, e));
  nonzero = λ e. elim r [ inl o ↦ absurd (ground (arith, o, e)) | inr lt ↦ ground (arith, lt) ];
  once = λ e. absurd (ground (arith, e));
}

pub start_entry-in_use : (t : Timer) → (start_entry t).1.in_use ≡ t.in_use
unfolding start_entry
start_entry-in_use t = ground arith

pub stop_entry-in_use : (t : Timer) → (stop_entry t).1.in_use ≡ t.in_use
unfolding stop_entry
stop_entry-in_use t = ground arith

pub reset_entry-in_use : (t : Timer) → (reset_entry t).1.in_use ≡ t.in_use
unfolding reset_entry
reset_entry-in_use t =
    if_case (λ (r : Ret × Timer). r.1.in_use ≡ t.in_use) (not t.in_use) (λ _. refl)
      λ _. start_entry-in_use (record (stop_entry t).1 { fire_count = 0 }) ∙ stop_entry-in_use t

pub pause_entry-in_use : (t : Timer) (left : ℕ) → (pause_entry t left).1.in_use ≡ t.in_use
unfolding pause_entry
pause_entry-in_use t left = ground arith

pub resume_entry-in_use : (t : Timer) → (resume_entry t).1.in_use ≡ t.in_use
unfolding resume_entry
resume_entry-in_use t = ground arith

pub set_period_entry-in_use :
    (t : Timer) (period : ℕ) → (set_period_entry t period).1.in_use ≡ t.in_use
unfolding set_period_entry
set_period_entry-in_use t period =
    if_case (λ (s : Timer). s.in_use ≡ t.in_use) (is_running t.state)
      (λ _. reset_entry-in_use (record t { period_ms = period })) λ _. refl

pub expires-in_use :
    (t : Timer)
    → (timer_expiry_handler (record t { k_timer = expires ∷ t.k_timer })).in_use ≡ t.in_use
unfolding timer_expiry_handler
expires-in_use t = ground arith
