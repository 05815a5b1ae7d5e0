-- ===== src/AppLoader/Runtime.antt =====
-- What src/apps/app_loader.c counts twice, and what it loses.
use akira_os.Prelude.{
  ℕ, ◌+◌, ◌-◌, ◌%◌, ◌^◌, ◌<◌, ◌≤◌, ◌≡◌, refl, ap, subst, ◌∙◌, Bool, true, not, ◌||◌, Option, none,
  some, arith, Ret, ok, err, Errno, ℤ, pos, if◌then◌else◌, if_case, option_case, ◌==◌, length,
  length-set, get_or-set_self, CString,
}
use akira_os.AppLoader.{
  AppState, App, Loader, FlashFile, no_app, app_max_loaded, app_at, put_app, get_app,
  app_load_from_flash,
}
use akira_os.AppLoader.States.{
  elapsed, count_time, is_running, is_paused, change_app, app_stop, app_pause,
}
use akira_os.AppLoader.Life.{allocations, owners, LoaderValid}
use akira_os.AppLoader.Load.{FlashOutcome, app_load_from_flash-FlashOutcome}

get_app-same :
    (s : Loader) (i : ℕ)
    → i < app_max_loaded
    → (app_at s i).in_use ≡ true
    → get_app s (pos i) ≡ some i
unfolding get_app
get_app-same s i lt on = ground (arith, on)

-- A call on an app that is there, in a state the call asks for.
change_app-hit :
    (s : Loader) (i : ℕ) (asks : AppState → Bool) (f : App → App)
    → i < app_max_loaded
    → (app_at s i).in_use ≡ true
    → asks (app_at s i).state ≡ true
    → change_app s (pos i) asks f ≡ (ok 0, put_app s i (f (app_at s i)))
change_app-hit s i asks f lt on st =
    ap
      (λ o. elim o [
        | none ↦ (err Errno.enoent, s)
        | some i ↦
            if not (asks (app_at s i).state)
            then (err Errno.einval, s)
            else (ok 0, put_app s i (f (app_at s i)))
      ])
      (get_app-same s i lt on)
    ∙ if_case (λ (r : Ret × Loader). r ≡ (ok 0, put_app s i (f (app_at s i))))
        (not (asks (app_at s i).state)) (λ off. absurd (ground (arith, off, st))) λ _. refl

change_app-at :
    (s : Loader) (i : ℕ) (asks : AppState → Bool) (f : App → App)
    → length s.apps ≡ app_max_loaded
    → i < app_max_loaded
    → (app_at s i).in_use ≡ true
    → asks (app_at s i).state ≡ true
    → app_at (change_app s (pos i) asks f).1 i ≡ f (app_at s i)
change_app-at s i asks f room lt on st =
    ap (λ (r : Ret × Loader). app_at r.1 i) (change_app-hit s i asks f lt on st)
    ∙ get_or-set_self s.apps i (f (app_at s i)) no_app (omega (arith, lt, room))

room-change_app :
    (s : Loader) (h : ℤ) (asks : AppState → Bool) (f : App → App)
    → length (change_app s h asks f).1.apps ≡ length s.apps
room-change_app s h asks f =
    let P : Ret × Loader → Type 0 = λ r. length r.1.apps ≡ length s.apps in
    option_case P (get_app s h) (λ _. refl)
      λ i _.
        if_case P (not (asks (app_at s i).state)) (λ _. refl)
          λ _. length-set s.apps i (f (app_at s i))

-- The defect: where a running app, started at `t0`, is paused at `t1` and then stopped at `t2`, the time from
-- `t0` to `t1` is counted twice, and the time in which it was paused once, as long as no clock wraps.
pub pause_stop_counts_twice :
    (s : Loader) (i t1 t2 : ℕ)
    → LoaderValid s
    → i < app_max_loaded
    → (app_at s i).in_use ≡ true
    → is_running (app_at s i).state ≡ true
    → (app_at s i).start_time ≤ t1
    → t1 ≤ t2
    → t2 + t2 + (app_at s i).total_runtime < 2 ^ 32
    → (app_at (app_stop (app_pause s (pos i) t1).1 (pos i) t2).1 i).total_runtime
      ≡ (app_at s i).total_runtime + (t1 - (app_at s i).start_time) + (t2 - (app_at s i).start_time)
pause_stop_counts_twice s i t1 t2 v lt on run le1 le2 small =
    let a = app_at s i in
    let asks : AppState → Bool = λ st. is_running st || is_paused st in
    let paused_app : App = record (count_time a t1) { state = AppState.paused } in
    let s1 = (app_pause s (pos i) t1).1 in
    let first : app_at s1 i ≡ paused_app =
      change_app-at s i is_running (λ x. record (count_time x t1) { state = AppState.paused })
        v.room lt on run in
    let second =
      change_app-at s1 i asks (λ x. record (count_time x t2) { state = AppState.loaded })
        (room-change_app s (pos i) is_running
            (λ x. record (count_time x t1) { state = AppState.paused })
          ∙ v.room)
        lt (ap (λ (x : App). x.in_use) first ∙ on) (ap (λ (x : App). asks x.state) first) in
    ap (λ (x : App). x.total_runtime) second
    ∙ ap (λ (x : App). (count_time x t2).total_runtime) first
    ∙ twice a.total_runtime a.start_time t1 t2 le1 le2 small
  where
    twice :
        (r t0 t1 t2 : ℕ)
        → t0 ≤ t1
        → t1 ≤ t2
        → t2 + t2 + r < 2 ^ 32
        → ((r + elapsed t1 t0) % 2 ^ 32 + elapsed t2 t0) % 2 ^ 32 ≡ r + (t1 - t0) + (t2 - t0)
    twice r t0 t1 t2 le1 le2 small = omega arith

-- The defect: each file that `app_load_from_flash` loads takes a block that no app owns, its buffer, which is
-- not given back.
pub flash_leaks :
    (s s' : Loader) (path : Option CString) (f : FlashFile) (now h : ℕ)
    → app_load_from_flash s path f now ≡ (ok h, s')
    → (block : ℕ) × (f.buffer ≡ some block)
      × ((b : ℕ)
          → allocations b s' + owners b s
            ≡ allocations b s + owners b s' + (if block == b then 1 else 0))
unfolding FlashOutcome
flash_leaks s s' path f now h e =
    subst (FlashOutcome s f) e (app_load_from_flash-FlashOutcome s path f now)
