-- ===== src/AppLoader/States.antt =====
-- src/apps/app_loader.c: the states of a loaded app, unloading, and the questions.
use akira_os.Prelude.{
  ℕ, zero, suc, ◌+◌, ◌-◌, ◌%◌, ◌^◌, Bool, true, false, not, ◌&&◌, ◌||◌, Option, none, some, List,
  [], ◌∷◌, Ret, ok, err, Errno, ℤ, if◌then◌else◌,
}
use akira_os.AppLoader.{
  AppState, Mask, App, Loader, app_at, put_app, get_app, free_block, verify_signature,
}

-- The difference of two readings of the clock of 32 bits.
abbrev pub elapsed : ℕ → ℕ → ℕ
elapsed now since = (now + (2 ^ 32 - since)) % 2 ^ 32

abbrev pub count_time : App → ℕ → App
count_time a now = record a {
  total_runtime = (a.total_runtime + elapsed now a.start_time) % 2 ^ 32;
}

abbrev pub is_running : AppState → Bool
is_running AppState.running = true
is_running _ = false

abbrev pub is_paused : AppState → Bool
is_paused AppState.paused = true
is_paused _ = false

abbrev pub is_loaded : AppState → Bool
is_loaded AppState.loaded = true
is_loaded _ = false

-- A call that asks for states of an app and changes it.
abbrev pub change_app : Loader → ℤ → (AppState → Bool) → (App → App) → Ret × Loader
change_app s handle asks f = elim (get_app s handle) [
  | none ↦ (err Errno.enoent, s)
  | some i ↦
      if not (asks (app_at s i).state)
      then (err Errno.einval, s)
      else (ok 0, put_app s i (f (app_at s i)))
]

abbrev pub app_start : Loader → ℤ → ℕ → Ret × Loader
app_start s handle now =
    change_app s handle (λ st. is_loaded st || is_paused st)
      (λ a. record a { state = AppState.running; start_time = now })

abbrev pub app_stop : Loader → ℤ → ℕ → Ret × Loader
app_stop s handle now =
    change_app s handle (λ st. is_running st || is_paused st)
      (λ a. record (count_time a now) { state = AppState.loaded })

abbrev pub app_pause : Loader → ℤ → ℕ → Ret × Loader
app_pause s handle now =
    change_app s handle is_running (λ a. record (count_time a now) { state = AppState.paused })

abbrev pub app_resume : Loader → ℤ → ℕ → Ret × Loader
app_resume s handle now =
    change_app s handle is_paused (λ a. record a { state = AppState.running; start_time = now })

-- `app_unload` once the app does not run.
unfoldable pub close_app : Loader → ℕ → Loader
close_app s i =
    let a = record (app_at s i) { wasm_data = none; in_use = false } in
    elim (app_at s i).wasm_data [
      | none ↦ record (put_app s i a) { app_count = s.app_count - 1 }
      | some block ↦ record (put_app (free_block block s) i a) { app_count = s.app_count - 1 }
    ]

unfoldable pub app_unload : Loader → ℤ → ℕ → Ret × Loader
unfolding close_app
app_unload s handle now = elim (get_app s handle) [
  | none ↦ (err Errno.enoent, s)
  | some i ↦
      (ok 0, close_app (if is_running (app_at s i).state then (app_stop s handle now).1 else s) i)
]

-- The handle, the app and its running time so far.
unfoldable pub app_get_info : Loader → ℤ → ℕ → Option (ℕ × (App × ℕ))
app_get_info s handle now = elim (get_app s handle) [
  | none ↦ none
  | some i ↦
      let a = app_at s i in
      some
        (i, (a, if is_running a.state then (count_time a now).total_runtime else a.total_runtime))
]

-- The loop of `app_list` from index `i` on with room for `n` more handles.
unfoldable pub list_apps : List App → ℕ → ℕ → List ℕ
list_apps [] i n = []
list_apps (a ∷ rest) i zero = []
list_apps (a ∷ rest) i (suc n) =
    let fewer = list_apps rest (suc i) n in
    let same = list_apps rest (suc i) (suc n) in if a.in_use then i ∷ fewer else same

unfoldable pub app_list : Loader → ℕ → List ℕ
unfolding list_apps
app_list s max_count = list_apps s.apps 0 max_count

abbrev pub any_state : AppState → Bool
any_state st = true

abbrev pub app_grant_capability : Loader → ℤ → Mask → Ret × Loader
app_grant_capability s handle capability =
    change_app s handle any_state
      (λ a. record a { capabilities = λ bit. a.capabilities bit || capability bit })

abbrev pub app_revoke_capability : Loader → ℤ → Mask → Ret × Loader
app_revoke_capability s handle capability =
    change_app s handle any_state
      (λ a. record a { capabilities = λ bit. a.capabilities bit && not (capability bit) })

-- (have & want) == want, on the bits below `n`.
abbrev pub covers_below : ℕ → Mask → Mask → Bool
covers_below zero have want = true
covers_below (suc n) have want = (not (want n) || have n) && covers_below n have want

unfoldable pub app_has_capability : Loader → ℤ → Mask → Bool
app_has_capability s handle capability = elim (get_app s handle) [
  | none ↦ false
  | some i ↦ covers_below 32 (app_at s i).capabilities capability
]

unfoldable pub akira_app_verify_signature : Loader → ℤ → Ret
unfolding verify_signature
akira_app_verify_signature s handle = elim (get_app s handle) [
  | none ↦ err Errno.enoent
  | some i ↦ verify_signature (app_at s i)
]

-- Delivery is not there yet.
unfoldable pub app_send_event : Loader → ℤ → Ret
app_send_event s handle = elim (get_app s handle) [
  | none ↦ err Errno.enoent
  | some i ↦ if not (is_running (app_at s i).state) then err Errno.einval else ok 0
]
