-- ===== src/AppLoader/Calls.antt =====
-- Each call of src/apps/app_loader.c keeps the table and the heap in order.
use akira_os.Prelude.{
  ℕ, zero, suc, ◌<◌, ◌≡◌, refl, ◌∙◌, true, not, ◌&&◌, ◌||◌, Option, List, [], ◌∷◌, arith, Ret, ℤ,
  if_case, option_case, get_or, set, CString,
}
use akira_os.AppLoader.{
  AppState, App, Loader, Mask, FlashFile, no_app, app_max_loaded, app_at, get_app,
  app_load_from_memory, app_load_from_flash,
}
use akira_os.AppLoader.States.{
  count_time, is_running, is_paused, is_loaded, app_start, app_stop, app_pause, app_resume,
  close_app, app_unload, any_state, app_grant_capability, app_revoke_capability,
}
use akira_os.AppLoader.Life.{
  LoaderValid, get_app-hit, app_at-AppValid, change_app-LoaderValid, close-LoaderValid,
}
use akira_os.AppLoader.Load.{app_load_from_memory-LoaderValid, app_load_from_flash-LoaderValid}

app_stop-LoaderValid :
    (s : Loader) (h : ℤ) (now : ℕ) → LoaderValid s → LoaderValid (app_stop s h now).1
app_stop-LoaderValid s h now v =
    change_app-LoaderValid s h (λ st. is_running st || is_paused st)
      (λ a. record (count_time a now) { state = AppState.loaded }) (λ a. refl) (λ a. refl)
      (λ a av on. ground (arith, av on)) v

put-in_use :
    (xs : List App) (i j : ℕ) (a : App)
    → a.in_use ≡ (get_or xs i no_app).in_use
    → (get_or (set xs i a) j no_app).in_use ≡ (get_or xs j no_app).in_use
put-in_use [] i j a e = refl
put-in_use (x ∷ xs) zero zero a e = e
put-in_use (x ∷ xs) zero (suc j) a e = refl
put-in_use (x ∷ xs) (suc i) zero a e = refl
put-in_use (x ∷ xs) (suc i) (suc j) a e = put-in_use xs i j a e

app_stop-in_use :
    (s : Loader) (h : ℤ) (now j : ℕ) → (app_at (app_stop s h now).1 j).in_use ≡ (app_at s j).in_use
app_stop-in_use s h now j =
    let P : Ret × Loader → Type 0 = λ r. (app_at r.1 j).in_use ≡ (app_at s j).in_use in
    option_case P (get_app s h) (λ _. refl)
      λ i _.
        if_case P (not (is_running (app_at s i).state || is_paused (app_at s i).state)) (λ _. refl)
          λ _. put-in_use s.apps i j _ refl

close_app-LoaderValid :
    (s : Loader) (i : ℕ)
    → i < app_max_loaded
    → (app_at s i).in_use ≡ true
    → LoaderValid s
    → LoaderValid (close_app s i)
unfolding close_app
close_app-LoaderValid s i lt on v =
    option_case LoaderValid (app_at s i).wasm_data
      (λ e. absurd (ground (arith, e, app_at-AppValid s i v on)))
      λ block e. close-LoaderValid s i block _ (omega (arith, lt, v.room)) on e refl v

app_unload-LoaderValid :
    (s : Loader) (h : ℤ) (now : ℕ) → LoaderValid s → LoaderValid (app_unload s h now).1
unfolding app_unload
app_unload-LoaderValid s h now v =
    option_case (λ (r : Ret × Loader). LoaderValid r.1) (get_app s h) (λ _. v)
      λ i e.
        let (lt, on) = get_app-hit s h i e in
        if_case (λ (s1 : Loader). LoaderValid (close_app s1 i)) (is_running (app_at s i).state)
          (λ _.
            close_app-LoaderValid (app_stop s h now).1 i lt (app_stop-in_use s h now i ∙ on)
              (app_stop-LoaderValid s h now v))
          λ _. close_app-LoaderValid s i lt on v

pub data LoaderCall : Type 0 where
  load_memory : Option (List ℕ) → Option CString → Option ℕ → ℕ → LoaderCall
  load_flash : Option CString → FlashFile → ℕ → LoaderCall
  unload start stop pause resume : ℤ → ℕ → LoaderCall
  grant revoke : ℤ → Mask → LoaderCall

abbrev pub call_loader : Loader → LoaderCall → Loader
call_loader s (load_memory data_ name copy now) = (app_load_from_memory s data_ name copy now).1
call_loader s (load_flash path f now) = (app_load_from_flash s path f now).1
call_loader s (unload h now) = (app_unload s h now).1
call_loader s (start h now) = (app_start s h now).1
call_loader s (stop h now) = (app_stop s h now).1
call_loader s (pause h now) = (app_pause s h now).1
call_loader s (resume h now) = (app_resume s h now).1
call_loader s (grant h m) = (app_grant_capability s h m).1
call_loader s (revoke h m) = (app_revoke_capability s h m).1

call_loader-LoaderValid :
    (s : Loader) (c : LoaderCall) → LoaderValid s → LoaderValid (call_loader s c)
call_loader-LoaderValid s (load_memory data_ name copy now) v =
    app_load_from_memory-LoaderValid s data_ name copy now v
call_loader-LoaderValid s (load_flash path f now) v = app_load_from_flash-LoaderValid s path f now v
call_loader-LoaderValid s (unload h now) v = app_unload-LoaderValid s h now v
call_loader-LoaderValid s (start h now) v =
    change_app-LoaderValid s h (λ st. is_loaded st || is_paused st)
      (λ a. record a { state = AppState.running; start_time = now }) (λ a. refl) (λ a. refl)
      (λ a av on. ground (arith, av on)) v
call_loader-LoaderValid s (stop h now) v = app_stop-LoaderValid s h now v
call_loader-LoaderValid s (pause h now) v =
    change_app-LoaderValid s h is_running
      (λ a. record (count_time a now) { state = AppState.paused }) (λ a. refl) (λ a. refl)
      (λ a av on. ground (arith, av on)) v
call_loader-LoaderValid s (resume h now) v =
    change_app-LoaderValid s h is_paused
      (λ a. record a { state = AppState.running; start_time = now }) (λ a. refl) (λ a. refl)
      (λ a av on. ground (arith, av on)) v
call_loader-LoaderValid s (grant h m) v =
    change_app-LoaderValid s h any_state
      (λ a. record a { capabilities = λ bit. a.capabilities bit || m bit }) (λ a. refl) (λ a. refl)
      (λ a av. av) v
call_loader-LoaderValid s (revoke h m) v =
    change_app-LoaderValid s h any_state
      (λ a. record a { capabilities = λ bit. a.capabilities bit && not (m bit) }) (λ a. refl)
      (λ a. refl) (λ a av. av) v

abbrev pub call_all : Loader → List LoaderCall → Loader
call_all s [] = s
call_all s (c ∷ cs) = call_all (call_loader s c) cs

-- From a valid state, after any sequence of calls, whatever the allocator and the file system answer: the
-- count of apps is the number of slots in use, each app in use is LOADED, RUNNING or PAUSED and has its
-- data, and no block is the data of more apps than it is allocated times, so none is used after it is freed.
pub call_all-LoaderValid :
    (cs : List LoaderCall) (s : Loader) → LoaderValid s → LoaderValid (call_all s cs)
call_all-LoaderValid [] s v = v
call_all-LoaderValid (c ∷ cs) s v =
    call_all-LoaderValid cs (call_loader s c) (call_loader-LoaderValid s c v)
