-- ===== src/Service/Handles.antt =====
-- The handles of src/akira/kernel/service.c: a service's handle is its index in the table.
use akira_os.Prelude.{
  ℕ, zero, suc, ◌+◌, ◌≤◌, ◌<◌, ◌≡◌, ◌≢◌, refl, sym, ap, subst, ◌∙◌, Bool, true, false, not, Option,
  none, some, List, [], ◌∷◌, ◌++◌, arith, if_case, option_case, leb, length, length-append,
  get_elem?, find_index, lt_of_get_elem?, Errno, str_eq_refl, Ret, ok, err, ℤ, pos, negsuc,
}
use akira_os.Service.{
  ServiceState, Service, ServiceMgr, max_services, is_named, find_service, succeeded, answers,
  akira_service_register, renumber, remove_service, akira_service_get_by_handle,
  akira_service_unregister,
}

-- The handles count up from `j`.
pub Numbered : ℕ → List Service → Type 0
Numbered j [] = Unit {0}
Numbered j (s ∷ ss) = (s.handle ≡ pos j) × Numbered (suc j) ss

pub Numbered-nil : Numbered 0 []
unfolding Numbered
Numbered-nil = tt

-- The table is in its bounds, and each handle is the index.
pub record HandlesValid (m : ServiceMgr) : Type 0 where
  pub room : length m.services ≤ max_services
  pub numbered : Numbered 0 m.services

renumber-Numbered : (j : ℕ) (ss : List Service) → Numbered j (renumber j ss)
unfolding renumber Numbered
renumber-Numbered j [] = tt
renumber-Numbered j (s ∷ ss) = (refl, renumber-Numbered (suc j) ss)

length-renumber : (j : ℕ) (ss : List Service) → length (renumber j ss) ≡ length ss
unfolding renumber
length-renumber j [] = refl
length-renumber j (s ∷ ss) = ap suc (length-renumber (suc j) ss)

remove_service-Numbered :
    (i j : ℕ) (ss : List Service) → Numbered j ss → Numbered j (remove_service i j ss)
unfolding remove_service Numbered
remove_service-Numbered i j [] n = tt
remove_service-Numbered zero j (s ∷ ss) n = renumber-Numbered j ss
remove_service-Numbered (suc i) j (s ∷ ss) n = (n.0, remove_service-Numbered i (suc j) ss n.1)

length-remove_service :
    (i j : ℕ) (ss : List Service) → i < length ss → length (remove_service i j ss) + 1 ≡ length ss
unfolding remove_service
length-remove_service i j [] lt = absurd (omega arith)
length-remove_service zero j (s ∷ ss) lt = omega (arith, length-renumber j ss)
length-remove_service (suc i) j (s ∷ ss) lt =
    omega (arith, length-remove_service i (suc j) ss (omega arith))

append-Numbered :
    (j : ℕ) (ss : List Service) (e : Service)
    → Numbered j ss
    → e.handle ≡ pos (j + length ss)
    → Numbered j (ss ++ (e ∷ []))
unfolding Numbered
append-Numbered j [] e n h = (h ∙ ap pos {x = j + 0} {y = j} (omega arith), tt)
append-Numbered j (s ∷ ss) e n h = (
  n.0,
  append-Numbered (suc j) ss e n.1
      (h ∙ ap pos {x = j + suc (length ss)} {y = suc j + length ss} (omega arith)),
)

get-last : (ss : List Service) (e : Service) → get_elem? (ss ++ (e ∷ [])) (length ss) ≡ some e
get-last [] e = refl
get-last (s ∷ ss) e = get-last ss e

register-HandlesValid :
    (call : ℕ → Ret) (m : ServiceMgr) (o : Option Service)
    → HandlesValid m
    → HandlesValid (akira_service_register call m o).1
unfolding akira_service_register
register-HandlesValid call m none v = v
register-HandlesValid call m (some s) v =
    let P : Ret × ServiceMgr → Type 0 = λ r. HandlesValid r.1 in
    let entered : (e : Service)
        → e.handle ≡ pos (length m.services)
        → leb max_services (length m.services) ≡ false
        → HandlesValid (record m { services = m.services ++ (e ∷ []) }) =
      λ e h r. record {
        room = ground (arith, length-append m.services (e ∷ []));
        numbered =
            append-Numbered 0 m.services e v.numbered
              (h ∙ ap pos {x = length m.services} {y = 0 + length m.services} (omega arith));
      } in
    if_case P (not m.initialized) (λ _. v)
      λ _.
        option_case P (find_service m.services s.name)
          (λ _.
            if_case P (leb max_services (length m.services)) (λ _. v)
              λ r.
                if_case P (succeeded (answers call s.init)) (λ _. entered _ refl r)
                  (λ _. entered _ refl r))
          (λ i _. v)

unregister-HandlesValid :
    (m : ServiceMgr) (z : ℤ) → HandlesValid m → HandlesValid (akira_service_unregister m z).1
unfolding akira_service_unregister akira_service_get_by_handle
unregister-HandlesValid m (negsuc n) v = v
unregister-HandlesValid m (pos h) v =
    let P : Ret × ServiceMgr → Type 0 = λ r. HandlesValid r.1 in
    if_case P (not m.initialized) (λ _. v)
      λ _.
        option_case P (get_elem? m.services h) (λ _. v)
          λ s e. record {
            room = ground (
              arith,
              v.room,
              length-remove_service h 0 m.services (lt_of_get_elem? m.services h e),
            );
            numbered = remove_service-Numbered h 0 m.services v.numbered;
          }

pub data RegistryCall : Type 0 where
  register : Option Service → RegistryCall
  unregister : ℤ → RegistryCall

-- `call` is what the callbacks return.
abbrev pub call_registry : (ℕ → Ret) → ServiceMgr → List RegistryCall → ServiceMgr
call_registry call m [] = m
call_registry call m (register s ∷ cs) = call_registry call (akira_service_register call m s).1 cs
call_registry call m (unregister z ∷ cs) = call_registry call (akira_service_unregister m z).1 cs

-- From a table in its bounds in which each service's handle is its index, it is so after any sequence of
-- registering, whatever the init of a service returns, and unregistering, which gives the services behind
-- the removed one new handles.
pub call_registry-HandlesValid :
    (call : ℕ → Ret) (cs : List RegistryCall) (m : ServiceMgr)
    → HandlesValid m
    → HandlesValid (call_registry call m cs)
call_registry-HandlesValid call [] m v = v
call_registry-HandlesValid call (register s ∷ cs) m v =
    call_registry-HandlesValid call cs (akira_service_register call m s).1
      (register-HandlesValid call m s v)
call_registry-HandlesValid call (unregister z ∷ cs) m v =
    call_registry-HandlesValid call cs (akira_service_unregister m z).1
      (unregister-HandlesValid m z v)

ok-inj : {a b : ℕ} → ok a ≡ ok b → a ≡ b
ok-inj q = cc

find-last :
    (p : Service → Bool) (ss : List Service) (e : Service)
    → p e ≡ true
    → find_index p (ss ++ (e ∷ [])) ≢ none
find-last p [] e t n = ground arith
find-last p (s ∷ ss) e t n = ground (arith, find-last p ss e t)

taken :
    (call : ℕ → Ret) (m : ServiceMgr) (s : Service)
    → find_service m.services s.name ≢ none
    → akira_service_register call m (some s) ≡ (err Errno.failed, m)
unfolding akira_service_register
taken call m s f =
    if_case (λ r. r ≡ (err Errno.failed, m)) (not m.initialized) (λ _. refl)
      λ _.
        option_case (λ r. r ≡ (err Errno.failed, m)) (find_service m.services s.name)
          (λ n. absurd (f n)) (λ i _. refl)

-- Where a service is registered, its handle gives it back: with the name it was given, READY, and
-- with that handle.
pub register-get_by_handle :
    (call : ℕ → Ret) (m : ServiceMgr) (s : Service) (h : ℕ)
    → (akira_service_register call m (some s)).0 ≡ ok h
    → akira_service_get_by_handle (akira_service_register call m (some s)).1 (pos h)
      ≡ some (record s {
        handle = pos h;
        state = ServiceState.ready;
        start_time = 0;
        restart_count = 0;
      })
unfolding akira_service_register akira_service_get_by_handle
register-get_by_handle call m s h e =
    let got : ServiceState → ℕ → Service =
      λ state k. record s { handle = pos k; state = state; start_time = 0; restart_count = 0 } in
    let P : Ret × ServiceMgr → Type 0 =
      λ r. r.0 ≡ ok h → get_elem? r.1.services h ≡ some (got ServiceState.ready h) in
    if_case P (not m.initialized) (λ _ q. absurd (ground arith))
      (λ _.
        option_case P (find_service m.services s.name)
          (λ _.
            if_case P (leb max_services (length m.services)) (λ _ q. absurd (ground arith))
              λ _.
                if_case P (succeeded (answers call s.init))
                  (λ _ q.
                    subst
                      (λ k.
                        get_elem? (m.services ++ (got ServiceState.ready (length m.services) ∷ []))
                          k
                        ≡ some (got ServiceState.ready k))
                      (ok-inj q) (get-last m.services (got ServiceState.ready (length m.services))))
                  (λ _ q. absurd (ground arith)))
          (λ i _ q. absurd (ground arith)))
      e

failed_register :
    (call : ℕ → Ret) (m : ServiceMgr) (s : Service)
    → m.initialized ≡ true
    → find_service m.services s.name ≡ none
    → length m.services < max_services
    → succeeded (answers call s.init) ≡ false
    → akira_service_register call m (some s) ≡ (
      err Errno.failed,
      record m {
        services =
            m.services
            ++ (record s {
              handle = pos (length m.services);
              state = ServiceState.error;
              start_time = 0;
              restart_count = 0;
            }
                ∷ []);
      },
    )
unfolding akira_service_register
failed_register call m s on new room f = ground arith

-- A service whose init fails is refused with the invalid handle, but stays in the table in ERROR: it
-- takes up a place, and its name is refused from then on.
pub failed_register_stays :
    (call : ℕ → Ret) (m : ServiceMgr) (s : Service)
    → m.initialized ≡ true
    → find_service m.services s.name ≡ none
    → length m.services < max_services
    → succeeded (answers call s.init) ≡ false
    → (length (akira_service_register call m (some s)).1.services ≡ length m.services + 1)
      × ((again : ℕ → Ret)
          → akira_service_register again (akira_service_register call m (some s)).1 (some s)
            ≡ (err Errno.failed, (akira_service_register call m (some s)).1))
unfolding find_service
failed_register_stays call m s on new room f =
    subst
      (λ r.
        (length r.1.services ≡ length m.services + 1)
        × ((again : ℕ → Ret) → akira_service_register again r.1 (some s) ≡ (err Errno.failed, r.1)))
      (sym (failed_register call m s on new room f))
      (
        length-append m.services _,
        λ again. taken again _ s (find-last (is_named s.name) m.services _ (str_eq_refl s.name)),
      )
