-- ===== src/Service/Steps.antt =====
-- The operations of src/akira/kernel/service.c keep running what a running service depends on.
use akira_os.Prelude.{
  ℕ, zero, suc, ◌+◌, ◌%◌, ◌^◌, ◌≡◌, refl, sym, ap, ◌∙◌, true, false, not, ◌&&◌, Option, none, some,
  List, [], ◌∷◌, arith, if_case, option_case, leb, length, get_elem?, set, All, All-get, find_index,
  find_index-Found, CString, eq_of_str_eq, Ret, ◌==◌,
}
use akira_os.Service.{
  ServiceState, Service, ServiceMgr, is_running, is_startable, is_named, max_services, find_service,
  check_dependencies, depends, is_needed, put_service, succeeded, answers, akira_service_register,
  start_found, akira_service_start, stop_found, akira_service_stop,
}
use akira_os.Service.Bulk.{
  count_restart, is_stopped, state_at, akira_service_restart, is_ready, start_at, start_level,
  akira_service_start_all, stop_at, stop_level, akira_service_stop_all,
}
use akira_os.Service.Support.{
  Supported, Supported_lem, Keeps, All-zip, All-every, Supported-set, Supported-append, not_needed,
  check_dependencies_mono, runs-set_mono, runs-set_ne,
}

register-Supported :
    (call : ℕ → Ret) (m : ServiceMgr) (o : Option Service)
    → Supported m.services
    → Supported (akira_service_register call m o).1.services
unfolding akira_service_register
register-Supported call m none v = v
register-Supported call m (some s) v =
    let P : Ret × ServiceMgr → Type 0 = λ r. Supported r.1.services in
    if_case P (not m.initialized) (λ _. v)
      λ _.
        option_case P (find_index (is_named s.name) m.services)
          (λ _.
            if_case P (leb max_services (length m.services)) (λ _. v)
              λ _.
                if_case P (succeeded (answers call s.init))
                  (λ _. Supported-append m.services _ refl v)
                  (λ _. Supported-append m.services _ refl v))
          (λ i _. v)

start-Supported :
    (call : ℕ → Ret) (now : ℕ) (m : ServiceMgr) (o : Option CString)
    → Supported m.services
    → Supported (akira_service_start call now m o).1.services
unfolding akira_service_start start_found find_service put_service
start-Supported call now m none v = v
start-Supported call now m (some name) v =
    let P : Ret × ServiceMgr → Type 0 = λ r. Supported r.1.services in
    if_case P (not m.initialized) (λ _. v)
      λ _.
        option_case P (find_index (is_named name) m.services) (λ _. v)
          λ i q.
            option_case P (get_elem? m.services i) (λ _. v)
              λ s e.
                let keeps : (s' : Service)
                    → s'.name ≡ s.name
                    → is_running s.state ≡ false
                    → All (Keeps m.services (set m.services i s')) m.services =
                  λ s' n r. All-every m.services (λ x _ d _.
                    runs-set_mono m.services i s s' e n (λ w. absurd (ground arith)) d) in
                if_case P (is_running s.state) (λ _. v)
                  λ idle.
                    if_case P (not (is_startable s.state)) (λ _. v)
                      λ _.
                        if_case P (not (check_dependencies m.services s.depends_on)) (λ _. v)
                          λ c.
                            if_case P (succeeded (answers call s.start))
                              (λ _.
                                let s' = record s {
                                  state = ServiceState.running;
                                  start_time = now;
                                } in
                                Supported-set m.services i s' (keeps s' refl idle)
                                  (λ _.
                                    check_dependencies_mono m.services (set m.services i s')
                                      s.depends_on
                                      (λ d _. runs-set_mono m.services i s s' e refl (λ _. refl) d)
                                      (ground arith))
                                  v)
                              λ _.
                                Supported-set m.services i _ (keeps _ refl idle)
                                  (λ r. absurd (ground arith)) v

stop-Supported :
    (m : ServiceMgr) (o : Option CString)
    → Supported m.services
    → Supported (akira_service_stop m o).1.services
unfolding akira_service_stop stop_found find_service put_service
stop-Supported m none v = v
stop-Supported m (some name) v =
    let P : Ret × ServiceMgr → Type 0 = λ r. Supported r.1.services in
    if_case P (not m.initialized) (λ _. v)
      λ _.
        option_case P (find_index (is_named name) m.services) (λ _. v)
          λ i q.
            option_case P (get_elem? m.services i) (λ _. v)
              λ s e.
                let s' = record s { state = ServiceState.stopped } in
                let f = find_index-Found (is_named name) m.services i q in
                let named : s.name ≡ name =
                  eq_of_str_eq s.name name (ground (arith, f.there, f.passes, e)) in
                if_case P (not (is_running s.state)) (λ _. v)
                  λ _.
                    if_case P (is_needed m.services name) (λ _. v)
                      λ free.
                        Supported-set m.services i s'
                          (All-zip m.services
                            (λ x a _ r d need ran.
                              runs-set_ne m.services i s s' e refl d (λ same.
                                let both : depends x.depends_on d ≡ false =
                                  ap (depends x.depends_on) (sym same ∙ named) ∙ a r in
                                absurd (ground arith))
                              ∙ ran)
                            (not_needed m.services name free) (not_needed m.services name free))
                          (λ r. absurd (ground arith)) v

count_restart-Supported :
    (m : ServiceMgr) (i : ℕ) → Supported m.services → Supported (count_restart m i).services
unfolding count_restart put_service
count_restart-Supported m i v =
    option_case (λ (m' : ServiceMgr). Supported m'.services) (get_elem? m.services i) (λ _. v)
      λ s e.
        let s' = record s { restart_count = (s.restart_count + 1) % 2 ^ 32 } in
        Supported-set m.services i s'
          (All-every m.services λ x _ d _. runs-set_mono m.services i s s' e refl (λ r. r) d)
          (λ r.
            check_dependencies_mono m.services (set m.services i s') s.depends_on
              (λ d _. runs-set_mono m.services i s s' e refl (λ r. r) d)
              (All-get
                (λ x. is_running x.state ≡ true → check_dependencies m.services x.depends_on ≡ true)
                m.services i (Supported_lem m.services v) e r))
          v

restart-Supported :
    (call : ℕ → Ret) (now : ℕ) (m : ServiceMgr) (name : CString)
    → Supported m.services
    → Supported (akira_service_restart call now m name).1.services
unfolding akira_service_restart
restart-Supported call now m name v =
    let P : Ret × ServiceMgr → Type 0 = λ r. Supported r.1.services in
    let stopped = stop-Supported m (some name) v in
    let r = akira_service_stop m (some name) in
    option_case P (find_service m.services name) (λ _. v)
      λ i _.
        if_case P (not (succeeded r.0) && not (is_stopped (state_at r.1.services i))) (λ _. stopped)
          λ _. start-Supported call now _ (some name) (count_restart-Supported r.1 i stopped)

start_level-Supported :
    (call : ℕ → Ret) (now p : ℕ) (m : ServiceMgr) (i n : ℕ)
    → Supported m.services
    → Supported (start_level call now p m i n).services
unfolding start_level start_at
start_level-Supported call now p m i zero v = v
start_level-Supported call now p m i (suc n) v =
    start_level-Supported call now p (start_at call now p m i) (suc i) n (
      option_case (λ (m' : ServiceMgr). Supported m'.services) (get_elem? m.services i) (λ _. v)
        λ s _.
          if_case (λ (m' : ServiceMgr). Supported m'.services) (s.priority == p && is_ready s.state)
            (λ _. start-Supported call now m (some s.name) v) (λ _. v))

stop_level-Supported :
    (p : ℕ) (m : ServiceMgr) (n : ℕ) → Supported m.services → Supported (stop_level p m n).services
unfolding stop_level stop_at
stop_level-Supported p m zero v = v
stop_level-Supported p m (suc i) v = stop_level-Supported p (stop_at p m i) i (
    option_case (λ (m' : ServiceMgr). Supported m'.services) (get_elem? m.services i) (λ _. v)
      λ s _.
        if_case (λ (m' : ServiceMgr). Supported m'.services) (s.priority == p && is_running s.state)
          (λ _. stop-Supported m (some s.name) v) (λ _. v))

-- The calls of the manager, but for unregistering; each with what the callbacks return meanwhile.
pub data ServiceCall : Type 0 where
  register : (ℕ → Ret) → Option Service → ServiceCall
  start restart : (ℕ → Ret) → ℕ → CString → ServiceCall
  stop : CString → ServiceCall
  start_all : (ℕ → Ret) → ℕ → ServiceCall
  stop_all : ServiceCall

abbrev pub call_service : ServiceMgr → ServiceCall → ServiceMgr
call_service m (register call o) = (akira_service_register call m o).1
call_service m (start call now name) = (akira_service_start call now m (some name)).1
call_service m (restart call now name) = (akira_service_restart call now m name).1
call_service m (stop name) = (akira_service_stop m (some name)).1
call_service m (start_all call now) = (akira_service_start_all call now m).1
call_service m stop_all = (akira_service_stop_all m).1

abbrev pub call_services : ServiceMgr → List ServiceCall → ServiceMgr
call_services m [] = m
call_services m (c ∷ cs) = call_services (call_service m c) cs

call_service-Supported :
    (m : ServiceMgr) (c : ServiceCall)
    → Supported m.services
    → Supported (call_service m c).services
unfolding akira_service_start_all akira_service_stop_all
call_service-Supported m (register call o) v = register-Supported call m o v
call_service-Supported m (start call now name) v = start-Supported call now m (some name) v
call_service-Supported m (restart call now name) v = restart-Supported call now m name v
call_service-Supported m (stop name) v = stop-Supported m (some name) v
call_service-Supported m (start_all call now) v =
    let up = λ (p : ℕ) (m' : ServiceMgr) (w : Supported m'.services).
      start_level-Supported call now p m' 0 (length m'.services) w in
    if_case (λ (r : Ret × ServiceMgr). Supported r.1.services) (not m.initialized) (λ _. v)
      λ _. up 4 _ (up 3 _ (up 2 _ (up 1 _ (up 0 m v))))
call_service-Supported m stop_all v =
    let down = λ (p : ℕ) (m' : ServiceMgr) (w : Supported m'.services).
      stop_level-Supported p m' (length m'.services) w in
    if_case (λ (r : Ret × ServiceMgr). Supported r.1.services) (not m.initialized) (λ _. v)
      λ _. down 0 _ (down 1 _ (down 2 _ (down 3 _ (down 4 m v))))

-- Where each running service has its dependencies running, it is so after any sequence of calls
-- that unregisters nothing, whatever the callbacks return.
pub call_services-Supported :
    (cs : List ServiceCall) (m : ServiceMgr)
    → Supported m.services
    → Supported (call_services m cs).services
call_services-Supported [] m v = v
call_services-Supported (c ∷ cs) m v =
    call_services-Supported cs (call_service m c) (call_service-Supported m c v)
