-- ===== src/Resource.antt =====
-- src/resource/resource_manager.c: quotas and usage of the apps.
-- The mutex is not modelled: each call is one critical section. Callbacks are code of the callers:
-- the state keeps the notices that `notify_event` hands to them, oldest first.
pub mod Quota
pub mod Account
pub mod Wrap
pub mod Balance
pub mod Booked
mod Tests
use akira_os.Prelude.{
  ℕ, ◌+◌, ◌-◌, ◌*◌, ◌/◌, ◌%◌, ◌^◌, Bool, true, false, not, ◌&&◌, ◌||◌, Option, none, some, List, [],
  ◌∷◌, ◌++◌, map, Ret, ok, err, Errno, if◌then◌else◌, ltb, leb, ◌==◌, length, get_or, set,
  replicate, find_index,
}

-- `resource_type_t`; `invalid` stands for every value from `RESOURCE_TYPE_COUNT` on.
pub data ResourceType : Type 0 where
  memory cpu_time storage network_tx network_rx file_handles sockets invalid : ResourceType

-- `struct resource_quota` and `struct resource_usage`, which have the same fields.
pub record Amounts : Type 0 where
  pub memory_bytes : ℕ
  pub cpu_time_us : ℕ
  pub storage_bytes : ℕ
  pub network_tx_bytes : ℕ
  pub network_rx_bytes : ℕ
  pub file_handles : ℕ
  pub sockets : ℕ

pub record AppResources : Type 0 where
  pub in_use : Bool
  pub app_id : ℕ
  pub quota : Amounts
  pub usage : Amounts
  pub last_cpu_sample : ℕ

pub data ResourceEvent : Type 0 where
  quota_warning quota_exceeded reset : ResourceEvent

-- One call of a registered callback.
pub record Notice : Type 0 where
  pub callback : ℕ
  pub callback_data : ℕ
  pub app_id : ℕ
  pub type : ResourceType
  pub event : ResourceEvent

-- `callbacks` holds the entries below `callback_count`.
pub record ResState : Type 0 where
  pub initialized : Bool
  pub apps : List AppResources
  pub default_quota : Amounts
  pub callbacks : List (ℕ × ℕ)
  pub system_usage : Amounts
  pub notices : List Notice

abbrev pub max_apps : ℕ
max_apps = 16

abbrev pub u32_mod : ℕ
u32_mod = 2 ^ 32

abbrev pub u16_mod : ℕ
u16_mod = 2 ^ 16

abbrev pub quota_warning_threshold : ℕ
quota_warning_threshold = 80

abbrev pub no_amounts : Amounts
no_amounts = record {
  memory_bytes = 0;
  cpu_time_us = 0;
  storage_bytes = 0;
  network_tx_bytes = 0;
  network_rx_bytes = 0;
  file_handles = 0;
  sockets = 0;
}

abbrev pub no_app : AppResources
no_app = record {
  in_use = false;
  app_id = 0;
  quota = no_amounts;
  usage = no_amounts;
  last_cpu_sample = 0;
}

-- `res_state` before `resource_manager_init`
abbrev pub boot : ResState
boot = record {
  initialized = false;
  apps = replicate max_apps no_app;
  default_quota = no_amounts;
  callbacks = [];
  system_usage = no_amounts;
  notices = [];
}

-- `get_usage_value` and `get_quota_value`
pub get_value : Amounts → ResourceType → ℕ
get_value a ResourceType.memory = a.memory_bytes
get_value a ResourceType.cpu_time = a.cpu_time_us
get_value a ResourceType.storage = a.storage_bytes
get_value a ResourceType.network_tx = a.network_tx_bytes
get_value a ResourceType.network_rx = a.network_rx_bytes
get_value a ResourceType.file_handles = a.file_handles
get_value a ResourceType.sockets = a.sockets
get_value a ResourceType.invalid = 0

-- The two counts are 16 bits wide.
pub set_usage_value : Amounts → ResourceType → ℕ → Amounts
set_usage_value a ResourceType.memory v = record a { memory_bytes = v }
set_usage_value a ResourceType.cpu_time v = record a { cpu_time_us = v }
set_usage_value a ResourceType.storage v = record a { storage_bytes = v }
set_usage_value a ResourceType.network_tx v = record a { network_tx_bytes = v }
set_usage_value a ResourceType.network_rx v = record a { network_rx_bytes = v }
set_usage_value a ResourceType.file_handles v = record a { file_handles = v % u16_mod }
set_usage_value a ResourceType.sockets v = record a { sockets = v % u16_mod }
set_usage_value a ResourceType.invalid v = a

abbrev pub is_app : ℕ → AppResources → Bool
is_app app_id a = a.in_use && a.app_id == app_id

abbrev pub is_free : AppResources → Bool
is_free a = not a.in_use

pub find_app : ResState → ℕ → Option ℕ
find_app s app_id = find_index (is_app app_id) s.apps

pub find_free_slot : ResState → Option ℕ
find_free_slot s = find_index is_free s.apps

pub notify_event : ResState → ℕ → ResourceType → ResourceEvent → ResState
notify_event s app_id type event = record s {
  notices =
      s.notices
      ++ map
          (λ c. record {
            callback = c.0;
            callback_data = c.1;
            app_id = app_id;
            type = type;
            event = event;
          })
          s.callbacks;
}

pub resource_manager_init : ResState → Ret × ResState
resource_manager_init s = if s.initialized then (ok 0, s) else (
  ok 0,
  record s {
    apps = map (λ (a : AppResources). record a { in_use = false }) s.apps;
    default_quota = record {
      memory_bytes = 64 * 1024;
      cpu_time_us = 10 * 1000000;
      storage_bytes = 128 * 1024;
      network_tx_bytes = 1024 * 1024;
      network_rx_bytes = 1024 * 1024;
      file_handles = 8;
      sockets = 4;
    };
    system_usage = no_amounts;
    initialized = true;
  },
)

-- The entry that a registration writes; a quota that is not given is the default.
pub new_app : ResState → ℕ → Option Amounts → AppResources
new_app s app_id quota = record {
  in_use = true;
  app_id = app_id;
  quota = elim quota [ none ↦ s.default_quota | some q ↦ q ];
  usage = no_amounts;
  last_cpu_sample = 0;
}

pub resource_register_app : ResState → ℕ → Option Amounts → Ret × ResState
unfolding find_app find_free_slot new_app
resource_register_app s app_id quota =
    if not s.initialized then (err Errno.enodev, s) else elim (find_app s app_id) [
      | some i ↦ (err Errno.eexist, s)
      | none ↦ elim (find_free_slot s) [
        | none ↦ (err Errno.enomem, s)
        | some i ↦ (ok 0, record s { apps = set s.apps i (new_app s app_id quota) })
      ]
    ]

pub resource_unregister_app : ResState → ℕ → Ret × ResState
unfolding find_app
resource_unregister_app s app_id =
    if not s.initialized then (err Errno.enodev, s) else elim (find_app s app_id) [
      | none ↦ (err Errno.enoent, s)
      | some i ↦
          let app = get_or s.apps i no_app in
          (ok 0, record s { apps = set s.apps i (record app { in_use = false }) })
    ]

pub resource_set_default_quota : ResState → Option Amounts → ResState
resource_set_default_quota s none = s
resource_set_default_quota s (some quota) = record s { default_quota = quota }

pub resource_update_quota : ResState → ℕ → Option Amounts → Ret × ResState
unfolding find_app
resource_update_quota s app_id none = (err Errno.einval, s)
resource_update_quota s app_id (some quota) =
    if not s.initialized then (err Errno.einval, s) else elim (find_app s app_id) [
      | none ↦ (err Errno.enoent, s)
      | some i ↦
          let app = get_or s.apps i no_app in
          (ok 0, record s { apps = set s.apps i (record app { quota = quota }) })
    ]

abbrev pub is_valid_type : ResourceType → Bool
is_valid_type ResourceType.invalid = false
is_valid_type _ = true

-- The state after a request that the quota allows: the app's usage and the system total.
pub grant : ResState → ℕ → AppResources → ResourceType → ℕ → ResState
unfolding get_value set_usage_value
grant s i app type amount =
    let new_value = (get_value app.usage type + amount) % u32_mod in
    let sys_current = get_value s.system_usage type in
    record s {
      apps = set s.apps i (record app { usage = set_usage_value app.usage type new_value });
      system_usage = set_usage_value s.system_usage type ((sys_current + amount) % u32_mod);
    }

-- The part of `resource_request` from the app's entry on; sums and products are 32 bits wide.
pub request_for : ResState → ℕ → AppResources → ResourceType → ℕ → Ret × ResState
unfolding grant notify_event
request_for s i app type amount =
    let quota = get_value app.quota type in
    let new_value = (get_value app.usage type + amount) % u32_mod in
    if ltb quota new_value
    then (err Errno.edquot, notify_event s app.app_id type quota_exceeded)
    else (
      ok 0,
      (if ltb 0 quota && leb quota_warning_threshold (new_value * 100 % u32_mod / quota)
          then notify_event (grant s i app type amount) app.app_id type quota_warning
          else grant s i app type amount),
    )

pub resource_request : ResState → ℕ → ResourceType → ℕ → Ret × ResState
unfolding request_for find_app
resource_request s app_id type amount =
    if not s.initialized
    then (err Errno.enodev, s)
    else if not (is_valid_type type)
    then (err Errno.einval, s)
    else elim (find_app s app_id) [
      | none ↦ (err Errno.enoent, s)
      | some i ↦ request_for s i (get_or s.apps i no_app) type amount
    ]

pub release_for : ResState → ℕ → AppResources → ResourceType → ℕ → ResState
unfolding get_value set_usage_value
release_for s i app type amount =
    let current = get_value app.usage type in
    let new_value = if leb current amount then 0 else current - amount in
    let sys_current = get_value s.system_usage type in
    record s {
      apps = set s.apps i (record app { usage = set_usage_value app.usage type new_value });
      system_usage =
          if leb amount sys_current
          then set_usage_value s.system_usage type (sys_current - amount)
          else s.system_usage;
    }

pub resource_release : ResState → ℕ → ResourceType → ℕ → Ret × ResState
unfolding release_for find_app
resource_release s app_id type amount =
    if not s.initialized
    then (err Errno.enodev, s)
    else if not (is_valid_type type)
    then (err Errno.einval, s)
    else elim (find_app s app_id) [
      | none ↦ (err Errno.enoent, s)
      | some i ↦ (ok 0, release_for s i (get_or s.apps i no_app) type amount)
    ]

pub resource_get_usage : ResState → ℕ → Ret × Option Amounts
unfolding find_app
resource_get_usage s app_id =
    if not s.initialized then (err Errno.einval, none) else elim (find_app s app_id) [
      | none ↦ (err Errno.enoent, none)
      | some i ↦ (ok 0, some (get_or s.apps i no_app).usage)
    ]

pub resource_get_quota : ResState → ℕ → Ret × Option Amounts
unfolding find_app
resource_get_quota s app_id =
    if not s.initialized then (err Errno.einval, none) else elim (find_app s app_id) [
      | none ↦ (err Errno.enoent, none)
      | some i ↦ (ok 0, some (get_or s.apps i no_app).quota)
    ]

pub resource_available : ResState → ℕ → ResourceType → ℕ → Bool
unfolding find_app get_value
resource_available s app_id type amount =
    if not s.initialized || not (is_valid_type type) then false else elim (find_app s app_id) [
      | none ↦ false
      | some i ↦
          let app = get_or s.apps i no_app in
          leb ((get_value app.usage type + amount) % u32_mod) (get_value app.quota type)
    ]

-- `memset(&app->usage, 0, ...)` for every app in use, with its notice
pub reset_all : List AppResources → ResState → ResState
unfolding notify_event
reset_all [] s = s
reset_all (a ∷ rest) s =
    reset_all rest (if a.in_use then notify_event s a.app_id ResourceType.memory reset else s)

pub resource_reset_usage : ResState → ℕ → Ret × ResState
unfolding find_app reset_all notify_event
resource_reset_usage s app_id =
    if not s.initialized
    then (err Errno.enodev, s)
    else if app_id == 0
    then (
      ok 0,
      record (reset_all s.apps s) {
        apps =
            map (λ (a : AppResources). if a.in_use then record a { usage = no_amounts } else a)
              s.apps;
        system_usage = no_amounts;
      },
    )
    else elim (find_app s app_id) [
      | none ↦ (err Errno.enoent, s)
      | some i ↦
          let app = get_or s.apps i no_app in
          (
            ok 0,
            notify_event (record s { apps = set s.apps i (record app { usage = no_amounts }) })
                app_id ResourceType.memory reset,
          )
    ]

pub resource_register_callback : ResState → Option ℕ → ℕ → Ret × ResState
resource_register_callback s none user_data = (err Errno.einval, s)
resource_register_callback s (some callback) user_data =
    if leb 4 (length s.callbacks)
    then (err Errno.einval, s)
    else (ok 0, record s { callbacks = s.callbacks ++ (callback, user_data) ∷ [] })

pub resource_get_system_usage : ResState → Amounts
resource_get_system_usage s = s.system_usage
