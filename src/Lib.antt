-- ===== src/Lib.antt =====
-- The kernel services of AkiraOS: a verification development for the parts of the firmware that
-- keep the system's own books. Each file models a C file by functions on an explicit state.
--
-- Parts, and where they are modelled:
--
-- Event (Event.antt, with the wait in Event/Waiting.antt; Event/Posts.antt and Event/Drain.antt for
-- posts in between) is src/akira/kernel/event.c: the
-- subscription table and the ring of posted events. `akira_event_post`, `akira_event_process`,
-- `akira_event_wait` and the others keep their names; `dequeue`, `scan`, `ring_shift` and
-- `take_matching` are the steps inside of them. The ring is read as a list, oldest event first, by
-- `contents` (Event/Invariant.antt).
--
-- Resource (Resource.antt) is src/resource/resource_manager.c: the table of apps with quota and
-- usage, the system total, and the callbacks. `get_value` is `get_usage_value` and
-- `get_quota_value`. `request_for`, `grant` and `release_for` are the parts of `resource_request`
-- and `resource_release` behind the search for the app. Calls of the callbacks are kept as a list
-- of notices.
--
-- Scheduler (Scheduler.antt, Scheduler/Api.antt) is src/resource/scheduler.c: the task table and
-- the ready queue. `scheduler_run` is two critical sections, `dispatch` and `settle`, around the
-- task's own code, which is a parameter; in Scheduler/Run.antt it makes any sequence of the calls
-- of Scheduler/Steps.antt. Scheduler/Queue.antt reads the array as a list. `select_next_task` compares
-- the enum of the priorities with the int -1, which depends on the compiler: `EnumAbi` says whether the
-- enum is an unsigned int, as on native_sim and ESP32, or narrower than int, with short enums, and is
-- an argument of `select_next_task`, `dispatch` and `scheduler_run`.
--
-- Service (Service.antt; Service/Bulk.antt for restart, start_all and stop_all) is
-- src/akira/kernel/service.c: the table of services, their start and stop under dependencies. The
-- callbacks of the services are parameters: what they return.
--
-- Process (Process.antt; Process/Signals.antt from suspending on; Process/Query.antt for the
-- questions and the wait) is src/akira/kernel/process.c: the process table. Threads, stacks and
-- semaphores are the kernel's: a slot keeps the history of what was asked of its thread and of what
-- the thread did, and `thread_begin` and `thread_end` are the two parts of `process_thread_entry`
-- around the process's own code. In Process/Life.antt the calls and the threads' steps come in any
-- order.
--
-- MessageBus (MessageBus.antt) is src/ipc/message_bus.c: subscribers, publications, and their
-- delivery by `msg_bus_process`. The kernel's message queue is the parameter `MsgQueue`, with what
-- the kernel promises of it; `enqueue` is how publishing and sending end. Handlers are taken to
-- make no calls of the bus.
--
-- PathUtils (PathUtils.antt) is src/lib/path_utils.c: checking, building, normalizing and taking
-- apart of paths, as texts. `add_base`, `add_app` and `add_file` are the steps of `path_build`,
-- `squeeze` and `strip_end` those of `path_normalize`. PathUtils/Walk.antt says where a path leads,
-- by the rules of a file system.
--
-- Timer (Timer.antt; Timer/Api.antt for the calls on the table) is src/akira/kernel/timer.c: the
-- table of software timers above the kernel's. An entry keeps the history of the kernel's timer,
-- `armed` says whether that runs, and `timer_expires` is an expiry up to its callback.
-- `start_entry` and the others are what the calls do to one entry.
--
-- AppLoader (AppLoader.antt; AppLoader/States.antt from starting an app on) is
-- src/apps/app_loader.c: the table of loaded apps. The heap is the list of allocated blocks; what
-- the allocator and the file system answer is in the arguments (`FlashFile`). `load_into`,
-- `load_buffer` and `close_app` are the parts of loading and unloading behind the checks. It takes
-- the file's name from a path by `path_get_filename`, which is the same search.
--
-- Ota (Ota.antt, Ota/Thread.antt) is src/OTA/ota_manager.c: the transports, and the update that the
-- thread carries out message by message. The flash and the boot loader are the parameter `Flash`,
-- which answers each call, and from which what was written is read; the write buffer is the list of
-- the bytes in it. `start_fresh`, `write_loop` and `install` are the parts of `do_start_update`, `do_write_chunk` and
-- `do_finalize_update`. Ota/Image.antt reads the writes to the flash as one text, and
-- Ota/Update.antt puts a whole update together.
--
-- Capability (Capability.antt) is src/security/capability.c: the masks of containers and the names
-- of capabilities. A mask is the function from its bits.
--
-- SharedMemory (SharedMemory.antt; SharedMemory/Access.antt for reads, writes and locks) is
-- src/ipc/shared_memory.c: the table of regions, their permissions, and the pool, a function from
-- offsets to bytes. The app that calls is number 0, as the source has it.
--
-- Prelude has the names that all use: arrays as lists with native indices, the search for the first
-- entry that passes a test, array shifts, C strings, and the status that a function returns.
--
-- Conventions. Each state is a record with the fields of the C struct. A mutex is not modelled: a
-- call is one critical section. `akira_event_process` and `akira_event_wait` have several, and their
-- models take what the other threads did in between as an argument; `scheduler_run` has two, and its
-- model takes the task's code as one. `msg_bus_process` is modelled as a run in which no other thread
-- uses the bus. Time read from the clock is an argument.
-- Unsigned sums wrap at their width; counters in the tables are below their bounds by the
-- invariants.
--
-- Fuel. `akira_event_process` is a list of rounds, one for each time it takes the mutex, with what was
-- done before; more rounds than events queued or posted are enough.
-- `do_write_chunk` runs with two more than the bytes of the chunk. `msg_bus_process` runs with one more
-- than the queued messages. `akira_event_wait` is a list of rounds, one for each return of
-- the semaphore; its loop ends with the list, and it is enough that the semaphore times out or the
-- time is over in one of them.
--
-- The parts call each other little: each keeps its own static state, and the apps and the drivers
-- call them. The logging, the printing of reports, drivers, radio and network protocols, the shell
-- and the file system below are not modelled. Machine words are little-endian. The Zephyr kernel
-- (mutexes, semaphores, clock) is not part of the repository.
pub mod Prelude
pub mod Event
pub mod Resource
pub mod Scheduler
pub mod Service
pub mod AppLoader
pub mod Capability
pub mod MessageBus
pub mod Ota
pub mod PathUtils
pub mod Process
pub mod SharedMemory
pub mod Timer
