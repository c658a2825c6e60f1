-- ===== src/Lib.antt =====
-- STARK ONE, the firmware of a handheld lab tool on an ESP32-S3: its pure cores, modelled and proved.
--
-- The firmware is layered. Drivers and services of ESP-IDF and FreeRTOS sit around cores in plain C
-- that know no operating system; the cores carry the logic, and this library models them. Services
-- talk to each other only by events on the bus, and to hardware only by tables of functions that are
-- handed to the cores.
--
-- Parts, and the files that model them:
--   Base     helpers: C's tests on unsigned numbers, lists, 32-bit words, rings as windows, bits of words
--   Err      stark_err_t of components/stark_err
--   Event    components/stark_event/stark_event_core.c: a ring of events that drops its oldest, the
--            subscriber table and dispatch. `publish`, `subscribe`, `dispatch` and `init` are
--            stark_event_core_publish and so on; `loop`, `consume` and `deliver` are the parts of
--            dispatch. Event/Queue is the abstract queue.
--   Log      components/stark_log/log_ring.c: the ring of log lines that are waiting for the card.
--            `put` and `take` are log_ring_put and log_ring_take. Log/Spec says what they promise.
--   Module   components/stark_module: Desc is module_desc.c (the descriptor of a module), Slot, Core
--            and Lease are module_core.c (one slot; the table; claims). Module/Slot/Debounce follows
--            one slot over many polls, Module/Lease/History the table under any interleaving of
--            locked sections; a tick is one for each slot and one for `recompute`.
--   Input    components/stark_input/input_core.c: Key is one key (`update_key`), `update` and
--            `set_timing` are input_core_update and input_core_set_timing; Input/Samples follows a key
--            over many updates, Input/Key/Grammar is the automaton of its actions.
--   Ir       components/stark_ir: `matches` and `push` are ir_timing.c, Guard is ir_tx_guard.c (`check`,
--            `rate`), Nec is ir_nec.c, Sirc is ir_sirc.c, Capture is ir_capture.c
--            (`push`, `take`).
--            Ir/Match says when a capture is close to what was sent.
--   Nfc      components/stark_nfc: Frame is pn532_frame.c (`build`, `parse`), Poll is nfc_poll.c
--            (`result`, `recovered`), Nfc/Poll/Watch follows it over many polls, Idle is its
--            nfc_idle_step.
--   Settings components/stark_settings/settings_core.c: `set_value`, `restore`, `commit_all` and `load`
--            are settings_core_set and so on; `act_all` is any sequence of calls. The children: Valid
--            and Commit hold for a store of any behaviour, Saved and Loaded for one that keeps what it
--            confirms, Durable and Reload for what of it is still there after a reboot.
--   Storage  components/stark_storage: Mount is storage_core.c (`step`, `wait_ms`) and `run` of
--            stark_storage.c, Path is storage_path.c (`path_build`, `name_valid`), Files is
--            storage_file.c (`open_file`, `read`, `write`, `close`, `discard`, `invalidate`).
--            Files/Trace follows the descriptors through the calls of the file system, Step, Lifecycle,
--            Closing and Opening are the operations' lemmas, History is any sequence of operations.
--            Rotate is log_rotate.c (`plan`, `log_name`) and `rotate` of storage_log.c, over a directory
--            of logs that Rotate/Card makes of Files.
--   Ui       components/stark_ui: Menu is ui_menu_model.c (`move`, `page`, `follow`).
--
-- How the C is read:
--   - a size_t or uint32_t keeps its wrap-around where the code can reach it: `word` is 2 ^ 32 and
--     `wrap cap i n` is `(i + n) % cap` in 32-bit arithmetic, as on the target. Rings are valid up to
--     2 ^ 31 events and 2 ^ 30 bytes, far above what the firmware allocates;
--   - a pointer that the code tests against NULL is an Option, an out parameter is a result;
--   - a buffer is the list of its bytes, with the length of the list for the length of the buffer;
--   - what runs under the injected lock is one step. Handlers of events and other tasks are a parameter:
--     the calls that they make on the bus between two of its critical sections; and so is what they
--     do to the table of modules between two sections of a tick;
--   - the bus of the module core is a parameter: what it answers at each address; so is the driver of
--     the card, by its answer to each action, the store of the settings, a table of functions, and the
--     file system, by its answer to each call;
--   - a loop runs on a count that bounds its rounds: the events allowed, the bytes or the slots left.
--     Each is the bound that the C loop itself counts to or an upper bound of it, so no loop is cut short.
--
-- Not modelled: the services and drivers around the cores (FreeRTOS, ESP-IDF), drawing, the single
-- applications, and accessors that only read a field.
pub mod Base
pub mod Err
pub mod Event
pub mod Input
pub mod Ir
pub mod Log
pub mod Module
pub mod Nfc
pub mod Settings
pub mod Storage
pub mod Ui
