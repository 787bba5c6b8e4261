-- ===== src/Lib.antt =====
-- Verification library of datad, the data service of the U60 Pro (rust/). The service reads the
-- device's state over ubus, serves it to clients over HTTP, and carries out writes that must not
-- leave the device without a network.
--
-- The parts, and how they interact. The executor (rust/src/executor.rs) runs one task at a time. In
-- each round it reads the blocks that are due through the ubus client (rust/src/ubus/client.rs),
-- whose messages rust/src/ubus/blob.rs encodes, and hands the replies to the hub of blocks
-- (rust/src/block.rs), which numbers the changes and sends them to the subscribers of /v2
-- (rust/src/v2.rs). It also feeds the packet counters to rust/src/cell_window.rs, whose answer stands
-- in the state for clients. A write request goes to the engine (rust/src/ops/engine.rs), which makes a
-- transaction of it (rust/src/ops/txn.rs), feeds it with readings of the device and with the time,
-- and sends the write, and the rollback when the transaction orders one. Any other write becomes a job
-- of the executor (rust/src/server/write.rs), which carries out the action (rust/src/control.rs) and
-- keeps a journal (rust/src/ops/record.rs).
--
-- Common: wrapping arithmetic of unsigned integers, methods of `Option` and `Result`, lists over
-- native numbers.
--
-- Txn: rust/src/ops/txn.rs. `Txn/Types` has the data (`Txn`, `Phase`, `Reason`, `Intent`, `Reading`),
-- `Txn/Judge` and `Txn/Verdict` the pure checks (`sim_check`, `new_conn`, `data_gate`,
-- `wants_probe`, `data_judge`), `Txn/Ops` and `Txn/Resume` the operations (`begin_apply`, `applied`,
-- `start_rollback`, `rollback_sent`, `on_reading`, `on_tick`, `revert`, `keep`, `cancel`, `resume`,
-- `remaining_ms`) under the names of the source. A method on `&mut self` returns the new transaction
-- first. `Txn/Machine` is the environment: a list of events of the engine, run one by one. The other
-- modules hold proofs: `Shape` and `Table` (which states are reached), `Final`, `Rollback`,
-- `Evidence`, `Deadline`, `Probes`, `Restarts`. Milliseconds since boot and wall clock seconds are
-- natural numbers; where the source subtracts with saturation so does the model.
--
-- Hub: rust/src/block.rs. `Hub/Blocks` has blocks, policies and events, `Hub/Publishing` has
-- `Hub::publish`, `Hub/Reads` has `due`, `mark_immediate`, `record_read`, `shape` and
-- `reshape_dependents`, `Hub/Rounds` has `expire_locked`, `round_end`, heartbeats, `snapshot_with`
-- and `legacy`. The sink is the list of the events emitted, in order. JSON values (serde_json) are a
-- parameter with their equality; so is `signal_crosses`, which compares floating point numbers.
-- `Hub/Replay` is a subscriber: it takes the snapshot and replaces a block for each event;
-- `Hub/Copies` is one that also takes the times of observation from heartbeats, which a read may
-- change without an event. `Observed`, `Sweeps`, `Mirror` and `Recent` are proofs. An index past the end panics in the source, `none` here.
--
-- Blob: rust/src/ubus/blob.rs. `Blob/Bytes` has big-endian numbers, `Blob/Attrs` attributes
-- (`parse_attrs`, `put_attr`), `Blob/Frame` frames (`encode_frame`, `decode_head`, `read_frame`),
-- `Blob/Values` the values in attributes and `msg_attrs`, `Blob/Message` the blobmsg form of JSON
-- values (`blobmsg_put_json`, `decode_at`), where the bytes of a text, their decoding and the rounding
-- of a `u64` to a double are parameters; `decode_at` counts the levels that are left of `MAX_DEPTH`,
-- so it needs no fuel. `Parse`, `RoundTrip`, `Stream` and the children of `Message` are proofs. A byte is a number below 256. The loop of `parse_attrs` runs on the fuel `length buf`,
-- which is enough since each attribute takes at least its four byte header. The stream that
-- `read_frame` reads is a parameter: `read_exact` of tokio, which fills the buffer or fails.
--
-- Engine: rust/src/ops/engine.rs over Txn. `Engine/State` has the state with the files of the store
-- (`World`) and what writes them (`remember`, `retire`, `persist`, `finish`), `Engine/Submit` the
-- parts of `submit` between its waits, `Engine/Drive` those of `drive` and `send_rollback`,
-- `Engine/Active` the calls that end or change the transaction in progress, `Engine/Legacy` the
-- queue of old requests with its task, `Engine/Sessions` the sessions of the network search.
-- `Engine/Steps` puts them together: `Call` is what may happen while the lock is held, in any
-- order, and `boot` is a start of datad with what the store held. `Stored`, `Invariant`, `Calls`,
-- `Changes`, `Submitting`, `Life`, `Writes`, `Rollbacks`, `Refusals` and `Crash` are proofs. The
-- source reads the clock where it needs it; here each function takes one time. `boot` is the
-- construction and `start` in one, since writes are let in after `start`. The device's answers are
-- arguments. A file is a value; as in the source, the store may have no directory and a write may
-- fail, and the engine goes on: the call `disk_call` and the first argument of `boot` say whether the
-- writes of the calls that follow reach the disk, all of one call or none, and `lost` that one has not.
--
-- Uci: rust/src/uci.rs. `Uci/Lexer` has the lexer with its in-place buffer, `Uci/Strings` what
-- reads words with it (`parse_str`, `next_arg`), `Uci/Parser` the commands and `parse`, `Uci/Show`
-- what is read out of a package (`quote`, `type_refs`, `render_show`, `get`, `choose`, `load`). The
-- loops run on the room that is left: twice the bytes still to be read, and those of the buffer
-- behind the place of the lexer; every pass takes room, so it is enough. The two files and the
-- decimal writing of a number are parameters. The other modules of Uci hold proofs.
--
-- Sms: `list_after_with` of rust/src/sms.rs. `Sms/Listing` has it, over the reading of a page, which
-- is a parameter; a message is its id with its other fields. A store is read for twenty pages at most,
-- as in the source. `Found`, `Bodies`, `Seeing` and `Complete` are proofs.
--
-- CellWindow: rust/src/cell_window.rs. `CellWindow/Ring` has `push`, `lose`, `window` and `sample`,
-- with the oldest sample first; `CellWindow/Window` has proofs.
--
-- Auth: rust/src/auth.rs. `Auth/Bits` has `secure_eq`, `Auth/Sessions` has `Sessions::validate` and
-- `Sessions::issue`, `Auth/Validity` proofs. A token is the list of its bytes; the clock's readings
-- and the random bytes are arguments.
--
-- Executor: rust/src/executor.rs. `Executor/Queue` has `Shared::push` and `Shared::drain`, over what
-- is pushed while each job runs; `Executor/Liveness` has `Liveness`, `Executor/Calls` has
-- `Shared::raw_call`, `cooling`, `legacy_cut`, `reopen_gate` and `call_here` with the `RoundSkips` of
-- rust/src/ubus/client.rs, over a backend and a clock; `Executor/Draining` and `Executor/Gate` are
-- proofs. A drain makes as many passes as there were jobs when it began, the gate four probes.
--
-- Json: the value type of serde_json that the modules below share, with the look-ups they use.
-- A number is a `u64`, a negative `i64` or the bits of a double; the texts of numbers and of values
-- (`to_string`) are parameters.
--
-- Control: rust/src/control.rs, every action of `execute`. `Control/Program` is what an action asks
-- of its surroundings, one node for each request (a call of the device, an AT command, a child
-- process, a file operation, a sleep, the two actions that rust/src/sms.rs answers), with
-- `state::ubus` on it. `Control/Params` has the outcomes and the readers of parameters (`string`,
-- `integer`, `boolean`, `mapped`, `mapped_call`), `Control/Network` the actions of the mobile network,
-- `Control/Power` the direct supply with `poll_until`, `Control/Usb` the modes of the port,
-- `Control/Wifi` with its children `wifi_module`, `wifi_apply`, `wifi_power_save`, the radio sections
-- of rust/src/wifi.rs and `uci_write` of rust/src/state.rs, `Control/Vendor` the vendor calls, DNS
-- over HTTPS, NFC and `sms_db_delete`, `Control/Execute` the table of actions. `Env` holds what is
-- read from the surroundings: the paths of programs and files, and the radio sections that the caches
-- of rust/src/wifi.rs hold. `Runs` gives the answers: a `Run` is any list of requests with any
-- answers that a program may meet. `Listed` says which calls, commands and files are allowed;
-- `Permitted` and its children are proofs. What rust/src/sms.rs and rust/src/at.rs do to answer a
-- request of theirs, its calls and waits included, is outside the model. A decimal number is written with twenty digits at most, enough for 64 bits.
--
-- Record: rust/src/ops/record.rs. `Record/Redact` has `redact` with its words, `Record/Skips` has
-- `append`, `skip` and `emit` over a channel of bounded room, where the lines themselves are a
-- parameter. `Clean`, `Accounted` and `Merging` are proofs.
--
-- Requests: rust/src/server/write.rs, how a write request passes through the engine, the executor and
-- the journal, with rust/src/ops/spec.rs. `Requests/Actions` says what kind of action it is,
-- `Requests/Routes` has `ops_route`, `Requests/Handling` has `handle` up to the executor, what it does
-- when that is full, and `control_job` before and after the action. `submit` is a decision of
-- `handle`, its steps are in Engine. An answer is its status and its code; texts and documents are
-- left out. `Outcomes`, `Refusing` and `Urgent` are proofs.
--
-- Not modelled: locks and threads around the state (each operation takes one lock for its whole
-- run), sockets, processes, files and JSON documents for clients. Of the parts with logic of their
-- own, the main loop and the rounds of the executor, the polling of the state, the projections for
-- clients and the choice of a bearer in rust/src/qos.rs are not modelled; of the engine, the JSON views
-- and the waking of its tasks are not.
pub mod Common
pub mod Txn
pub mod Blob
pub mod CellWindow
pub mod Hub
pub mod Auth
pub mod Executor
pub mod Engine
pub mod Uci
pub mod Sms
pub mod Json
pub mod Control
pub mod Record
pub mod Requests
