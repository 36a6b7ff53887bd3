-- ===== src/Lib.antt =====
-- notifs-piper: a daemon that takes the desktop notifications of the session bus, keeps a log of
-- them, and pipes them to the processes that ask for them.
--
-- The program. Four kinds of threads share one queue of jobs (`SyncList`) and one channel of signals.
-- The bus interface (src/server/dbus.rs) turns calls of `notify` and `close_notification` into jobs;
-- the listener (src/server/listener.rs) turns the requests of clients into jobs; a thread for each
-- notification that expires queues its close (src/server/jobs/broadcast.rs); each of them pushes a
-- job and sends a signal. The manager's thread (src/server/mod.rs, src/server/manager.rs) receives a
-- signal, runs the first job (src/server/jobs), writes the logs when the queue is drained, and sends
-- the answer to the listener's socket, in the text format of src/server/transmission.rs.
--
-- The files.
--   Common: the shared names, lists over the native numbers, the Boolean tests, and `Outcome`, the
--     result of code that may return an error or panic.
--   Text: `str` as its bytes: `split_once`, the parser and the printer of unsigned integers.
--   Payload: the macros `split_once!` and `parse!` of src/utils/macros.rs, and `PayloadError`.
--   Flags, Event, Job: the data of src/server/jobs/mod.rs and src/server/dbus.rs. The trait objects
--     `Box<dyn Job>` are one data type with a constructor for each struct. Job/Wire has the parsers and
--     printers of all jobs, with `unreachable!` and `unimplemented!` as panics.
--   Fulfilled, Transmission: the answers and the frame of every message.
--   Manager: `LogsManager` of src/server/manager.rs and its operations on the buffer, in child modules
--     by what they are about: how long the buffer is (Retention), removals, readings, timeouts, and the
--     buffer as a store by ids (Store).
--   Execute: `Job::execute` of each job, on the manager, the timers and the signals that were emitted
--     (Bus); Closing and Answers are about their results, Later and Invariants about what all of them keep,
--     Spec says what each job may do to the store and answer; Refinement and Results compare the two;
--     Total is about the jobs that always succeed, Wiring about the copies of the channel in the timers.
--   Exec: `LogsManager::exec`, on the queue, the logs file and the texts sent to the socket.
--   Startup: `LogsManager::new`, on the logs file and its backup.
--   Dbus: `Notifications` of src/server/dbus.rs, on the counter and the channel.
--   Socket: `Listener::read` and `Listener::write`, on what the system answers to each call of them.
--   Listener: the task of one connection of src/server/listener.rs, on the maps of waiting and watching
--     processes and on what was written to the streams. Tasks has these tasks side by side, with a lock
--     as the grain of a step; Order has two listeners whose maps are walked in different orders.
--   Server: the threads of src/server/mod.rs as a step relation, with its reachable states. Session has
--     the calls of `notify` as steps of their own, with the counter; Boot is `start` up to the threads;
--     History has the jobs of a run as pushed and as executed, and a serial server on the store;
--     Draining is about how the queue is worked off, Restart about the file that a run leaves.
--   Cli, Client: the command line (src/cli.rs) and the commands that talk to the daemon (src/main.rs);
--     Client/Exchange follows a request from the client to the manager and its answer back,
--     Client/Crowd the requests of many clients and their answers, Client/Dismissing a close and the
--     queries behind it, and Client/Watching the broadcasts from the listener to a client that watches.
--   Logger: the lines of src/utils/logger.rs and the switch of the debugging lines.
--   Tests: an instance of the interface of `serde_json`, and the theorems on concrete values.
--
-- The state. A `VecDeque` is a list, front first. A `String` is a list of bytes: all delimiters are
-- ASCII. Integers are natural numbers with their wrap-around and their range written out: `u32` ids and
-- pids, `u16` counts and timeouts, the `u8` of the flags; `i32` is `ℤ`. The sums that may overflow (the
-- counter, a window, the end of a timeout in `u128`) panic or wrap around by the profile of the build. A panic ends the thread and is an
-- outcome of its own; an error that `exec` returns ends the manager's thread too.
--
-- What is outside. `serde_json` is the interface `Serde`, with the laws that a printed value is
-- read back and is not empty, and that `[]` is the empty list. The test of
-- `str::from_utf8`, the answers of the system to reads and writes, and what fails at the start are
-- parameters. The clocks, the runtime and the bus during one job are `Env`, the errors of the file
-- and of the socket `Io`. The wall clock is taken to stand behind the epoch, as the source's
-- `unwrap` asks. The values of the hints are never read, so their type is a parameter.
--
-- Recursion is structural; only the printer of numbers has fuel, the number itself, which is not less
-- than the number of its digits. The loops over streams go through the list of the system's answers, and
-- wait where it ends.
--
-- Not modelled: which lines the parts print on the terminal; the poison of a lock; the loop of `listen`
-- that accepts connections and ends on an abort; the macros around the runtime of tokio
-- (src/utils/macros.rs); and what zbus and clap derive. A thread poisons a lock when it panics while it
-- holds it. `push_job` of src/server/dbus.rs does so when the manager is down, and the task of a
-- connection when it reads an `Acknowledge` from a text that is no notification, with the lock of the
-- queue held; the lock then makes `exec` panic, and the next request abort the listener. Here such a
-- panic is the end of that one call, and the steps of the threads are those of threads that have not
-- panicked so.
pub mod Common
pub mod Text
pub mod Payload
pub mod Flags
pub mod Event
pub mod Job
pub mod Fulfilled
pub mod Transmission
pub mod Manager
pub mod Execute
pub mod Exec
pub mod Startup
pub mod Dbus
pub mod Server
pub mod Socket
pub mod Listener
pub mod Cli
pub mod Client
pub mod Logger
mod Tests
