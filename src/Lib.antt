-- ===== src/Lib.antt =====
-- Rtain: a container manager. A daemon keeps the metadata of containers and networks and answers
-- the commands of a client over a socket.
--
-- The parts, the code that each file models, and how they meet:
--   * Metas: src/core/metas. `Types` and `Container` are the records of meta.rs, `Apply` is
--     `InnerState::apply_operation`. `Wal` is `WalManager` of wal.rs: `Disk` the files and the
--     writer, `Read` the two readers, `Archive` rotation and purge, `Compact` compaction, `Check`
--     the integrity check. `Folder` and `Snapshot` are snapshot.rs. `Storage` is
--     `StorageManager` of storage.rs: recovery, the worker (`handle_request`: the log first, then
--     the memory) and the two timers (`snapshot_tick`, `cleanup_tick`) as steps on the state
--     behind the lock, which they hold for the whole step. `Manager` and `Query` are
--     `ContainerManager` and `ContainerFilter`, `Event` the event of an operation.
--   * Network: src/core/network. `Ipam` is ipam.rs, over the bitmaps of the crate bitvec (`BitVec`:
--     a parameter with its documented laws); `Bridge` is `create_network` of the driver of
--     bridge.rs and `Link` its methods on rtnetlink and iptables; `Networks` is the handler
--     `create_network` of network.rs, and `Networks.Load` is `load`.
--   * Cmd: the arguments of the commands and `parse_memory_size`, src/core/cmd.rs.
--   * Msg: the messages and their frames, src/core/msg.rs.
--   * Container: src/core/container. `Stop`, `Remove` and `Report` are the handlers of stop.rs,
--     rm.rs, list.rs and commit.rs; `Run` is `run_container` and `run_prepare` of init.rs with
--     `new_workspace` of image.rs, whose layers are `Layers`; `Enter` is start.rs and exec.rs.
--     `Attach` is `do_run` of init.rs, and `Session` its tasks, which run in any order: a list of
--     events is a schedule, and `step` says which event is possible and what it does. `Child` is
--     what runs in the cloned processes, as sequences of calls of the kernel. The handlers work on
--     a `World`: the storage, the calls made to the host, the messages sent and the bytes behind
--     them. What the host and the kernel answer is a parameter.
--   * Daemon: `handler` of src/core/mod.rs, which brings a request to its handler; its state has
--     the `World` and the networks. A `Turn` is a connection or a tick of one of the storage's
--     timers, and `serve_each` the loop of `run_daemon` over them; `Daemon.Start` is what
--     `run_daemon` does before. What they do to the storage is followed as `Moves`. Front:
--     src/front, what a client prints for the bytes that the daemon has written on its connection.
--   * Base: shared types and lemmas. Tests: the theorems at concrete inputs.
--
-- Conventions. A fallible function gives an `Outcome`: a value, an error with its text, or a panic
-- (a failed `unwrap`, a slice out of range, an overflow in a debug build). The build is a
-- parameter `Profile` where arithmetic may overflow. A reading of the clock is an argument; a
-- batch has a reading for each member, by its path. The serializer bincode is a parameter
-- (`Codec`), with the law that what was serialized is read back and that a buffer holds less than
-- 2 ^ 63 bytes. A disk takes a write whole, refuses to open the file, or takes the first bytes;
-- a write to the log is taken as done before the log is used again, although the file of tokio is
-- not flushed, and a failure of its last part is not reported.
-- A hash map is a list of entries; nothing depends on their order.
--
-- Fuel: the loop of the log's readers takes as many rounds as the file has bytes, which is enough
-- since each round consumes eight bytes or more; `none` stands for running out, and never occurs.
-- The loop of a client that copies output takes a round more than there are bytes.
--
-- Not modelled: the socket, the daemon's handlers side by side (a handler runs from its lookup to
-- its end before the next begins; the storage's lock makes single requests atomic), the copy of a
-- client's keyboard, the parser of the command line, `random_id`, and the task that goes on
-- reading a terminal when its session has been left. A partial write to a client is taken whole.
-- Texts that are trimmed, lowercased or parsed are of ASCII characters.
pub mod Base
pub mod Metas
pub mod Network
pub mod Cmd
pub mod Msg
pub mod Container
pub mod Daemon
pub mod Front
pub mod Tests
