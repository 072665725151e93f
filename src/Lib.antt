-- ===== src/Lib.antt =====
-- A verification library of mastomini, a small social-network server that keeps its state in a
-- key-value store (mastomini_rs), with a companion cloud (minicloud_rs) and bots (mastomini_bots).
--
-- Parts, and the files that model them:
-- mastomini_rs/src/ids.rs, the ids: Ids.antt and Ids/. `next`, `observe`, `b32` and `from_b32` keep
-- their names. 64-bit integers are naturals, with the checks where the source has them.
-- mastomini_rs/src/store/mod.rs, the namespaces, keys, limits and the `Store` trait: Store/Base.antt,
-- Store/Key.antt, Store/Trait.antt. The trait is a record of operations over a state; each
-- operation returns its result and the state as it leaves it, on errors too. A visitor takes and
-- returns the variables that it captures. Store/Contract.antt says what the trait promises, over
-- the view of a store as a partial function.
-- mastomini_rs/src/store/mem.rs: Store/Mem.antt (`MemStore`, its `BTreeMap` an association list in
-- key order) and Store/Fault.antt (`FaultStore` around any store).
-- mastomini_rs/src/store/file.rs: Store/File.antt. A file is the list of its bytes; what the
-- operating system does to an append is a value, `Fate`. The hash of the crate crc32fast is a
-- parameter, with its bound of 2^32 as the hypothesis `crc32_bound`.
-- mastomini_rs/src/codec.rs, the records' bytes: Domain/Codec.antt. The crate postcard is a parameter,
-- that its reader takes back what its writer writes is the hypothesis `taken_back`.
-- mastomini_rs/src/domain/mod.rs, the writes of the service: Domain/Writer.antt (`put`, `erase`,
-- `writable` and the latch of `map_store_error`, with the caches that a write drops, whose contents
-- are left open) and Domain/Governor.antt (`govern`; `none` is the panic of an index out of bounds).
-- Domain/Keys.antt has the functions of its `keys` and the letters of slots; an error there stands for
-- the panic of `expect`.
-- The state in RAM and its readers, of mastomini_rs/src/domain/mod.rs and
-- mastomini_rs/src/domain/records.rs: Domain/State.antt, Domain/State/Relations.antt. The state has
-- the tables that the operations below use, accounts and statuses the fields that these read; an
-- account's table is the list of its slots. Who sees what (`can_see` and `visible` of
-- mastomini_rs/src/domain/query.rs, `wants_notification`, muted threads): Domain/State/Visible.antt.
-- Domain/Server.antt puts the state beside what the writes stand on. A method takes the server and
-- returns its result and the server as it leaves it, on errors too; do blocks chain methods as `?`
-- does. An `expect` that would fail is the error `panic`. Domain/Server/Logic.antt and
-- Domain/Server/Aside.antt are the program logic for methods.
-- The operations, over any store: Domain/Notify.antt (mastomini_rs/src/domain/notifications.rs and
-- `notify_about`), Domain/Requests.antt (mastomini_rs/src/domain/follow_requests.rs),
-- Domain/Lists.antt (mastomini_rs/src/domain/lists.rs), Domain/Blocks.antt (`set_block` and `set_mute` of
-- mastomini_rs/src/domain/moderation.rs) and Domain/Codes.antt (mastomini_rs/src/domain/codes.rs, and
-- `require_admin` and `require_power_over`). The hash of the crate sha2 is a parameter, the random
-- secret of a code an argument. Titles are lists of Unicode scalar values, with `trim` and the length
-- in UTF-8 bytes in Prelude/Text.antt.
-- Domain/Mirror.antt and Domain/Mirror/ relate the tables in RAM to the store: a row of a table, the
-- name of its record and the record, and the steps of the operations on them.
-- `load` of mastomini_rs/src/domain/mod.rs, the service's only way to enumerate: Store/Trait.antt.
-- minicloud_rs/src/broker.rs, the message hub: Cloud/Hub.antt. The crate mqttbytes, which tests topics
-- and filters and writes packets, is a record of functions.
-- Both `FileStore` and the service stand on the operations of the `Store` trait.
--
-- Fuel: the loop of `replay` runs on fuel, one more than the number of bytes; each turn takes at least
-- the eight bytes of a record's header, so that it never runs out. The loop of `make_room`, in which
-- `issue_code` sends codes away, runs on the number of codes; each turn takes one away.
--
-- Not modelled: the lock file and the compaction of `FileStore`, the text of errors beyond the
-- arguments of their format strings, paging, timelines and search, the boot of the service with its
-- repairs, accounts, statuses, reports, filters, polls and the other operations of the service,
-- redeeming a code, the HTTP servers and the web client, the firmware, the bots,
-- and of the cloud all but the hub.
pub mod Prelude
pub mod Ids
pub mod Store
pub mod Domain
pub mod Cloud
