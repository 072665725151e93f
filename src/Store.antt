-- ===== src/Store.antt =====
-- mastomini_rs/src/store/mod.rs: namespaces, errors, limits, and the `Store` trait as a record of
-- operations over a state. The types are in Store/Base.antt, the keys are in Store/Key.antt, the stores in Store/Mem.antt,
-- Store/Fault.antt and Store/File.antt.
pub mod Base
pub mod Key
pub mod Trait
pub mod Contract
pub mod Mem
pub mod Fault
pub mod File
mod Tests
