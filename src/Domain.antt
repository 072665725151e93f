-- ===== src/Domain.antt =====
-- mastomini_rs/src/domain and mastomini_rs/src/codec.rs: the service over a store.
pub mod Base
pub mod Codec
pub mod Writer
pub mod Governor
pub mod Keys
pub mod State
pub mod Server
pub mod Notify
pub mod Requests
pub mod Lists
pub mod Blocks
pub mod Codes
pub mod Mirror
mod Tests
mod ServerTests
