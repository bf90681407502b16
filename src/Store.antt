-- ===== src/Store.antt =====
-- src/store.rs: the actor that owns the database. `State` has its data, `Load` reads the table back,
-- `Core` has the operations of `StoreCore`; the other modules prove what they do.
pub mod State
pub mod Load
pub mod Core
pub mod Coherent
pub mod Transaction
pub mod Reopen
pub mod Create
pub mod Delete
pub mod Listing
pub mod Progress
pub mod Spawn
