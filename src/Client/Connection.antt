-- ===== src/Client/Connection.antt =====
-- internal/akira-client/connection: outbox.go, run.go and session.go. The outbox is a record, and
-- its methods are its critical sections; submitLoop is a machine whose steps other goroutines come
-- between.
pub mod Outbox
pub mod Submit
pub mod Wakeups
pub mod Order
pub mod Drain
pub mod Session
mod Tests
