-- ===== src/Requests.antt =====
-- What happens to a request of `POST /control` (rust/src/server/write.rs), with the table of the actions
-- that go through a transaction (rust/src/ops/spec.rs).
pub mod Actions
pub mod Routes
pub mod Handling
pub mod Outcomes
pub mod Refusing
pub mod Urgent
mod Tests
