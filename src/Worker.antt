-- ===== src/Worker.antt =====
-- The worker of a device: tasks/handlers.go, tasks/pccn_handlers.go, and the table of its handlers in
-- cmd/worker/main.go.
pub mod Reply
pub mod Params
pub mod Vpc
pub mod Other
pub mod Pccn
pub mod Table
pub mod Sent
pub mod Outcome
pub mod Answer
pub mod Loop
pub mod Refused
pub mod Served
pub mod Complete
mod Tests
