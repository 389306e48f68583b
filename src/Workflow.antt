-- ===== src/Workflow.antt =====
-- internal/orchestration: the manager that runs the steps of a workflow one after the other. A step
-- is published to its device's queue; the worker's reply publishes the next.
pub mod Manager
pub mod Submit
pub mod Reply
pub mod Counters
pub mod Metadata
pub mod Steps
pub mod Advance
pub mod Run
pub mod Begin
pub mod Lost
pub mod Failure
pub mod Inserted
pub mod Submitted
pub mod Duplicates
pub mod Once
