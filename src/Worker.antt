-- ===== src/Worker.antt =====
-- src/moodle_autotask/adapters/aws/worker.py: one cycle of the worker.
pub mod Types
pub mod Submit
pub mod Execution
pub mod Notify
