-- ===== src/Worker.antt =====
-- src/worker: the threads that call a handler again and again.
pub mod Looper
