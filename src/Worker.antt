-- ===== src/Worker.antt =====
-- What the worker decides before it generates: src/worker/runtime.
pub mod Summary
pub mod Budget
