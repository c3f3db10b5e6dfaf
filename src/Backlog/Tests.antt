-- ===== src/Backlog/Tests.antt =====
-- The backlog's theorem at a task with a dependency.
