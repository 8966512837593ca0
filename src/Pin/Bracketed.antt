-- ===== src/Pin/Bracketed.antt =====
-- Runs of the Pin tool on programs whose annotations are bracketed.
