-- ===== src/ErrorCode/Examples.antt =====
-- A concrete error code.
