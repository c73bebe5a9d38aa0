-- ===== src/MessageType/Examples.antt =====
-- Concrete codes.
