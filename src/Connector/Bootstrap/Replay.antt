-- ===== src/Connector/Bootstrap/Replay.antt =====
-- A registration can be repeated.
