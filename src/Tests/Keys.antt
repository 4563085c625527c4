-- ===== src/Tests/Keys.antt =====
-- A rotation on both ends of a session.
