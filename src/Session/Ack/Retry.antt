-- ===== src/Session/Ack/Retry.antt =====
-- Sending again after an answer that asked for a password (static/app.js: handleAck, flushPending).
use goclipboard.Session.{Session}
