-- ===== src/Page.antt =====
-- The page around the editor (static/app.js): the TTL field, the dialogs, uploads, the version history
-- and passwords. What is typed or chosen, and what the server answers, are arguments.
pub mod Ttl
pub mod Dialogs
pub mod Uploads
pub mod History
pub mod Passwords
