-- ===== src/Session/Stale.antt =====
-- Which snapshots are older than what the session knows (static/app.js: snapshotIsStale,
-- restSnapshotIsStale).
use goclipboard.Common.{Bool, true, false, not, ◌&&◌, ltb, leb, ◌==◌, if◌then◌else◌}
use goclipboard.Session.{Session, Message, message_generation, is_some}

unfoldable pub snapshot_is_stale : Message → Session → Bool
snapshot_is_stale msg s =
    let generation = message_generation msg.generation in
    let older = s.known_exists && msg.exists && ltb msg.version s.known_version in
    if not (is_some msg.generation)
    then older
    else if ltb generation s.known_generation
    then true
    else if ltb s.known_generation generation
    then false
    else if not msg.exists && s.known_exists
    then false
    else if msg.exists && not s.known_exists
    then true
    else older

unfoldable pub rest_snapshot_is_stale : Message → Session → Bool
rest_snapshot_is_stale msg s =
    let generation = message_generation msg.generation in
    if snapshot_is_stale msg s
    then true
    else if is_some msg.generation
    then if not (generation == s.known_generation)
      then false
      else msg.exists && (if s.known_exists then leb msg.version s.known_version else true)
    else s.known_exists && msg.exists && leb msg.version s.known_version
