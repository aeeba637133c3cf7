-- ===== src/Session/Remote/Order.antt =====
-- Batches are taken in the order of their versions (static/app.js: handleRemoteOps).
use goclipboard.Common.{
  ℕ, ◌+◌, ◌-◌, ◌≡◌, ◌≢◌, refl, inl, inr, Bool, false, not, ◌&&◌, [], ◌∷◌, ◌++◌, arith, ltb, leb,
  ◌==◌, Bool-cases, if◌then◌else◌,
}
use goclipboard.Session.{
  Session, Message, ops_message, message_generation, is_some, composition_is_active,
}
use goclipboard.Session.Sync.{request_sync, sync_interval_ms}
use goclipboard.Session.Remote.{from_self, take_echo, take_peer, handle_remote_ops}

-- The document, the pending operations and the known version are as before.
abbrev pub Kept : Session → Session → Type 0
Kept s t = (t.doc ≡ s.doc) × (t.pending_ops ≡ s.pending_ops) × (t.known_version ≡ s.known_version)

pub request_sync-Kept : (now : ℕ) (s : Session) → Kept s (request_sync now s)
unfolding request_sync
request_sync-Kept now s =
    elim (Bool-cases
      (not (s.sync_requested_at == 0) && ltb (now - s.sync_requested_at) sync_interval_ms)) [
        | inl recent ↦ rw recent (refl, refl, refl)
        | inr due ↦ elim (Bool-cases s.socket_open) [
          | inl on ↦ rw (due, on) (refl, refl, refl)
          | inr off ↦ rw (due, off) (refl, refl, refl)
        ]
      ]

-- What a message may lead to: nothing but a deferral or a request for a snapshot, or the batch that
-- follows the known version is taken.
pub data Handled (now : ℕ) (msg : Message) (s : Session) : Session → Type 0 where
  held : Handled now msg s (record s { deferred = s.deferred ++ ops_message msg ∷ [] })
  dropped : Handled now msg s s
  resync : Handled now msg s (request_sync now s)
  echo : msg.version ≡ s.known_version + 1 → Handled now msg s (take_echo msg s)
  peer : msg.version ≡ s.known_version + 1 → Handled now msg s (take_peer now msg msg.ops s)

module _ (now : ℕ) (msg : Message) (s : Session) where
  next_version :
      leb msg.version s.known_version ≡ false
      → ltb (s.known_version + 1) msg.version ≡ false
      → msg.version ≡ s.known_version + 1
  next_version a b = ground arith

  by_sender :
      msg.version ≡ s.known_version + 1
      → Handled now msg s (if from_self msg s then take_echo msg s else take_peer now msg msg.ops s)
  by_sender next = elim (Bool-cases (from_self msg s)) [
    | inl own ↦ rw own (echo next)
    | inr others ↦ rw others (peer next)
  ]

  by_version : Handled now msg s (
      if leb msg.version s.known_version
      then s
      else if ltb (s.known_version + 1) msg.version
      then request_sync now s
      else if from_self msg s
      then take_echo msg s
      else take_peer now msg msg.ops s)
  by_version = elim (Bool-cases (leb msg.version s.known_version)) [
    | inl old ↦ rw old dropped
    | inr newer ↦ elim (Bool-cases (ltb (s.known_version + 1) msg.version)) [
      | inl gap ↦ rw (newer, gap) resync
      | inr next ↦ rw (newer, next) (by_sender (next_version newer next))
    ]
  ]

  abbrev has_generation : Bool
  has_generation = is_some msg.generation

  pub handle_remote_ops-Handled : Handled now msg s (handle_remote_ops now msg s)
  unfolding handle_remote_ops
  handle_remote_ops-Handled = elim (Bool-cases (composition_is_active s)) [
    | inl busy ↦ rw busy held
    | inr idle ↦
        elim (Bool-cases
          (has_generation && ltb (message_generation msg.generation) s.known_generation)) [
            | inl old ↦ rw (idle, old) dropped
            | inr a ↦
                elim (Bool-cases
                  (has_generation && ltb s.known_generation (message_generation msg.generation))) [
                    | inl newer ↦ rw (idle, a, newer) resync
                    | inr b ↦
                        elim (Bool-cases (has_generation && (not s.known_exists && msg.exists))) [
                          | inl created ↦ rw (idle, a, b, created) resync
                          | inr c ↦ rw (idle, a, b, c) by_version
                        ]
                  ]
          ]
  ]

-- A batch whose version is not the one behind the known version changes neither the document nor
-- the pending operations nor the known version.
pub handle_remote_ops-Kept :
    (now : ℕ) (msg : Message) (s : Session)
    → msg.version ≢ s.known_version + 1
    → Kept s (handle_remote_ops now msg s)
handle_remote_ops-Kept now msg s skips = kept (handle_remote_ops-Handled now msg s)
  where
    kept : {t : Session} → Handled now msg s t → Kept s t
    kept held = (refl, refl, refl)
    kept dropped = (refl, refl, refl)
    kept resync = request_sync-Kept now s
    kept (echo next) = absurd (skips next)
    kept (peer next) = absurd (skips next)
