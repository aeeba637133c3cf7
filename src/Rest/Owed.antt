-- ===== src/Rest/Owed.antt =====
-- What an answer to a save leaves behind (static/app.js: putReplace).
use goclipboard.Common.{◌≡◌, Bool, true, ◌||◌}
use goclipboard.Text.{Text, ◌===◌}
use goclipboard.Session.{Session, composition_is_active}
use goclipboard.Tab.{has_some}
use goclipboard.Rest.{Saver, wants_put}

-- Whether the text of the editor is the one that the server has, or a save of it is still to come: the
-- timer is set, the password is asked for, or a composition holds the merge back.
abbrev pub owed_or_synced : Saver → Bool
owed_or_synced s =
    has_some s.put_fallback_timer
    || (s.asking
        || (s.session.content === s.session.last_synced_text || composition_is_active s.session))

abbrev IsCovered : Saver → Type 0
IsCovered s = owed_or_synced s ≡ true

-- A merge holds itself back, is in step with the server, or asks for a save.
data Merged (t : Session) : Type 0 where
  held_back : composition_is_active t ≡ true → Merged t
  in_step : (t.content === t.last_synced_text) ≡ true → Merged t
  asks : wants_put t.effects ≡ true → Merged t
