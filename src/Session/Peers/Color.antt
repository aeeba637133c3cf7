-- ===== src/Session/Peers/Color.antt =====
-- The colour in which a peer is drawn (static/app.js: colorForPeer).
use goclipboard.Common.{not, Option, none, some, [], ◌∷◌, if◌then◌else◌}
use goclipboard.Text.{Text, ◌===◌}
use goclipboard.Dict.{Dict, get}
use goclipboard.Session.Colors.{pick_color}
use goclipboard.Session.Peers.{Peer, peer_used_colors}

known_color : Option Peer → Text
known_color none = []
known_color (some p) = p.color

-- `shown` is the cursor that is drawn, where there is one.
unfoldable pub color_for_peer : Text → Text → Dict Peer → Text → Option Peer → Text
unfolding known_color
color_for_peer self self_color peers id shown =
    if id === self
    then self_color
    else if not (known_color shown === [])
    then known_color shown
    else if not (known_color (get id peers) === [])
    then known_color (get id peers)
    else pick_color id (self_color ∷ peer_used_colors peers)
