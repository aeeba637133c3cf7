-- ===== src/Tab/Alive.antt =====
-- What holds of the connection of a tab between two events (static/app.js: connectWS,
-- scheduleReconnect, the presence heartbeat and the beforeunload handler).
pub mod Steps
use goclipboard.Common.{
  ℕ, ◌+◌, ◌-◌, ◌≡◌, refl, sym, ap, ◌∙◌, Bool, true, false, not, Option, none, some, List, [], ◌∷◌,
  arith, leb, ◌==◌, Bool-cases, inl, inr, if◌then◌else◌, zero, suc,
}
use mathlib.Core.Path.{subst}
use goclipboard.Session.{Session}
use goclipboard.Tab.{Tab, has_some}
use goclipboard.Tab.Connection.{
  set_connected, schedule_reconnect, backoff, close_socket, open_socket, connect_ws, is_current,
  on_open, on_close, force_reconnect, leave,
}
use goclipboard.Tab.Keeps.{link}

-- What the connection is made of.
pub record View : Type 0 where
  pub has_socket : Bool
  pub has_timer : Bool
  pub polls : Bool
  pub beats : Bool
  pub connected : Bool
  pub is_open : Bool
  pub gone : Bool
  pub attempts : ℕ

abbrev pub view_of : Tab → Bool × Bool × Bool × ℕ → View
view_of t l = record {
  has_socket = has_some t.socket;
  has_timer = has_some t.reconnect_timer;
  polls = t.rest_poll;
  beats = t.heartbeat;
  connected = l.0;
  is_open = l.1;
  gone = l.2;
  attempts = l.3;
}

abbrev pub view : Tab → View
view t = view_of t (link t.session)

-- A tab that was not left and has no socket is about to make one. A timer waits only while there is no
-- socket, so that no socket is replaced. While the tab is connected it has a socket, beats, does not
-- poll and counts no attempts; and only then does it beat or is the socket open.
pub record Alive (v : View) : Type 0 where
  pub retries : v.has_socket ≡ false → v.gone ≡ false → v.has_timer ≡ true
  pub alone : v.has_timer ≡ true → v.has_socket ≡ false
  pub quiet : v.gone ≡ true → v.has_timer ≡ false
  pub joined : v.connected ≡ true → v.has_socket ≡ true
  pub streams : v.connected ≡ true → v.polls ≡ false
  pub counted : v.connected ≡ true → v.attempts ≡ 0
  pub beating : v.beats ≡ v.connected
  pub readable : v.is_open ≡ true → v.connected ≡ true

pub current_some : (k : ℕ) (o : Option ℕ) → is_current k o ≡ true → has_some o ≡ true
current_some k none h = cc h
current_some k (some s) h = refl

module _ (t : Tab) where
  schedule_reconnect-Alive :
      (jitter : ℕ)
      → has_some t.socket ≡ false
      → t.session.connected ≡ false
      → t.session.socket_open ≡ false
      → t.session.intentional_close ≡ false
      → t.heartbeat ≡ false
      → Alive (view (schedule_reconnect jitter t))
  unfolding schedule_reconnect
  schedule_reconnect-Alive jitter n c o i b = ground arith

  on_open-Alive : (now k : ℕ) → Alive (view t) → Alive (view (on_open now k t))
  unfolding on_open set_connected
  on_open-Alive now k a = elim (Bool-cases (is_current k t.socket)) [
    | inr stale ↦ rw stale a
    | inl current ↦
        let here = current_some k t.socket current in
        rw current (record {
          retries = λ n g. cc (n, here);
          alone = λ n. cc (a.alone n);
          quiet = a.quiet;
          joined = λ c. here;
          streams = λ c. refl;
          counted = λ c. refl;
          beating = refl;
          readable = λ o. refl;
        })
  ]

  on_close-Alive : (jitter k : ℕ) → Alive (view t) → Alive (view (on_close jitter k t))
  unfolding on_close set_connected schedule_reconnect
  on_close-Alive jitter k a = elim (Bool-cases (is_current k t.socket)) [
    | inr stale ↦ rw stale a
    | inl current ↦ elim (Bool-cases t.session.intentional_close) [
      | inl gone ↦ rw (current, gone) (ground (arith, a.quiet gone))
      | inr stays ↦ rw (current, stays) (ground arith)
    ]
  ]

  close_socket-Alive : Alive (view t) → Alive (view (close_socket t))
  unfolding close_socket
  close_socket-Alive a = ground arith

  connect_ws-Alive :
      (throws : Bool) (jitter : ℕ)
      → has_some t.reconnect_timer ≡ true
      → Alive (view t)
      → Alive (view (connect_ws throws jitter t))
  unfolding connect_ws close_socket open_socket schedule_reconnect set_connected
  connect_ws-Alive throws jitter due a = ground arith

  leave-Alive : Alive (view t) → Alive (view (leave t))
  unfolding leave close_socket
  leave-Alive a = ground arith
