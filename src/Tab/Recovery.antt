-- ===== src/Tab/Recovery.antt =====
-- A tab comes back (static/app.js: onclose, scheduleReconnect, connectWS and onopen after each other).
use goclipboard.Common.{
  ℕ, ◌≡◌, refl, sym, ap, ◌∙◌, Bool, true, false, Option, none, some, List, [], ◌∷◌, ◌++◌, arith,
  if◌then◌else◌, ◌==◌,
}
use mathlib.Core.Path.{subst}
use goclipboard.Tab.{Tab, has_some}
use goclipboard.Tab.Connection.{
  set_connected, schedule_reconnect, close_socket, open_socket, is_current, connect_ws, on_open,
  on_close,
}
use goclipboard.Tab.Events.{Event, opened, closed, reconnect_due, step_if, tab_step, tab_run}
use goclipboard.Tab.Alive.{Alive, view}
use goclipboard.Tab.Alive.Steps.{tab_run-Alive}
use goclipboard.Tab.Staying.{stays, gone, tab_run-gone}

lost : ℕ → Option ℕ → List Event
lost jitter none = []
lost jitter (some k) = closed jitter k ∷ []

-- The socket is lost, the timer fires and the new socket opens.
pub reconnects : ℕ → ℕ → Tab → List Event
unfolding lost
reconnects now jitter t =
    lost jitter t.socket ++ (reconnect_due false jitter ∷ opened now t.next_socket ∷ [])

-- `u` is online again, with all that the tab `t` had still to send.
pub record Online (t u : Tab) : Type 0 where
  pub connected : u.session.connected ≡ true
  pub socket_open : u.session.socket_open ≡ true
  pub socket : u.socket ≡ some t.next_socket
  pub attempts : u.session.reconnect_attempts ≡ 0
  pub rest_poll : u.rest_poll ≡ false
  pub heartbeat : u.heartbeat ≡ true
  pub pending_ops : u.session.pending_ops ≡ t.session.pending_ops
  pub doc : u.session.doc ≡ t.session.doc
  pub content : u.session.content ≡ t.session.content

same : (n : ℕ) → (n == n) ≡ true
same n = ground arith

dials :
    (now jitter : ℕ) (t : Tab)
    → has_some t.reconnect_timer ≡ true
    → Online t (tab_run (reconnect_due false jitter ∷ opened now t.next_socket ∷ []) t)
unfolding tab_run tab_step step_if connect_ws open_socket close_socket on_open set_connected
dials now jitter t due =
    rw (due, same t.next_socket)
      (record {
        connected = refl;
        socket_open = refl;
        socket = refl;
        attempts = refl;
        rest_poll = refl;
        heartbeat = refl;
        pending_ops = refl;
        doc = refl;
        content = refl;
      })

then_of : (b : Bool) (t u : Tab) → b ≡ true → (if b then t else u) ≡ t
then_of true t u e = refl
then_of false t u e = cc e

else_of : (b : Bool) (t u : Tab) → b ≡ false → (if b then t else u) ≡ u
else_of true t u e = cc e
else_of false t u e = refl

-- The tab whose socket was lost.
abbrev without_socket : ℕ → Tab → Tab
without_socket jitter t =
    let s = record t.session { sent_batches = []; socket_open = false } in
    schedule_reconnect jitter (
      set_connected false
        (record t { session = s; socket = none; heartbeat = false; remote_cursors = [] }))

on_close-loses :
    (jitter k : ℕ) (t : Tab)
    → t.socket ≡ some k
    → gone t ≡ false
    → on_close jitter k t ≡ without_socket jitter t
unfolding on_close
on_close-loses jitter k t e h =
    then_of (is_current k t.socket) _ t (ap (is_current k) e ∙ same k) ∙ else_of (gone t) _ _ h

from_lost : (jitter : ℕ) (t u : Tab) → Online (without_socket jitter t) u → Online t u
unfolding schedule_reconnect set_connected
from_lost jitter t u o = record {
  connected = o.connected;
  socket_open = o.socket_open;
  socket = o.socket;
  attempts = o.attempts;
  rest_poll = o.rest_poll;
  heartbeat = o.heartbeat;
  pending_ops = o.pending_ops;
  doc = o.doc;
  content = o.content;
}

without_socket-dials :
    (now jitter : ℕ) (t : Tab)
    → Online t (
        tab_run
          (reconnect_due false jitter ∷ opened now t.next_socket ∷ [])
          (without_socket jitter t))
unfolding schedule_reconnect set_connected
without_socket-dials now jitter t =
    from_lost jitter t _ (dials now jitter (without_socket jitter t) refl)

redials :
    (now jitter : ℕ) (t : Tab) (o : Option ℕ)
    → t.socket ≡ o
    → Alive (view t)
    → gone t ≡ false
    → Online t
        (tab_run (lost jitter o ++ (reconnect_due false jitter ∷ opened now t.next_socket ∷ [])) t)
unfolding lost tab_run tab_step
redials now jitter t none e a h = dials now jitter t (a.retries (ap has_some e) h)
redials now jitter t (some k) e a h =
    subst (λ v. Online t (tab_run (reconnect_due false jitter ∷ opened now t.next_socket ∷ []) v))
      (sym (on_close-loses jitter k t e h)) (without_socket-dials now jitter t)

-- Whatever happens to a tab that is alive, as long as nobody leaves the page: once its socket is lost,
-- the timer that is then set fires and the new socket opens, the tab is connected, with no
-- attempts counted, no REST polling and the heartbeat running, and it has the same document, text
-- and operations to send as before.
pub tab_run-Online :
    (es : List Event) (now jitter : ℕ) (t : Tab)
    → Alive (view t)
    → t.session.intentional_close ≡ false
    → stays es ≡ true
    → Online (tab_run es t) (tab_run (reconnects now jitter (tab_run es t)) (tab_run es t))
unfolding reconnects
tab_run-Online es now jitter t a h n =
    let u = tab_run es t in
    redials now jitter u u.socket refl (tab_run-Alive es t a) (tab_run-gone es t h n)
