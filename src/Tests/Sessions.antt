-- ===== src/Tests/Sessions.antt =====
-- The session of a tab (static/app.js) on concrete edits and messages.
use goclipboard.Common.{◌≡◌, refl, true, false, none, some, [], ◌∷◌, arith}
use goclipboard.Tests.{crdt}
use goclipboard.Tests.Documents.{sample, sample_formed, IsSite-c, IsSite-s}
use goclipboard.Text.{codes, ◌===◌}
use goclipboard.Doc.{Op, ins, del, empty, materialize}
use goclipboard.Session.{
  state_message, ops_message, rest_message, Session, Message, AckMessage, op_id, op_key, op_name,
  send_ops, room_password, composition_is_active, bump_clock_from_doc, room_needs_unlock,
  is_view_gate, schedule_flush, bump_clock_from_ops, clock_after, set_content_value,
}
use goclipboard.Session.Local.{apply_local_text, local_ops, local_diff_ops, on_composition_end}
use goclipboard.Session.Local.Correct.{Shows, apply_local_text-Shows}
use goclipboard.Session.Undo.{
  undo, block_when_read_only, push_undo_entry, inverse_ops, inverse_loop, apply_ops_local,
}
use goclipboard.Session.Stale.{snapshot_is_stale}
use goclipboard.Session.Flush.{unsent, outstanding, flush_pending, is_empty}
use goclipboard.Session.Flush.Bounds.{CanSend, flush_pending-sends}
use goclipboard.Session.Remote.{handle_remote_ops}
use goclipboard.Session.Remote.Order.{Kept, handle_remote_ops-Kept}
use goclipboard.Session.Merge.{merge3}
use goclipboard.Session.Merge.Laws.{merge3_one_side}
use goclipboard.Session.Snapshot.{handle_state, deliver_all, end_composition}
use goclipboard.Session.Snapshot.Held.{waits, end_composition-deliver_all}
use goclipboard.Session.Snapshot.Adopt.{Showing, handle_state-Showing}

-- A connected tab that shows `sample`.
abbrev pub tab : Session
tab = record {
  client_id = codes "c";
  doc = sample;
  local_clock = 0;
  known_version = 4;
  known_generation = 1;
  known_exists = true;
  pending_ops = [];
  sent_batches = [];
  next_seq = 1;
  last_synced_text = codes "io";
  initial_snapshot_applied = true;
  content = codes "io";
  read_only = false;
  composition_active = false;
  composition_commit_pending = false;
  composition_input_pending = false;
  composition_base_text = [];
  composition_base_doc = none;
  deferred = [];
  undo_stack = [];
  redo_stack = [];
  edit_password_set = false;
  password_scope = [];
  unlocked = true;
  edit_password = [];
  view_password = [];
  edit_password_just_set = false;
  room_lock_busy = false;
  connected = true;
  socket_open = true;
  intentional_close = false;
  reconnect_attempts = 0;
  flush_timer = false;
  sync_requested_at = 0;
  effects = [];
}

abbrev pub update : Message
update = record {
  version = 5;
  generation = none;
  exists = true;
  content = some (codes "hi");
  items_site = codes "s";
  items = [];
  ops = ins (codes "b:9") (codes "a:2") (codes "n") ∷ [];
  updated_by = codes "b";
  password_required = false;
  edit_password_set = some true;
  password_scope = codes "edit";
}

abbrev edit : Op
edit = ins (codes "c:9") (codes "a:2") (codes "z")

abbrev waiting : Session
waiting = record tab { pending_ops = edit ∷ [] }

-- The text that was typed as `p`, `py`, `pxy` and `px`, one edit a second.
abbrev moved : Session
moved = apply_local_text 3000 (codes "px") (
    apply_local_text 2000 (codes "pxy") (
      apply_local_text 1000 (codes "py")
        (apply_local_text 0 (codes "p") (record tab { doc = empty }))))

-- Undoing the last edit brings the deleted character back in front of the other one.
undo_moves : materialize (undo 4000 moved).doc ≡ codes "pyx"
unfolding crdt undo block_when_read_only room_needs_unlock is_view_gate apply_local_text
    bump_clock_from_doc schedule_flush push_undo_entry inverse_ops inverse_loop apply_ops_local
    bump_clock_from_ops clock_after set_content_value local_ops local_diff_ops op_id
undo_moves = refl

apply_local_text-Shows_example : Shows (codes "ixo") tab (apply_local_text 5 (codes "ixo") tab)
unfolding crdt
apply_local_text-Shows_example =
    apply_local_text-Shows 5 (codes "ixo") tab IsSite-c
      (omega arith, (omega arith, (omega arith, tt))) sample_formed refl

merge3_one_side_example :
    (merge3 (codes "ab") (codes "axb") (codes "ab") ≡ codes "axb")
    × (merge3 (codes "ab") (codes "ab") (codes "axb") ≡ codes "axb")
merge3_one_side_example =
    merge3_one_side (codes "ab") (codes "axb") (omega arith, (omega arith, tt))
      (omega arith, (omega arith, (omega arith, tt)))

handle_remote_ops-Kept_example :
    Kept
      (record tab { known_version = 2 })
      (handle_remote_ops 9 update (record tab { known_version = 2 }))
handle_remote_ops-Kept_example =
    handle_remote_ops-Kept 9 update (record tab { known_version = 2 }) (λ e. omega (arith, e))

-- One operation in flight, one that waits.
abbrev half_sent : Session
half_sent = record tab {
  pending_ops = edit ∷ del (codes "c:9") ∷ [];
  sent_batches = (0, record { ids = op_key edit ∷ []; sent_at = 1 }) ∷ [];
}

half_sent-CanSend : CanSend 60 half_sent
unfolding unsent outstanding op_key op_name op_id ◌===◌
half_sent-CanSend = record { lives = refl; connected = refl; socket = refl; fits = omega arith }

flush_pending-sends_example :
    ((flush_pending 5 true 60 half_sent).effects ≡ send_ops 1 (del (codes "c:9") ∷ []) 60 [] ∷ [])
    × ((flush_pending 5 true 60 half_sent).pending_ops ≡ edit ∷ del (codes "c:9") ∷ [])
    × (flush_pending 9 true 60 (flush_pending 5 true 60 half_sent)
        ≡ flush_pending 5 true 60 half_sent)
unfolding outstanding op_key op_name op_id ◌===◌ room_password is_empty
flush_pending-sends_example = flush_pending-sends 5 9 60 half_sent half_sent-CanSend refl

abbrev rejection : AckMessage
rejection = record {
  seq = 1;
  error = codes "edit password required";
  version = 0;
  generation = none;
  exists = true;
}

abbrev acceptance : AckMessage
acceptance = record { seq = 1; error = []; version = 5; generation = none; exists = true }

abbrev composing : Session
composing = record tab {
  content = codes "ixo";
  composition_active = true;
  composition_base_text = codes "io";
  composition_base_doc = some sample;
}

end_composition-deliver_all_example :
    end_composition 9 true (
      on_composition_end (
        deliver_all 5 true
          (ops_message update ∷ state_message update ∷ rest_message update ∷ [])
          composing))
    ≡ deliver_all 9 true
        (ops_message update ∷ state_message update ∷ rest_message update ∷ [])
        (end_composition 9 true (on_composition_end composing))
unfolding waits
end_composition-deliver_all_example =
    end_composition-deliver_all 5 9 true true
      (ops_message update ∷ state_message update ∷ rest_message update ∷ []) composing refl refl
      (refl, (refl, (refl, tt)))

abbrev edited : Session
edited = record tab { undo_stack = record { ops = edit ∷ []; pushed_at = 1 } ∷ [] }

-- The same message in a room without an edit password.
abbrev open_update : Message
open_update = record update { edit_password_set = none; password_scope = [] }

handle_state-Showing_example : Showing (codes "hi") 5 (handle_state 5 open_update tab)
unfolding composition_is_active snapshot_is_stale
handle_state-Showing_example =
    handle_state-Showing 5 open_update (codes "hi") tab refl refl refl IsSite-s
      (omega arith, (omega arith, tt)) refl refl refl

-- The page has loaded: no access to the room yet, and the editor is writable.
abbrev fresh : Session
fresh = record tab { unlocked = false }
