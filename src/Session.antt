-- ===== src/Session.antt =====
-- The editing session of a browser tab (static/app.js): the variables that its functions share, the
-- messages it handles, and the clock. Time (`Date.now()`), the TTL field and whether `send` throws
-- are arguments. Drawing, toasts and the caret are left out; a call that reaches the server, or a timer
-- is an `Effect`.
pub mod Local
pub mod Undo
pub mod Stale
pub mod Sync
pub mod Lock
pub mod Ack
pub mod Flush
pub mod Remote
pub mod Merge
pub mod Snapshot
pub mod Caret
pub mod Colors
pub mod Peers
use goclipboard.Common.{
  ℕ, ◌/◌, Bool, true, false, not, ◌&&◌, Option, none, some, List, [], ◌∷◌, ◌++◌, ltb, if◌then◌else◌,
}
use goclipboard.Text.{Text, codes, ◌===◌}
use goclipboard.Number.{Number, nan, infinity, fraction}
use goclipboard.Ids.{Stamp, parse_id}
use goclipboard.Doc.{Doc, Item, Op, ins, del, other, max_clock}

-- The part of `op.id` and `op.op` that `opKey` joins.
unfoldable pub op_id : Op → Text
op_id (ins id after ch) = id
op_id (del id) = id
op_id (other op id) = id

unfoldable pub op_name : Op → Text
op_name (ins id after ch) = codes "ins"
op_name (del id) = codes "del"
op_name (other op id) = op

unfoldable pub op_key : Op → Text
unfolding op_name op_id
op_key op = op_name op ++ b'|' ∷ op_id op

-- `sentBatches[seq]`
pub record Batch : Type 0 where
  pub ids : List Text
  pub sent_at : ℕ

-- An entry of the undo and redo stacks.
pub record Entry : Type 0 where
  pub ops : List Op
  pub pushed_at : ℕ

-- A state, update or ops message, or the answer of a REST call. `none` is `undefined` or `null`,
-- an absent text is empty and an absent version 0.
pub record Message : Type 0 where
  pub version : ℕ
  pub generation : Option Number
  pub exists : Bool
  pub content : Option Text
  pub items_site : Text
  pub items : List Item
  pub ops : List Op
  pub updated_by : Text
  pub password_required : Bool
  pub edit_password_set : Option Bool
  pub password_scope : Text

-- An answer to a sent batch; the empty text is no error.
pub record AckMessage : Type 0 where
  pub seq : ℕ
  pub error : Text
  pub version : ℕ
  pub generation : Option Number
  pub exists : Bool

-- A message that waits for the end of a composition.
pub data Deferred : Type 0 where
  state_message : Message → Deferred
  ops_message : Message → Deferred
  rest_message : Message → Deferred
  rest_load_message : Message → Bool → Deferred

-- What leaves the session: frames on the socket, timers, REST loads, passwords.
pub data Effect : Type 0 where
  send_ops : ℕ → List Op → ℕ → Text → Effect
  send_sync : Effect
  load : Effect
  put_timer : Effect
  send_auth : Text → Effect
  try_unlock : Text → Effect
  lock_error : Effect
  send_cursor : ℕ → ℕ → Text → Text → Effect

pub record Session : Type 0 where
  pub client_id : Text
  pub doc : Doc
  pub local_clock : ℕ
  pub known_version : ℕ
  pub known_generation : ℕ
  pub known_exists : Bool
  pub pending_ops : List Op
  pub sent_batches : List (ℕ × Batch)
  pub next_seq : ℕ
  pub last_synced_text : Text
  pub initial_snapshot_applied : Bool
  pub content : Text
  pub read_only : Bool
  pub composition_active : Bool
  pub composition_commit_pending : Bool
  pub composition_input_pending : Bool
  pub composition_base_text : Text
  pub composition_base_doc : Option Doc
  pub deferred : List Deferred
  pub undo_stack : List Entry
  pub redo_stack : List Entry
  pub edit_password_set : Bool
  pub password_scope : Text
  pub unlocked : Bool
  pub edit_password : Text
  pub view_password : Text
  pub edit_password_just_set : Bool
  pub room_lock_busy : Bool
  pub connected : Bool
  pub socket_open : Bool
  pub intentional_close : Bool
  pub reconnect_attempts : ℕ
  pub flush_timer : Bool
  pub sync_requested_at : ℕ
  pub effects : List Effect

abbrev pub emit : Effect → Session → Session
emit e s = record s { effects = s.effects ++ e ∷ [] }

abbrev pub text_or_empty : Option Text → Text
text_or_empty none = []
text_or_empty (some t) = t

unfoldable pub composition_is_active : Session → Bool
composition_is_active s = if s.composition_active then true else s.composition_commit_pending

unfoldable pub room_needs_unlock : Session → Bool
room_needs_unlock s = not s.unlocked

unfoldable pub is_view_gate : Session → Bool
is_view_gate s = s.password_scope === codes "view"

unfoldable pub bump_clock_from_doc : Session → Session
bump_clock_from_doc s =
    if ltb s.local_clock (max_clock s.doc) then record s { local_clock = max_clock s.doc } else s

raise_clock : ℕ → Option Stamp → ℕ
raise_clock clock none = clock
raise_clock clock (some p) = if ltb clock p.clock then p.clock else clock

unfoldable pub clock_after : ℕ → List Op → ℕ
unfolding raise_clock
clock_after clock [] = clock
clock_after clock (op ∷ ops) = clock_after (raise_clock clock (parse_id (op_id op))) ops

unfoldable pub bump_clock_from_ops : List Op → Session → Session
bump_clock_from_ops ops s = record s { local_clock = clock_after s.local_clock ops }

-- `getEditPassword() || rememberedViewPassword() || ""`
unfoldable pub room_password : Session → Text
room_password s = if s.edit_password === [] then s.view_password else s.edit_password

-- `Number(data.generation)`, where it is finite and not below 0, else 0.
floor_of : Option Number → ℕ
floor_of none = 0
floor_of (some nan) = 0
floor_of (some infinity) = 0
floor_of (some (fraction true n d)) = 0
floor_of (some (fraction false n d)) = n / d

pub message_generation : Option Number → ℕ
unfolding floor_of
message_generation g = floor_of g

abbrev pub is_some : Option Number → Bool
is_some none = false
is_some (some n) = true

-- `scheduleFlush`: (re)starts the timer whose callback is `flush_fires`.
unfoldable pub schedule_flush : Session → Session
schedule_flush s = record s { flush_timer = true }

-- `setContentValue`, but for the caret.
unfoldable pub set_content_value : Text → Session → Session
set_content_value text s = record s { content = text }
