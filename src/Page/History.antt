-- ===== src/Page/History.antt =====
-- The version history (static/app.js: applyHistoryPayload, ensureHistoryPassword, fetchHistory,
-- captureHistoryManual, clearHistoryTrail, doClearHistory, openHistory, closeHistory, openHistoryPreview, closeHistoryPreview,
-- restoreSnapshot). The answers of the server and of the person are arguments; `none` is a question that
-- was cancelled.
pub mod Restore
use goclipboard.Common.{
  ℕ, Bool, true, false, not, ◌&&◌, ◌||◌, Option, none, some, List, [], ◌∷◌, ◌++◌, if◌then◌else◌,
  get_elem?, ltb, ◌==◌, length,
}
use goclipboard.Text.{Text, codes, ◌===◌}
use goclipboard.Doc.{materialize}
use goclipboard.Session.{Session, room_password, is_view_gate, set_content_value}
use goclipboard.Session.Local.{apply_local_text}
use goclipboard.Session.Undo.{block_when_read_only}
use goclipboard.Rest.{is_ok}

pub record Snapshot : Type 0 where
  pub text : Text
  pub version : ℕ
  pub manual : Bool

pub record Room : Type 0 where
  pub session : Session
  pub history_snapshots : List Snapshot
  pub history_loading : Bool
  pub history_hidden : Bool
  pub history_preview_idx : Option ℕ
  pub toasts : List Text

-- The body of an answer: no JSON, null, or an object, which may have snapshots.
pub data Body : Type 0 where
  unreadable : Body
  null : Body
  fields : Option (List Snapshot) → Body

-- A status with a body, or a request that fails.
pub data HistoryAnswer : Type 0 where
  replied : ℕ → Body → HistoryAnswer
  lost : HistoryAnswer

abbrev toast : Text → Room → Room
toast msg r = record r { toasts = r.toasts ++ msg ∷ [] }

-- The message of blockWhenReadOnly, where it blocks.
abbrev pub blocked : Room → Room
blocked r = toast (codes "当前为只读，解锁后才能编辑") r

pub apply_history_payload : Option (List Snapshot) → Room → Room
apply_history_payload none r = record r { history_snapshots = [] }
apply_history_payload (some l) r = record r { history_snapshots = l }

-- The password that was typed is kept for the room.
unfoldable pub keep_password : Text → Session → Session
keep_password p s =
    if is_view_gate s
    then record s { edit_password = p; view_password = p }
    else record s { edit_password = p }

abbrev pub is_refusal : ℕ → Bool
is_refusal status = status == 401 || status == 403

load_fails : Room → Room
load_fails r =
    let r' = record r { history_loading = false } in
    if r.history_hidden then r' else toast (codes "加载历史失败") r'

-- The end of fetchHistory; an object without snapshots keeps those that are shown, and after null the
-- history stays loading.
loaded : Body → Room → Room
unfolding load_fails apply_history_payload
loaded unreadable r = load_fails r
loaded null r = r
loaded (fields none) r = record r { history_loading = false }
loaded (fields (some l)) r = record (apply_history_payload (some l) r) { history_loading = false }

-- An answer that is no refusal.
history_loaded : ℕ → Body → Room → Room
unfolding loaded load_fails
history_loaded status body r = if is_ok status then loaded body r else load_fails r

-- The request that follows the question for the password.
history_retried : HistoryAnswer → Room → Room
unfolding history_loaded load_fails
history_retried lost r = load_fails r
history_retried (replied status body) r =
    if is_refusal status
    then toast (codes "房间密码错误，请重试") (record r { history_loading = false })
    else history_loaded status body r

history_asked : Option Text → HistoryAnswer → Room → Room
unfolding history_retried
history_asked none again r = toast (codes "查看历史需要房间密码") (record r { history_loading = false })
history_asked (some p) again r =
    history_retried again (record r { session = keep_password p r.session; history_loading = true })

-- `fetchHistory`: the first answer, what is typed if that is a refusal, and the second answer.
pub fetch_history : HistoryAnswer → Option Text → HistoryAnswer → Room → Room
unfolding history_asked history_loaded load_fails
fetch_history lost typed again r = load_fails (record r { history_loading = true })
fetch_history (replied status body) typed again r =
    let r' = record r { history_loading = true } in
    if is_refusal status then history_asked typed again r' else history_loaded status body r'

-- Whether the history may be asked for; the password is typed if none is known.
unfoldable pub ensure_history_password : Option Text → Session → Session × Bool
ensure_history_password typed s =
    if not s.edit_password_set
    then (s, true)
    else if not (room_password s === [])
    then (s, true)
    else elim typed [ none ↦ (s, false) | some p ↦ (keep_password p s, true) ]

or_none : Option (List Snapshot) → List Snapshot
or_none none = []
or_none (some l) = l

-- The body of a manual archive.
capture_body : Body → Room → Room
unfolding or_none
capture_body unreadable r = toast (codes "存档失败") r
capture_body null r = r
capture_body (fields payload) r =
    toast
      (if ltb (length r.history_snapshots) (length (or_none payload))
        then codes "已存档当前版本"
        else codes "内容未变化，未新增快照")
      (apply_history_payload payload r)

-- The answer to the request of captureHistoryManual.
unfoldable pub capture_answer : HistoryAnswer → Room → Room
unfolding capture_body
capture_answer lost r = toast (codes "存档失败") r
capture_answer (replied status body) r =
    if status == 404
    then toast (codes "暂无可存档内容") r
    else if is_refusal status
    then toast (codes "查看历史需要房间密码") r
    else if is_ok status
    then capture_body body r
    else toast (codes "存档失败") r

pub close_history_preview : Room → Room
close_history_preview r = record r { history_preview_idx = none }

pub close_history : Room → Room
close_history r = record (close_history_preview r) { history_hidden = true }

preview : ℕ → Option Snapshot → Room → Room
preview idx none r = r
preview idx (some snap) r = record r { history_preview_idx = some idx }

unfoldable pub open_history_preview : ℕ → Room → Room
unfolding preview
open_history_preview idx r = preview idx (get_elem? r.history_snapshots idx) r

-- Restoring a snapshot that is not shown, where the person may write.
pub restore_text : ℕ → Text → Room → Room
restore_text now text r =
    let old_text = materialize r.session.doc in
    let s = apply_local_text now text r.session in
    let new_text = materialize s.doc in
    if new_text === old_text
    then toast (codes "恢复失败") (record r { session = s })
    else close_history
        (toast (codes "已恢复到该版本") (record r { session = set_content_value new_text s }))

pub restore : ℕ → Option Snapshot → Room → Room
restore now none r = r
restore now (some snap) r =
    if snap.text === materialize r.session.doc then r else restore_text now snap.text r

pub restore_snapshot : ℕ → ℕ → Room → Room
unfolding restore
restore_snapshot now idx r =
    if block_when_read_only r.session
    then blocked r
    else restore now (get_elem? r.history_snapshots idx) r

-- Asking for the password first, and going on with the session that may have a new one.
with_password : (Room → Room) → Room → Session × Bool → Room
with_password go r (s, ok) = if ok then go (record r { session = s }) else r

-- `captureHistoryManual`: what is typed if the password is asked for, and the answer.
unfoldable pub capture_history_manual : Option Text → HistoryAnswer → Room → Room
unfolding with_password
capture_history_manual typed a r =
    if block_when_read_only r.session
    then blocked r
    else if materialize r.session.doc === []
    then toast (codes "暂无可存档内容") r
    else with_password (capture_answer a) r (ensure_history_password typed r.session)

-- The body of the answer to a deletion.
clear_body : Body → Room → Room
clear_body unreadable r = toast (codes "清空历史失败") r
clear_body null r = r
clear_body (fields payload) r =
    toast (codes "已清空历史") (close_history_preview (apply_history_payload payload r))

-- The answer to the request of doClearHistory.
unfoldable pub clear_answer : HistoryAnswer → Room → Room
unfolding clear_body
clear_answer lost r = toast (codes "清空历史失败") r
clear_answer (replied status body) r =
    if is_refusal status
    then toast (codes "查看历史需要房间密码") r
    else if is_ok status
    then clear_body body r
    else toast (codes "清空历史失败") r

no_snapshots : List Snapshot → Bool
no_snapshots [] = true
no_snapshots (s ∷ l) = false

-- `clearHistoryTrail`: whether it is confirmed, what is typed, and the answer.
unfoldable pub clear_history_trail : Bool → Option Text → HistoryAnswer → Room → Room
unfolding with_password no_snapshots
clear_history_trail confirmed typed a r =
    if no_snapshots r.history_snapshots
    then toast (codes "暂无历史版本") r
    else if confirmed
    then with_password (clear_answer a) r (ensure_history_password typed r.session)
    else r

open_with : HistoryAnswer → Option Text → HistoryAnswer → Room → Session × Bool → Room
open_with a again b r (s, ok) =
    if ok
    then fetch_history a again b (record r { session = s; history_hidden = false })
    else toast (codes "查看历史需要房间密码") (record r { history_hidden = true })

-- `openHistory`: what is typed if no password is known, and the inputs of fetchHistory.
unfoldable pub open_history :
    Option Text → HistoryAnswer → Option Text → HistoryAnswer → Room → Room
unfolding open_with
open_history typed a again b r = open_with a again b r (ensure_history_password typed r.session)
