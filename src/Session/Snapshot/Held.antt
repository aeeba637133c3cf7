-- ===== src/Session/Snapshot/Held.antt =====
-- Messages that arrive during a composition take effect at its end (static/app.js: handleState,
-- handleRemoteOps, mergeServerState, commitComposition, flushDeferredContentMessages).
use goclipboard.Common.{
  ℕ, ◌-◌, ◌≡◌, refl, sym, ap, ◌∙◌, Bool, true, false, not, ◌&&◌, List, [], ◌∷◌, ◌++◌, append-nil,
  append_assoc, All, Bool-cases, inl, inr, arith, if◌then◌else◌, ltb, ◌==◌,
}
use goclipboard.Text.{Text}
use goclipboard.CodePoints.{code_points}
use goclipboard.Doc.{
  Doc, Op, BatchOutcome, all, stopped, apply_batch, materialize, visible_ids, max_clock,
}
use goclipboard.Diff.{Diff, diff_to_ops}
use goclipboard.Session.{
  Session, Deferred, state_message, ops_message, rest_message, rest_load_message,
  composition_is_active, bump_clock_from_doc, schedule_flush, set_content_value,
}
use goclipboard.Session.Sync.{request_sync, sync_interval_ms}
use goclipboard.Session.Undo.{push_undo_entry}
use goclipboard.Session.Local.{
  on_composition_end, or_clone, or_text, commit_ops, commit_diff, flush_if, finish_composition,
  commit_composition,
}
use goclipboard.Session.Remote.{handle_remote_ops}
use goclipboard.Session.Merge.{merge_server_state}
use goclipboard.Session.Snapshot.{
  handle_state, deliver, deliver_all, flush_deferred, end_composition,
}

abbrev hold : List Deferred → Session → Session
hold l s = record s { deferred = l }

request_sync-hold :
    (now : ℕ) (l : List Deferred) (s : Session)
    → request_sync now (hold l s) ≡ hold l (request_sync now s)
unfolding request_sync
request_sync-hold now l s =
    elim (Bool-cases
      (not (s.sync_requested_at == 0) && ltb (now - s.sync_requested_at) sync_interval_ms)) [
        | inl recent ↦ rw recent refl
        | inr due ↦ elim (Bool-cases s.socket_open) [
          | inl on ↦ rw (due, on) refl
          | inr off ↦ rw (due, off) refl
        ]
      ]

push_undo_entry-hold :
    (now : ℕ) (ops : List Op) (l : List Deferred) (s : Session)
    → push_undo_entry now ops (hold l s) ≡ hold l (push_undo_entry now ops s)
unfolding push_undo_entry
push_undo_entry-hold now [] l s = refl
push_undo_entry-hold now (op ∷ ops) l s = refl

flush_if-hold :
    (ops : List Op) (l : List Deferred) (s : Session)
    → flush_if ops (hold l s) ≡ hold l (flush_if ops s)
unfolding flush_if schedule_flush
flush_if-hold [] l s = refl
flush_if-hold (op ∷ ops) l s = refl

finish-hold :
    (b : Bool) (l : List Deferred) (s : Session)
    → finish_composition (hold l s, b) ≡ hold l (finish_composition (s, b))
unfolding finish_composition set_content_value
finish-hold true l s = flush_if-hold s.pending_ops l _
finish-hold false l s = refl

finish_ops-hold :
    (now : ℕ) (ops : List Op) (l : List Deferred) (s : Session) (r : Doc × BatchOutcome)
    → finish_composition (commit_ops now ops (hold l s) r)
      ≡ hold l (finish_composition (commit_ops now ops s r))
unfolding commit_ops
finish_ops-hold now ops l s (d, stopped e c i) =
    ap (λ u. finish_composition (u, false)) (request_sync-hold now l (record s { doc = d }))
    ∙ finish-hold false l (request_sync now (record s { doc = d }))
finish_ops-hold now ops l s (d, all c) =
    let t : Session = record s { doc = d; pending_ops = s.pending_ops ++ ops } in
    ap (λ u. finish_composition (u, true)) (push_undo_entry-hold now ops l t)
    ∙ finish-hold true l (push_undo_entry now ops t)

finish_diff-hold :
    (now : ℕ) (diff : Diff) (ops : List Op) (l : List Deferred) (s : Session)
    → finish_composition (commit_diff now diff (hold l s) ops)
      ≡ hold l (finish_composition (commit_diff now diff s ops))
unfolding commit_diff
finish_diff-hold now diff [] l s = finish-hold true l s
finish_diff-hold now diff (op ∷ ops) l s =
    finish_ops-hold now (op ∷ ops) l (record s { local_clock = diff.clock })
      (apply_batch s.doc (op ∷ ops))

bump-hold :
    (l : List Deferred) (s : Session)
    → bump_clock_from_doc (hold l s) ≡ hold l (bump_clock_from_doc s)
unfolding bump_clock_from_doc
bump-hold l s = elim (Bool-cases (ltb s.local_clock (max_clock s.doc))) [
  | inl newer ↦ rw newer refl
  | inr older ↦ rw older refl
]

-- `commit_composition` behind the rise of the clock, where the base document is given by its identifiers.
commit_from : ℕ → List Text → Text → Text → Session → Session
commit_from now base_ids base_text text s =
    let diff =
      diff_to_ops (code_points base_text) base_ids (code_points text) s.client_id s.local_clock in
    finish_composition (commit_diff now diff s diff.ops)

commit_from-hold :
    (now : ℕ) (base_ids : List Text) (base_text text : Text) (l : List Deferred) (s : Session)
    → commit_from now base_ids base_text text (hold l s)
      ≡ hold l (commit_from now base_ids base_text text s)
unfolding commit_from
commit_from-hold now base_ids base_text text l s =
    let diff =
      diff_to_ops (code_points base_text) base_ids (code_points text) s.client_id s.local_clock in
    finish_diff-hold now diff diff.ops l s

base_ids_of : Session → List Text
base_ids_of s = visible_ids (or_clone s.doc s.composition_base_doc)

base_text_of : Session → Text
base_text_of s = or_text (materialize s.doc) s.composition_base_text s.composition_base_doc

module _ (now : ℕ) (s : Session) (pending : s.composition_commit_pending ≡ true) where
  commit_composition-from :
      commit_composition now s
      ≡ commit_from now (base_ids_of s) (base_text_of s) s.content (bump_clock_from_doc s)
  unfolding commit_composition commit_from base_ids_of base_text_of
  commit_composition-from = rw pending refl

commit_composition-hold :
    (now : ℕ) (l : List Deferred) (s : Session)
    → s.composition_commit_pending ≡ true
    → commit_composition now (hold l s) ≡ hold l (commit_composition now s)
unfolding base_ids_of base_text_of
commit_composition-hold now l s pending =
    commit_composition-from now (hold l s) pending
    ∙ ap (commit_from now (base_ids_of s) (base_text_of s) s.content) (bump-hold l s)
    ∙ commit_from-hold now (base_ids_of s) (base_text_of s) s.content l (bump_clock_from_doc s)
    ∙ ap (hold l) (sym (commit_composition-from now s pending))

request_sync-active :
    (now : ℕ) (s : Session) → (request_sync now s).composition_active ≡ s.composition_active
unfolding request_sync
request_sync-active now s = ground arith

push_undo_entry-active :
    (now : ℕ) (ops : List Op) (s : Session)
    → (push_undo_entry now ops s).composition_active ≡ s.composition_active
unfolding push_undo_entry
push_undo_entry-active now [] s = refl
push_undo_entry-active now (op ∷ ops) s = refl

commit_diff-active :
    (now : ℕ) (diff : Diff) (ops : List Op) (s : Session)
    → (commit_diff now diff s ops).0.composition_active ≡ s.composition_active
unfolding commit_diff commit_ops push_undo_entry
commit_diff-active now diff [] s = refl
commit_diff-active now diff (op ∷ ops) s =
    of_ops (record s { local_clock = diff.clock }) (apply_batch s.doc (op ∷ ops))
  where
    of_ops :
        (s : Session) (r : Doc × BatchOutcome)
        → (commit_ops now (op ∷ ops) s r).0.composition_active ≡ s.composition_active
    of_ops s (d, stopped e c i) = request_sync-active now (record s { doc = d })
    of_ops s (d, all c) =
        push_undo_entry-active now (op ∷ ops)
          (record s { doc = d; pending_ops = s.pending_ops ++ op ∷ ops })

flush_if-active :
    (ops : List Op) (s : Session) → composition_is_active (flush_if ops s) ≡ composition_is_active s
unfolding flush_if schedule_flush composition_is_active
flush_if-active [] s = refl
flush_if-active (op ∷ ops) s = refl

finish-idle :
    (b : Bool) (s : Session)
    → s.composition_active ≡ false
    → composition_is_active (finish_composition (s, b)) ≡ false
unfolding finish_composition composition_is_active set_content_value
finish-idle true s h = flush_if-active s.pending_ops _ ∙ rw h refl
finish-idle false s h = rw h refl

bump-active : (s : Session) → (bump_clock_from_doc s).composition_active ≡ s.composition_active
unfolding bump_clock_from_doc
bump-active s = ground arith

commit_composition-idle :
    (now : ℕ) (s : Session)
    → s.composition_commit_pending ≡ true
    → s.composition_active ≡ false
    → composition_is_active (commit_composition now s) ≡ false
unfolding commit_from
commit_composition-idle now s pending ended =
    let t = bump_clock_from_doc s in
    let diff =
      diff_to_ops (code_points (base_text_of s)) (base_ids_of s) (code_points s.content) t.client_id
        t.local_clock in
    ap composition_is_active (commit_composition-from now s pending)
    ∙ finish-idle (commit_diff now diff t diff.ops).1 (commit_diff now diff t diff.ops).0
        (commit_diff-active now diff diff.ops t ∙ bump-active s ∙ ended)

-- The timer that ends a composition brings its text in, and then the messages.
end_composition-hold :
    (now : ℕ) (live : Bool) (ms : List Deferred) (s : Session)
    → s.composition_commit_pending ≡ true
    → s.composition_active ≡ false
    → end_composition now live (hold ms s)
      ≡ deliver_all now live ms (hold [] (commit_composition now s))
unfolding end_composition flush_deferred composition_is_active
end_composition-hold now live ms s pending ended =
    ap
      (λ (b : Bool).
        if b then flush_deferred now live (commit_composition now (hold ms s)) else hold ms s)
      pending
    ∙ ap (flush_deferred now live) (commit_composition-hold now ms s pending)
    ∙ idle (commit_composition now s) (commit_composition-idle now s pending ended)
  where
    idle :
        (c : Session)
        → composition_is_active c ≡ false
        → flush_deferred now live (hold ms c) ≡ deliver_all now live ms (hold [] c)
    idle c h = ap (λ (b : Bool). if b then hold ms c else deliver_all now live ms (hold [] c)) h

-- The messages that a composition holds back; the answer to a REST load waits before it is read.
unfoldable pub waits : Deferred → Bool
waits (state_message msg) = true
waits (ops_message msg) = true
waits (rest_message msg) = true
waits (rest_load_message msg force) = false

deliver_held :
    (now : ℕ) (live : Bool) (m : Deferred) (s : Session)
    → composition_is_active s ≡ true
    → waits m ≡ true
    → deliver now live m s ≡ hold (s.deferred ++ m ∷ []) s
unfolding deliver handle_state handle_remote_ops merge_server_state waits
deliver_held now live (state_message msg) s busy h = rw busy refl
deliver_held now live (ops_message msg) s busy h = rw busy refl
deliver_held now live (rest_message msg) s busy h = rw busy refl
deliver_held now live (rest_load_message msg force) s busy h = cc h

-- They are queued in their order.
deliver_all_held :
    (now : ℕ) (live : Bool) (ms : List Deferred) (s : Session)
    → composition_is_active s ≡ true
    → All (λ m. waits m ≡ true) ms
    → deliver_all now live ms s ≡ hold (s.deferred ++ ms) s
unfolding deliver_all composition_is_active
deliver_all_held now live [] s busy h = ap (λ l. hold l s) (sym (append-nil s.deferred))
deliver_all_held now live (m ∷ ms) s busy h =
    ap (deliver_all now live ms) (deliver_held now live m s busy h.0)
    ∙ deliver_all_held now live ms (hold (s.deferred ++ m ∷ []) s) busy h.1
    ∙ ap (λ l. hold l s) (append_assoc s.deferred (m ∷ []) ms)

-- Snapshots, batches and answers to refused saves arrive while a composition goes on that has held nothing
-- back before. When the composition and its timer have ended, the session is as if they had arrived,
-- in their order, only after the composed text was brought in.
pub end_composition-deliver_all :
    (before now : ℕ) (reachable live : Bool) (ms : List Deferred) (s : Session)
    → s.composition_active ≡ true
    → s.deferred ≡ []
    → All (λ m. waits m ≡ true) ms
    → end_composition now live (on_composition_end (deliver_all before reachable ms s))
      ≡ deliver_all now live ms (end_composition now live (on_composition_end s))
unfolding on_composition_end composition_is_active deliver_all
end_composition-deliver_all before now reachable live ms s composing nothing held =
    let e : Session = record s { composition_active = false; composition_commit_pending = true } in
    let ended : (l : List Deferred) → on_composition_end (hold l s) ≡ hold l e =
      λ l. rw composing refl in
    let busy : composition_is_active s ≡ true = rw composing refl in
    let queued : deliver_all before reachable ms s ≡ hold ms s =
      deliver_all_held before reachable ms s busy held ∙ ap (λ l. hold (l ++ ms) s) nothing in
    let empty_queue : s ≡ hold [] s = ap (λ l. hold l s) nothing in
    ap (λ u. end_composition now live (on_composition_end u)) queued
    ∙ ap (end_composition now live) (ended ms)
    ∙ end_composition-hold now live ms e refl refl
    ∙ ap (deliver_all now live ms) (
        sym (
          ap (λ u. end_composition now live (on_composition_end u)) empty_queue
          ∙ ap (end_composition now live) (ended [])
          ∙ end_composition-hold now live [] e refl refl
          ∙ none_left (hold [] (commit_composition now e))))
  where
    none_left : (c : Session) → deliver_all now live [] c ≡ c
    none_left c = refl
