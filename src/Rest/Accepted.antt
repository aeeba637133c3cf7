-- ===== src/Rest/Accepted.antt =====
-- A save that the server accepts (static/app.js: putReplace).
use goclipboard.Common.{
  ℕ, ◌≡◌, refl, sym, ap, ◌∙◌, Bool, true, false, [], if◌then◌else◌, arith, ◌==◌,
}
use mathlib.Core.Path.{subst}
use goclipboard.Text.{Text, ◌===◌}
use goclipboard.Ids.Format.{IsSite}
use goclipboard.CodePoints.{code_points}
use goclipboard.CodePoints.Laws.{IsUtf16}
use goclipboard.Doc.{materialize, build_from_string}
use goclipboard.Doc.WellFormed.{IsWellFormed}
use goclipboard.Diff.Build.{build_from_string-Built}
use goclipboard.Session.{Session, Message, message_generation}
use goclipboard.Session.Local.Correct.{IsAligned, bump-cases}
use goclipboard.Session.Merge.{or_empty}
use goclipboard.Rest.{Put, Saver, schedule_put_fallback, saved, put_saved, is_ok, put_result}

-- The session holds the text that the server has now, in an editable document.
pub record Holds (text : Text) (v : ℕ) (t : Session) : Type 0 where
  pub formed : IsWellFormed t.doc
  pub aligned : IsAligned t.doc
  pub doc_text : materialize t.doc ≡ text
  pub synced : t.last_synced_text ≡ text
  pub version : t.known_version ≡ v
  pub exists : t.known_exists ≡ true
  pub pending : t.pending_ops ≡ []
  pub sent : t.sent_batches ≡ []

saved-Holds :
    (text : Text) (msg : Message) (s : Session)
    → IsSite s.client_id
    → IsUtf16 text
    → Holds text msg.version (saved text msg s)
unfolding saved
saved-Holds text msg s named units =
    let built = build_from_string-Built s.client_id text named units in
    let d = or_empty (build_from_string s.client_id text) in
    let e : d ≡ built.0 = ap or_empty built.1 in
    let facts : IsWellFormed d × IsAligned d × (materialize d ≡ text) =
      subst (λ d. IsWellFormed d × IsAligned d × (materialize d ≡ text)) (sym e)
        (built.2.formed, ap code_points built.4 ∙ sym built.3, built.4) in
    let t : Session = record s {
      known_version = msg.version;
      known_generation = message_generation msg.generation;
      known_exists = true;
      pending_ops = [];
      sent_batches = [];
      doc = d;
      local_clock = 0;
      last_synced_text = text;
    } in
    let b = bump-cases t in
    subst (Holds text msg.version) (sym b.1) (record {
      formed = facts.0;
      aligned = facts.1;
      doc_text = facts.2;
      synced = refl;
      version = refl;
      exists = refl;
      pending = refl;
      sent = refl;
    })

if-Holds :
    (b : Bool) (text : Text) (v : ℕ) (s t : Saver)
    → Holds text v s.session
    → Holds text v t.session
    → Holds text v (if b then s else t).session
if-Holds true text v s t h k = h
if-Holds false text v s t h k = k

put_result-ok :
    (put : Put) (status : ℕ) (msg : Message) (s : Saver)
    → is_ok status ≡ true
    → put_result put status msg s ≡ put_saved put.content msg s
unfolding put_result
put_result-ok put status msg s ok =
    let locked : (status == 403) ≡ false = ground arith in
    let conflict : (status == 409) ≡ false = ground arith in
    let busy : (status == 429) ≡ false = ground arith in rw (locked, conflict, busy, ok) refl

-- After a save that the server accepted, the session of a client with a name holds the text that was
-- sent, of 16-bit units, at the version of the answer: the document is well formed and shows that text,
-- and no operation is pending or in flight.
pub put_result-Holds :
    (put : Put) (status : ℕ) (msg : Message) (s : Saver)
    → is_ok status ≡ true
    → IsSite s.session.client_id
    → IsUtf16 put.content
    → Holds put.content msg.version (put_result put status msg s).session
unfolding put_saved schedule_put_fallback
put_result-Holds put status msg s ok named units =
    let h = saved-Holds put.content msg s.session named units in
    subst (λ (t : Saver). Holds put.content msg.version t.session)
      (sym (put_result-ok put status msg s ok))
      (if-Holds (s.session.content === put.content) put.content msg.version _ _ h h)
