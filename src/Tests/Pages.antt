-- ===== src/Tests/Pages.antt =====
-- Saving over REST, compositions and the page around the editor (static/app.js) on concrete inputs.
use goclipboard.Common.{
  ◌+◌, ◌%◌, ◌/◌, ◌≡◌, refl, ℕ, true, false, none, some, List, [], ◌∷◌, arith, take, length, leb,
}
use goclipboard.Tests.{crdt}
use goclipboard.Tests.Documents.{sample, sample_formed, IsSite-c}
use goclipboard.Tests.Sessions.{tab, update}
use goclipboard.Text.{Text, codes}
use goclipboard.Doc.{clone}
use goclipboard.Session.{Session, room_needs_unlock, is_view_gate}
use goclipboard.Session.Undo.{block_when_read_only}
use goclipboard.Session.Local.{commit_composition}
use goclipboard.Session.Local.Commit.{Unmoved, Committed, commit_composition-Committed}
use goclipboard.Rest.{Put, Saver, answered, lost, fired, replied, polled, put_result, rest_run}
use goclipboard.Rest.Saves.{IsSingle, rest_run-IsSingle}
use goclipboard.Rest.Accepted.{Holds, put_result-Holds}
use goclipboard.Page.Ttl.{
  read_ttl_seconds, set_ttl_controls, whole_minutes, read_ttl_seconds-set_ttl_controls,
}
use goclipboard.Page.Dialogs.{Passwords, asks, works, submits, closes, password_run}
use goclipboard.Page.Dialogs.Once.{Once, upto, waits, password_run-Once}
use goclipboard.Page.Uploads.{File, Response, responded, broken, upload_files}
use goclipboard.Page.Uploads.Counts.{until_refused, accepted, any_refused, upload_files-Tally}
use goclipboard.Page.History.{Snapshot, Room, restore_snapshot}
use goclipboard.Page.History.Restore.{Restored, restore_snapshot-Restored}
use goclipboard.Page.Passwords.{chars, max_unbiased, generate_edit_password}
use goclipboard.Page.Passwords.Random.{picked, Uniform, generate_edit_password-Uniform}

-- `io` was composed to `ixo`.
abbrev composed : Session
composed = record tab {
  content = codes "ixo";
  composition_commit_pending = true;
  composition_base_text = codes "io";
  composition_base_doc = some (clone sample);
}

composed-Unmoved : Unmoved composed
unfolding crdt
composed-Unmoved = record { base = clone sample; kept = refl; ids = refl; text = refl }

commit_composition-Committed_example : Committed composed (commit_composition 5 composed)
unfolding crdt
commit_composition-Committed_example =
    commit_composition-Committed 5 composed IsSite-c (omega arith, (omega arith, (omega arith, tt)))
      sample_formed refl composed-Unmoved refl

abbrev put : Put
put = record { content = codes "ixo"; ttl_seconds = 60; password = []; base_version = some 4 }

-- A tab without a socket whose text is under way.
abbrev saver : Saver
saver = record {
  session = record tab { content = codes "ixo"; connected = false };
  put_in_flight = true;
  put_failures = 0;
  put_fallback_timer = none;
  requests = put ∷ [];
  asking = false;
}

rest_run-IsSingle_example : IsSingle (
  (rest_run (polled update ∷ replied lost ∷ fired 60 ∷ []) saver).put_in_flight,
  (rest_run (polled update ∷ replied lost ∷ fired 60 ∷ []) saver).requests,
)
rest_run-IsSingle_example =
    rest_run-IsSingle (polled update ∷ replied lost ∷ fired 60 ∷ []) saver (put, refl)

put_result-Holds_example : Holds (codes "ixo") 5 (put_result put 200 update saver).session
put_result-Holds_example =
    put_result-Holds put 200 update saver refl IsSite-c
      (omega arith, (omega arith, (omega arith, tt)))

read_ttl_seconds-set_ttl_controls_example :
    read_ttl_seconds (set_ttl_controls 90) ≡ whole_minutes 90
read_ttl_seconds-set_ttl_controls_example =
    read_ttl_seconds-set_ttl_controls 90 (omega arith) (omega arith)

ninety : whole_minutes 90 ≡ 60
unfolding whole_minutes
ninety = refl

abbrev closed_dialog : Passwords
closed_dialog = record {
  modal_state = none;
  modal_hidden = true;
  modal_error = false;
  asked = 0;
  answers = [];
}

closed_dialog-Once : Once closed_dialog
unfolding upto waits
closed_dialog-Once = record { answered = refl; shown = refl }

password_run-Once_example :
    Once (password_run (asks ∷ asks ∷ submits [] ∷ works true ∷ closes none ∷ []) closed_dialog)
password_run-Once_example =
    password_run-Once (asks ∷ asks ∷ submits [] ∷ works true ∷ closes none ∷ []) closed_dialog
      closed_dialog-Once

abbrev file : File
file = record { name = codes "a.txt"; mime = codes "text/plain" }

-- One file is taken, one is too large, for the third the password is refused.
abbrev files : List (File × Response)
files =
    (file, responded 200 [] [])
    ∷ (file, responded 413 [] [])
    ∷ (file, responded 401 [] [])
    ∷ (file, broken (codes "down") (codes "Error: down"))
    ∷ []

same : Text → Text
same t = t

upload_files-Tally_example :
    ((upload_files same files).sent ≡ until_refused same files)
    × ((upload_files same files).ok ≡ accepted same files)
    × ((upload_files same files).ok + (upload_files same files).fail ≡ length files)
    × ((upload_files same files).bad_admin ≡ any_refused same files)
upload_files-Tally_example = upload_files-Tally same files

abbrev snapshot : Snapshot
snapshot = record { text = codes "ixo"; version = 3; manual = false }

abbrev room : Room
room = record {
  session = tab;
  history_snapshots = snapshot ∷ [];
  history_loading = false;
  history_hidden = false;
  history_preview_idx = some 0;
  toasts = [];
}

restore_snapshot-Restored_example : Restored (codes "ixo") room (restore_snapshot 5 0 room)
unfolding crdt block_when_read_only room_needs_unlock is_view_gate
restore_snapshot-Restored_example =
    restore_snapshot-Restored 5 0 snapshot room refl refl refl IsSite-c
      (omega arith, (omega arith, (omega arith, tt))) sample_formed refl

-- The second word is rejected.
abbrev words : List ℕ
words = 1 ∷ 4294967290 ∷ 2 ∷ 3 ∷ 4 ∷ 5 ∷ 6 ∷ 7 ∷ 8 ∷ 9 ∷ 10 ∷ 11 ∷ 12 ∷ []

generate_edit_password-Uniform_example :
    (generate_edit_password words ≡ some (take 12 (picked words)))
    × (length chars ≡ 56)
    × ((x : ℕ) → leb max_unbiased x ≡ false → Uniform x (x / 56) (x % 56))
    × ((x q j : ℕ) → Uniform x q j → (leb max_unbiased x ≡ false) × (x % 56 ≡ j))
unfolding picked
generate_edit_password-Uniform_example = generate_edit_password-Uniform words (omega arith)
