-- ===== src/Page/Uploads.antt =====
-- Uploading files (static/app.js: promptUploadFiles, uploadFilesWithPasswords, uploadOneFile, guessExt).
-- `t` translates the texts of the page. A file comes with the answer that the server gives to it.
pub mod Counts
use goclipboard.Common.{
  ℕ, ◌+◌, Bool, true, false, not, ◌&&◌, ◌||◌, Option, none, some, List, [], ◌∷◌, ◌++◌,
  if◌then◌else◌, leb, ◌==◌, map,
}
use goclipboard.Text.{Text, codes, ◌===◌}
use goclipboard.Number.{decimal}
use goclipboard.Session.Colors.{lower}
use goclipboard.Session.{text_or_empty}
use goclipboard.Rest.{is_ok}

pub record File : Type 0 where
  pub name : Text
  pub mime : Text

-- The answer of the server, where absent texts are empty, or a request that fails: the message of its error
-- and the error as a text.
pub data Response : Type 0 where
  responded : ℕ → Text → Text → Response
  broken : Text → Text → Response

starts_with : Text → Text → Bool
starts_with [] t = true
starts_with (c ∷ s) [] = false
starts_with (c ∷ s) (d ∷ t) = c == d && starts_with s t

unfoldable pub guess_ext : Text → Text
unfolding starts_with
guess_ext mime =
    let m = map lower mime in
    if m === codes "image/png"
    then codes ".png"
    else if m === codes "image/jpeg"
    then codes ".jpg"
    else if m === codes "image/gif"
    then codes ".gif"
    else if m === codes "image/webp"
    then codes ".webp"
    else if m === codes "application/pdf"
    then codes ".pdf"
    else if starts_with (codes "text/") m
    then codes ".txt"
    else codes ".bin"

-- The name under which the file is sent; `now` is `Date.now()`.
unfoldable pub upload_name : ℕ → File → Text
upload_name now f =
    if f.name === [] || (f.name === codes "image.png" || f.name === codes "blob")
    then codes "paste-" ++ decimal now ++ guess_ext f.mime
    else f.name

or_else : Text → Text → Text
or_else t d = if t === [] then d else t

-- `err.message || String(err)` of `new Error(message)`
error_text : Text → Text
unfolding or_else
error_text message = or_else message (codes "Error")

-- What a batch reads of the error that uploadOneFile throws, if it does.
unfoldable pub upload_error : (Text → Text) → Response → Option Text
unfolding or_else error_text
upload_error t (broken message whole) = some (or_else message whole)
upload_error t (responded status scope error) =
    if status == 401
    then some (
        error_text (if scope === codes "view" then t (codes "房间密码错误，请重试") else t (codes "管理员密码错误")))
    else if status == 403
    then some (error_text (or_else error (t (codes "上传未启用"))))
    else if status == 413
    then some (error_text (t (codes "文件过大")))
    else if is_ok status
    then none
    else some (error_text (or_else error (codes "HTTP " ++ decimal status)))

-- The variables of a batch of uploads, and the files that were sent.
pub record Batch : Type 0 where
  pub sent : List File
  pub ok : ℕ
  pub fail : ℕ
  pub last_err : Text
  pub bad_admin : Bool

pub file_done : (Text → Text) → Option Text → Batch → Batch
file_done t none b = record b { ok = b.ok + 1 }
file_done t (some err) b = record b {
  fail = b.fail + 1;
  last_err = err;
  bad_admin = err === t (codes "管理员密码错误");
}

pub upload_next : (Text → Text) → File → Response → Batch → Batch
unfolding file_done
upload_next t f r b =
    if b.bad_admin
    then record b { fail = b.fail + 1 }
    else file_done t (upload_error t r) (record b { sent = b.sent ++ f ∷ [] })

pub upload_loop : (Text → Text) → List (File × Response) → Batch → Batch
upload_loop t [] b = b
upload_loop t ((f, r) ∷ files) b = upload_loop t files (upload_next t f r b)

pub upload_files : (Text → Text) → List (File × Response) → Batch
upload_files t files =
    upload_loop t files (record { sent = []; ok = 0; fail = 0; last_err = []; bad_admin = false })

-- What the page does at the end of a batch. With another administrator password it sends the same files
-- again.
pub data UploadEnd : Type 0 where
  ask_admin : UploadEnd
  uploaded : ℕ → UploadEnd
  partly : ℕ → ℕ → Text → UploadEnd
  all_failed : Text → UploadEnd

unfoldable pub upload_end : (Text → Text) → Batch → UploadEnd
unfolding or_else
upload_end t b =
    if b.bad_admin
    then ask_admin
    else if b.fail == 0
    then uploaded b.ok
    else if not (b.ok == 0)
    then partly b.ok b.fail b.last_err
    else all_failed (or_else b.last_err (t (codes "上传失败")))

-- The files with the two passwords, where the answers to the questions let an upload start. Whether
-- uploads are open is looked at before and after the first question.
with_file_password : List File → Text → Option Text → Option (List File × Text × Text)
with_file_password files admin none = none
with_file_password files admin (some []) = none
with_file_password files admin (some (c ∷ pw)) = some (files, admin, c ∷ pw)

admin_of : Bool → Option Text → Text
admin_of open_before answer = if open_before then [] else text_or_empty answer

unfoldable pub prompt_upload_files :
    Bool → Bool → List File → Option Text → Option Text → Option (List File × Text × Text)
unfolding with_file_password admin_of
prompt_upload_files open_before open_after [] admin_answer file_answer = none
prompt_upload_files open_before open_after (f ∷ files) admin_answer file_answer =
    let admin = admin_of open_before admin_answer in
    if not open_after && admin === []
    then none
    else with_file_password (f ∷ files) admin file_answer
