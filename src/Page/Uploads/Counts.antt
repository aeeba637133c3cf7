-- ===== src/Page/Uploads/Counts.antt =====
-- What a batch of uploads sends and counts (static/app.js: uploadFilesWithPasswords).
use goclipboard.Common.{
  ℕ, suc, ◌+◌, ◌≡◌, refl, sym, ap, ◌∙◌, Bool, true, false, ◌||◌, Option, none, some, List, [], ◌∷◌,
  ◌++◌, append-nil, append_assoc, Bool-cases, inl, inr, arith, if◌then◌else◌, length,
}
use mathlib.Core.Path.{subst}
use goclipboard.Text.{Text, codes, ◌===◌}
use goclipboard.Page.Uploads.{
  File, Response, upload_error, Batch, file_done, upload_next, upload_loop, upload_files,
}

-- The server refused the administrator password.
refused : (Text → Text) → Option Text → Bool
refused t none = false
refused t (some err) = err === t (codes "管理员密码错误")

-- The files up to the first for which the server refuses the administrator password, that one included.
pub until_refused : (Text → Text) → List (File × Response) → List File
unfolding refused
until_refused t [] = []
until_refused t ((f, r) ∷ files) =
    f ∷ (if refused t (upload_error t r) then [] else until_refused t files)

pub any_refused : (Text → Text) → List (File × Response) → Bool
unfolding refused
any_refused t [] = false
any_refused t ((f, r) ∷ files) = refused t (upload_error t r) || any_refused t files

is_accepted : Option Text → Bool
is_accepted none = true
is_accepted (some err) = false

-- How many of the files up to that one the server takes.
unfoldable pub accepted : (Text → Text) → List (File × Response) → ℕ
unfolding refused is_accepted
accepted t [] = 0
accepted t ((f, r) ∷ files) =
    (if is_accepted (upload_error t r) then 1 else 0)
    + (if refused t (upload_error t r) then 0 else accepted t files)

-- What a batch has become from `b` on: these files were sent, so many of them taken, so many files
-- counted, and the administrator password refused or not.
pub record Tally (files : List File) (taken size : ℕ) (stop : Bool) (b e : Batch) : Type 0 where
  pub sent : e.sent ≡ b.sent ++ files
  pub ok : e.ok ≡ b.ok + taken
  pub all : e.ok + e.fail ≡ b.ok + b.fail + size
  pub bad_admin : e.bad_admin ≡ stop

abbrev pub Counted : (Text → Text) → List (File × Response) → Batch → Batch → Type 0
Counted t files b e =
    Tally (until_refused t files) (accepted t files) (length files) (any_refused t files) b e

after_refusal :
    (t : Text → Text) (files : List (File × Response)) (b : Batch)
    → b.bad_admin ≡ true
    → upload_loop t files b ≡ record b { fail = b.fail + length files }
unfolding upload_loop upload_next
after_refusal t [] b h =
    let e : b.fail + 0 ≡ b.fail = omega arith in ap (λ n. record b { fail = n }) (sym e)
after_refusal t ((f, r) ∷ files) b h =
    let b' = record b { fail = b.fail + 1 } in
    let e : b.fail + 1 + length files ≡ b.fail + suc (length files) = omega arith in
    ap
      (λ c.
        upload_loop t files
          (if c then b' else file_done t (upload_error t r) (record b { sent = b.sent ++ f ∷ [] })))
      h
    ∙ after_refusal t files b' h
    ∙ ap (λ n. record b { fail = n }) e

module _ (t : Text → Text) (f : File) (r : Response) (files : List (File × Response))
    (b : Batch) where
  grown : Batch
  grown = record b { sent = b.sent ++ f ∷ [] }

  -- The server took the file.
  took :
      {e : Batch}
      → upload_error t r ≡ none
      → Counted t files (record b { sent = b.sent ++ f ∷ []; ok = b.ok + 1 }) e
      → Counted t ((f, r) ∷ files) b e
  unfolding until_refused any_refused accepted refused is_accepted
  took e c = rw e (record {
    sent = c.sent ∙ append_assoc b.sent (f ∷ []) (until_refused t files);
    ok = c.ok ∙ omega arith;
    all = c.all ∙ omega arith;
    bad_admin = c.bad_admin;
  })

  -- The file failed for another reason.
  failed :
      (err : Text) {e : Batch}
      → upload_error t r ≡ some err
      → (err === t (codes "管理员密码错误")) ≡ false
      → Counted t files
          (record b {
            sent = b.sent ++ f ∷ [];
            fail = b.fail + 1;
            last_err = err;
            bad_admin = false;
          })
          e
      → Counted t ((f, r) ∷ files) b e
  unfolding until_refused any_refused accepted refused is_accepted
  failed err e n c =
      rw (e, n)
        (record {
          sent = c.sent ∙ append_assoc b.sent (f ∷ []) (until_refused t files);
          ok = c.ok ∙ omega arith;
          all = c.all ∙ omega arith;
          bad_admin = c.bad_admin;
        })

  -- The administrator password was refused.
  stopped :
      (err : Text)
      → upload_error t r ≡ some err
      → (err === t (codes "管理员密码错误")) ≡ true
      → Counted t ((f, r) ∷ files) b (record b {
        sent = b.sent ++ f ∷ [];
        fail = b.fail + 1 + length files;
        last_err = err;
        bad_admin = true;
      })
  unfolding until_refused any_refused accepted refused is_accepted
  stopped err e n =
      rw (e, n) (record { sent = refl; ok = omega arith; all = omega arith; bad_admin = refl })

-- The rest of a batch, by what became of its first file.
counted_by :
    (t : Text → Text) (f : File) (r : Response) (files : List (File × Response)) (b : Batch)
    (o : Option Text)
    → ((b' : Batch) → b'.bad_admin ≡ false → Counted t files b' (upload_loop t files b'))
    → upload_error t r ≡ o
    → b.bad_admin ≡ false
    → Counted t ((f, r) ∷ files) b (upload_loop t files (file_done t o (grown t f r files b)))
unfolding file_done grown
counted_by t f r files b none rest e h =
    took t f r files b e (rest (record b { sent = b.sent ++ f ∷ []; ok = b.ok + 1 }) h)
counted_by t f r files b (some err) rest e h =
    let admin = codes "管理员密码错误" in
    let b' : Bool → Batch = λ stop. record b {
      sent = b.sent ++ f ∷ [];
      fail = b.fail + 1;
      last_err = err;
      bad_admin = stop;
    } in
    elim (Bool-cases (err === t admin)) [
      | inl stop ↦
          subst (Counted t ((f, r) ∷ files) b)
            (sym (after_refusal t files (b' (err === t admin)) stop))
            (subst
              (λ stop.
                Counted t ((f, r) ∷ files) b
                  (record (b' stop) { fail = b.fail + 1 + length files }))
              (sym stop) (stopped t f r files b err e stop))
      | inr go ↦
          subst (λ stop. Counted t ((f, r) ∷ files) b (upload_loop t files (b' stop))) (sym go)
            (failed t f r files b err e go (rest (b' false) refl))
    ]

counted :
    (t : Text → Text) (files : List (File × Response)) (b : Batch)
    → b.bad_admin ≡ false
    → Counted t files b (upload_loop t files b)
unfolding upload_loop upload_next until_refused accepted any_refused grown
counted t [] b h = record {
  sent = sym (append-nil b.sent);
  ok = omega arith;
  all = omega arith;
  bad_admin = h;
}
counted t ((f, r) ∷ files) b h =
    subst
      (λ c. Counted t ((f, r) ∷ files) b (
        upload_loop t files (
          if c
          then record b { fail = b.fail + 1 }
          else file_done t (upload_error t r) (grown t f r files b))))
      (sym h) (counted_by t f r files b (upload_error t r) (counted t files) refl h)

-- A batch of uploads sends the files in their order up to the first for which the server refuses the
-- administrator password, counts those that the server took as successful and all others as failed, so
-- that both numbers add up to the number of files, and its flag says whether it was refused.
pub upload_files-Tally :
    (t : Text → Text) (files : List (File × Response))
    → ((upload_files t files).sent ≡ until_refused t files)
      × ((upload_files t files).ok ≡ accepted t files)
      × ((upload_files t files).ok + (upload_files t files).fail ≡ length files)
      × ((upload_files t files).bad_admin ≡ any_refused t files)
unfolding upload_files
upload_files-Tally t files =
    let c =
      counted t files (record { sent = []; ok = 0; fail = 0; last_err = []; bad_admin = false })
        refl in
    (c.sent, c.ok ∙ omega arith, c.all ∙ omega arith, c.bad_admin)
