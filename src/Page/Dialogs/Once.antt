-- ===== src/Page/Dialogs/Once.antt =====
-- Every question for a password is answered once (static/app.js: askPassword and the two ways to close
-- its dialog).
use goclipboard.Common.{
  ℕ, zero, suc, ◌≡◌, refl, sym, ap, ◌∙◌, Bool, true, false, Option, none, some, List, [], ◌∷◌, ◌++◌,
  append-nil, if◌then◌else◌,
}
use goclipboard.Text.{Text, ◌===◌}
use goclipboard.Page.Dialogs.{
  Modal, Passwords, resolve, ask_password, set_busy, set_modal_busy, answer_open, submit_modal,
  submit_password_modal, close_modal, close_password_modal, PasswordEvent, asks, works, submits,
  closes, password_step, password_run,
}

-- The numbers below `n`.
unfoldable pub upto : ℕ → List ℕ
upto zero = []
upto (suc n) = upto n ++ n ∷ []

unfoldable pub waits : Option Modal → List ℕ
waits none = []
waits (some m) = m.question ∷ []

abbrev pub is_closed : Option Modal → Bool
is_closed none = true
is_closed (some m) = false

abbrev pub questions : List (ℕ × Option Text) → List ℕ
questions [] = []
questions ((k, value) ∷ l) = k ∷ questions l

-- The questions that were answered, in their order, and behind them the one that is open, are all the
-- questions that were asked. The dialog is hidden exactly while none is open.
pub record Once (d : Passwords) : Type 0 where
  pub answered : questions d.answers ++ waits d.modal_state ≡ upto d.asked
  pub shown : d.modal_hidden ≡ is_closed d.modal_state

questions-append : (l m : List (ℕ × Option Text)) → questions (l ++ m) ≡ questions l ++ questions m
questions-append [] m = refl
questions-append ((k, value) ∷ l) m = ap (λ t. k ∷ t) (questions-append l m)

questions-resolve : (o : Option Modal) (value : Option Text) → questions (resolve o value) ≡ waits o
unfolding resolve waits
questions-resolve none value = refl
questions-resolve (some m) value = refl

ask_password-Once : (d : Passwords) → Once d → Once (ask_password d)
unfolding ask_password upto waits
ask_password-Once d o = record {
  answered =
      ap (λ l. l ++ d.asked ∷ [])
        (questions-append d.answers (resolve d.modal_state none)
          ∙ ap (λ l. questions d.answers ++ l) (questions-resolve d.modal_state none)
          ∙ o.answered);
  shown = refl;
}

set_busy-waits :
    (busy : Bool) (o : Option Modal)
    → (waits (set_busy busy o) ≡ waits o) × (is_closed (set_busy busy o) ≡ is_closed o)
unfolding set_busy waits
set_busy-waits busy none = (refl, refl)
set_busy-waits busy (some m) = (refl, refl)

set_modal_busy-Once : (busy : Bool) (d : Passwords) → Once d → Once (set_modal_busy busy d)
unfolding set_modal_busy
set_modal_busy-Once busy d o =
    let w = set_busy-waits busy d.modal_state in
    record {
      answered = ap (λ l. questions d.answers ++ l) w.0 ∙ o.answered;
      shown = o.shown ∙ sym w.1;
    }

if-Once : (b : Bool) (d e : Passwords) → Once d → Once e → Once (if b then d else e)
if-Once true d e h k = h
if-Once false d e h k = k

answer_open-Once :
    (value : Option Text) (m : Modal) (d : Passwords)
    → d.modal_state ≡ some m
    → Once d
    → Once (answer_open value m d)
unfolding answer_open waits
answer_open-Once value m d e o = if-Once m.busy d _ o (record {
  answered =
      append-nil (questions (d.answers ++ (m.question, value) ∷ []))
      ∙ questions-append d.answers ((m.question, value) ∷ [])
      ∙ ap (λ s. questions d.answers ++ waits s) (sym e)
      ∙ o.answered;
  shown = refl;
})

submit_modal-Once :
    (pw : Text) (s : Option Modal) (d : Passwords)
    → d.modal_state ≡ s
    → Once d
    → Once (submit_modal pw s d)
unfolding submit_modal
submit_modal-Once pw none d e o = o
submit_modal-Once pw (some m) d e o = if-Once m.busy d _ o (
    if-Once (pw === []) (record d { modal_error = true }) _
      (record { answered = o.answered; shown = o.shown })
      (answer_open-Once (some pw) m (record d { modal_error = false }) e
        (record { answered = o.answered; shown = o.shown })))

close_modal-Once :
    (value : Option Text) (s : Option Modal) (d : Passwords)
    → d.modal_state ≡ s
    → Once d
    → Once (close_modal value s d)
unfolding close_modal
close_modal-Once value none d e o = record { answered = o.answered; shown = sym (ap is_closed e) }
close_modal-Once value (some m) d e o = answer_open-Once value m d e o

password_step-Once : (e : PasswordEvent) (d : Passwords) → Once d → Once (password_step e d)
unfolding password_step submit_password_modal close_password_modal
password_step-Once asks d o = ask_password-Once d o
password_step-Once (works busy) d o = set_modal_busy-Once busy d o
password_step-Once (submits pw) d o = submit_modal-Once pw d.modal_state d refl o
password_step-Once (closes value) d o = close_modal-Once value d.modal_state d refl o

-- Whatever is asked, submitted and closed, in whatever order: every question for a password that was
-- asked has been answered exactly once, in the order of the questions, except for the last one while its
-- dialog is shown. An answered question is never answered again.
pub password_run-Once :
    (es : List PasswordEvent) (d : Passwords) → Once d → Once (password_run es d)
unfolding password_run
password_run-Once [] d o = o
password_run-Once (e ∷ es) d o = password_run-Once es (password_step e d) (password_step-Once e d o)
