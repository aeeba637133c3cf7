-- ===== src/Page/Dialogs.antt =====
-- The questions of the page (static/app.js: askPassword, setModalBusy, submitPasswordModal,
-- closePasswordModal, confirmAction, closeConfirm). A question is the number of its promise, and
-- `answers` are the calls of `resolve`. Both dialogs exist in the page.
pub mod Once
use goclipboard.Common.{
  ℕ, zero, suc, Bool, true, false, Option, none, some, List, [], ◌∷◌, ◌++◌, if◌then◌else◌,
}
use goclipboard.Text.{Text, ◌===◌}

-- `modalState`, without the options, which only fill the dialog.
pub record Modal : Type 0 where
  pub question : ℕ
  pub busy : Bool

pub record Passwords : Type 0 where
  pub modal_state : Option Modal
  pub modal_hidden : Bool
  pub modal_error : Bool
  pub asked : ℕ
  -- `none` is `null`.
  pub answers : List (ℕ × Option Text)

pub resolve : Option Modal → Option Text → List (ℕ × Option Text)
resolve none value = []
resolve (some m) value = (m.question, value) ∷ []

pub ask_password : Passwords → Passwords
unfolding resolve
ask_password d = record d {
  answers = d.answers ++ resolve d.modal_state none;
  modal_state = some (record { question = d.asked; busy = false });
  modal_error = false;
  modal_hidden = false;
  asked = suc d.asked;
}

pub set_busy : Bool → Option Modal → Option Modal
set_busy busy none = none
set_busy busy (some m) = some (record m { busy = busy })

pub set_modal_busy : Bool → Passwords → Passwords
unfolding set_busy
set_modal_busy busy d = record d { modal_state = set_busy busy d.modal_state }

-- The dialog closes, and its question is answered.
pub answer_open : Option Text → Modal → Passwords → Passwords
answer_open value m d = if m.busy then d else record d {
  answers = d.answers ++ (m.question, value) ∷ [];
  modal_state = none;
  modal_hidden = true;
}

pub submit_modal : Text → Option Modal → Passwords → Passwords
unfolding answer_open
submit_modal pw none d = d
submit_modal pw (some m) d =
    if m.busy
    then d
    else if pw === []
    then record d { modal_error = true }
    else answer_open (some pw) m (record d { modal_error = false })

-- `pw` is what stands in the field.
pub submit_password_modal : Text → Passwords → Passwords
submit_password_modal pw d = submit_modal pw d.modal_state d

pub close_modal : Option Text → Option Modal → Passwords → Passwords
unfolding answer_open
close_modal value none d = record d { modal_hidden = true }
close_modal value (some m) d = answer_open value m d

pub close_password_modal : Option Text → Passwords → Passwords
close_password_modal value d = close_modal value d.modal_state d

-- What happens to the dialog.
pub data PasswordEvent : Type 0 where
  asks : PasswordEvent
  works : Bool → PasswordEvent
  submits : Text → PasswordEvent
  closes : Option Text → PasswordEvent

pub password_step : PasswordEvent → Passwords → Passwords
password_step asks d = ask_password d
password_step (works busy) d = set_modal_busy busy d
password_step (submits pw) d = submit_password_modal pw d
password_step (closes value) d = close_password_modal value d

pub password_run : List PasswordEvent → Passwords → Passwords
password_run [] d = d
password_run (e ∷ es) d = password_run es (password_step e d)

-- The dialog that asks for a confirmation.
pub record Confirm : Type 0 where
  pub confirm_state : Option ℕ
  pub confirm_hidden : Bool
  pub confirm_asked : ℕ
  pub confirm_answers : List (ℕ × Bool)

resolve_confirm : Option ℕ → Bool → List (ℕ × Bool)
resolve_confirm none value = []
resolve_confirm (some k) value = (k, value) ∷ []

unfoldable pub confirm_action : Confirm → Confirm
unfolding resolve_confirm
confirm_action d = record d {
  confirm_answers = d.confirm_answers ++ resolve_confirm d.confirm_state false;
  confirm_state = some d.confirm_asked;
  confirm_hidden = false;
  confirm_asked = suc d.confirm_asked;
}

unfoldable pub close_confirm : Bool → Confirm → Confirm
unfolding resolve_confirm
close_confirm value d = record d {
  confirm_answers = d.confirm_answers ++ resolve_confirm d.confirm_state value;
  confirm_state = none;
  confirm_hidden = true;
}
