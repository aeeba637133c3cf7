-- ===== src/Page/Passwords/Retries.antt =====
-- The retries of a save (static/app.js: saveEditPassword).
use goclipboard.Common.{
  ℕ, ◌≡◌, refl, true, false, Option, none, some, List, [], ◌∷◌, ◌++◌, map, ◌==◌,
}
use goclipboard.Text.{Text}
use goclipboard.Rest.{is_ok}
use goclipboard.Page.Passwords.{saved, attempt}

-- The server refuses every one of these passwords.
pub data Refuses (server : Text → ℕ) : List Text → Type 0 where
  none_left : Refuses server []
  refuses :
      {pw : Text} {l : List Text}
      → (server pw == 403) ≡ true
      → Refuses server l
      → Refuses server (pw ∷ l)

fits_at_once :
    (server : Text → ℕ) (pw : Text) (typed : List (Option Text))
    → (server pw == 403) ≡ false
    → attempt server pw typed ≡ saved (is_ok (server pw))
unfolding attempt
fits_at_once server pw [] fits = rw fits refl
fits_at_once server pw (none ∷ typed) fits = rw fits refl
fits_at_once server pw (some next ∷ typed) fits = rw fits refl

-- After any number of passwords that the server refuses, the save is worth what the server says to the
-- next one, whatever is typed behind it.
pub attempt-Refuses :
    (server : Text → ℕ) (cur : Text) (wrong : List Text) (pw : Text) (typed : List (Option Text))
    → Refuses server (cur ∷ wrong)
    → (server pw == 403) ≡ false
    → attempt server cur (map some wrong ++ some pw ∷ typed) ≡ saved (is_ok (server pw))
unfolding attempt
attempt-Refuses server cur [] pw typed (refuses e r) fits = rw e (fits_at_once server pw typed fits)
attempt-Refuses server cur (w ∷ wrong) pw typed (refuses e r) fits =
    rw e (attempt-Refuses server w wrong pw typed r fits)
