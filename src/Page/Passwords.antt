-- ===== src/Page/Passwords.antt =====
-- Making up and saving a password of the room (static/app.js: generateEditPassword, saveEditPassword).
-- The random words, the answers of the server and what is typed are arguments.
pub mod Random
pub mod Retries
use goclipboard.Common.{
  ℕ, zero, suc, ◌+◌, ◌*◌, ◌/◌, ◌%◌, ◌^◌, Bool, true, false, Option, none, some, List, [], ◌∷◌, ◌++◌,
  if◌then◌else◌, ltb, leb, ◌==◌, length, map,
}
use goclipboard.Text.{Text, codes, ◌===◌}
use goclipboard.Rest.{is_ok}

pub chars : Text
chars = codes "ABCDEFGHJKLMNPQRSTUVWXYZabcdefghijkmnpqrstuvwxyz23456789"

abbrev pub max_unbiased : ℕ
max_unbiased = 0x100000000 / 56 * 56

-- `chars[i]` of an index inside of the text
unfoldable pub char_at : Text → ℕ → ℕ
char_at [] i = 0
char_at (c ∷ t) zero = c
char_at (c ∷ t) (suc i) = char_at t i

add_char : ℕ → Option Text → Option Text
add_char c none = none
add_char c (some t) = some (c ∷ t)

-- `n` characters, each by the first of the words that come which is not rejected; `none` where the words
-- run out.
pub generate : ℕ → List ℕ → Option Text
unfolding add_char
generate zero words = some []
generate (suc n) [] = none
generate (suc n) (x ∷ words) =
    let again = generate (suc n) words in
    let rest = generate n words in
    if leb max_unbiased x then again else add_char (char_at chars (x % 56)) rest

-- `generateEditPassword` where the browser has `crypto.getRandomValues`, whose words are the argument.
pub generate_edit_password : List ℕ → Option Text
generate_edit_password words = generate 12 words

-- `n` characters at the indices that are drawn in the rounds of the loop.
drawn : ℕ → (ℕ → ℕ) → Text
drawn zero draw = []
drawn (suc n) draw = char_at chars (draw 0) ∷ drawn n (λ j. draw (suc j))

-- `generateEditPassword` without it: `draw j` is what `Math.floor(Math.random() * n)` is in round `j`.
unfoldable pub generate_without_crypto : (ℕ → ℕ) → Text
unfolding drawn
generate_without_crypto draw = drawn 12 draw

-- The result of a save, and the question that it may wait for. A request that fails is worth a status that
-- is not ok.
pub data Saved : Type 0 where
  saved : Bool → Saved
  -- The question for the current password is open.
  asking : Saved

-- `attempt`, with what is typed at each question; `none` is a cancelled one.
pub attempt : (Text → ℕ) → Text → List (Option Text) → Saved
attempt server cur [] = if server cur == 403 then asking else saved (is_ok (server cur))
attempt server cur (none ∷ typed) =
    if server cur == 403 then saved false else saved (is_ok (server cur))
attempt server cur (some pw ∷ typed) =
    let again = attempt server pw typed in
    if server cur == 403 then again else saved (is_ok (server cur))

-- `edit_password` is what is stored for the room.
unfoldable pub save_edit_password : (Text → ℕ) → Text → Text → List (Option Text) → Saved
save_edit_password server edit_password current typed =
    attempt server (if current === [] then edit_password else current) typed
