-- ===== src/Page/Passwords/Random.antt =====
-- The characters of a generated password are drawn without a bias (static/app.js: generateEditPassword).
use goclipboard.Common.{
  ℕ, zero, suc, ◌+◌, ◌*◌, ◌/◌, ◌%◌, ◌≤◌, ◌<◌, ◌≡◌, refl, ap, Bool, true, false, not, some, List, [],
  ◌∷◌, Bool-cases, inl, inr, arith, if◌then◌else◌, leb, length, map, filter, take,
}
use mathlib.Core.Path.{subst}
use goclipboard.Text.{Text}
use goclipboard.Page.Passwords.{
  chars, max_unbiased, char_at, add_char, generate, generate_edit_password,
}

-- Every character stands for the same number of words that are not rejected: the words that pick the
-- character at `j` are the numbers `q * 56 + j` with `q` below 76695844.
pub record Uniform (x q j : ℕ) : Type 0 where
  pub word : q * 56 + j ≡ x
  pub block : q < 76695844
  pub index : j < 56

words_Uniform : (x : ℕ) → leb max_unbiased x ≡ false → Uniform x (x / 56) (x % 56)
words_Uniform x fits = record { word = omega arith; block = ground arith; index = omega arith }

picks_index : (x q j : ℕ) → Uniform x q j → (leb max_unbiased x ≡ false) × (x % 56 ≡ j)
picks_index x q j u =
    let w = u.word in let b = u.block in let i = u.index in (ground arith, omega arith)

accepts : ℕ → Bool
accepts x = not (leb max_unbiased x)

-- The characters that the words pick which are not rejected.
unfoldable pub picked : List ℕ → Text
unfolding accepts
picked words = map (λ x. char_at chars (x % 56)) (filter accepts words)

none_picked : (n : ℕ) → suc n ≤ length (picked []) → ⊥
unfolding picked
none_picked n h = omega (arith, h)

less : (n c : ℕ) (t : Text) → suc n ≤ length (c ∷ t) → n ≤ length t
less n c t h = omega (arith, h)

picked-rejected :
    (x : ℕ) (words : List ℕ) → leb max_unbiased x ≡ true → picked (x ∷ words) ≡ picked words
unfolding picked accepts
picked-rejected x words h =
    ap
      (λ b.
        map (λ x. char_at chars (x % 56))
          (if not b then x ∷ filter accepts words else filter accepts words))
      h

picked-accepted :
    (x : ℕ) (words : List ℕ)
    → leb max_unbiased x ≡ false
    → picked (x ∷ words) ≡ char_at chars (x % 56) ∷ picked words
unfolding picked accepts
picked-accepted x words h =
    ap
      (λ b.
        map (λ x. char_at chars (x % 56))
          (if not b then x ∷ filter accepts words else filter accepts words))
      h

generate_lem :
    (n : ℕ) (words : List ℕ)
    → n ≤ length (picked words)
    → generate n words ≡ some (take n (picked words))
unfolding generate add_char
generate_lem zero words h = refl
generate_lem (suc n) [] h = absurd (none_picked n h)
generate_lem (suc n) (x ∷ words) h = elim (Bool-cases (leb max_unbiased x)) [
  | inl rejected ↦
      let p = picked-rejected x words rejected in
      rw (rejected, p) (generate_lem (suc n) words (subst (λ l. suc n ≤ length l) p h))
  | inr fits ↦
      let p = picked-accepted x words fits in
      let h' : n ≤ length (picked words) =
        less n (char_at chars (x % 56)) (picked words) (subst (λ l. suc n ≤ length l) p h) in
      rw (fits, p, generate_lem n words h') refl
]

-- With at least twelve words that are not rejected, the
-- password is what the first twelve of them pick. The words that are not rejected and pick the
-- character at the place `j` are the numbers `q * 56 + j` with `q` below 76695844, as many for each of
-- the 56 characters.
pub generate_edit_password-Uniform :
    (words : List ℕ)
    → 12 ≤ length (picked words)
    → (generate_edit_password words ≡ some (take 12 (picked words)))
      × (length chars ≡ 56)
      × ((x : ℕ) → leb max_unbiased x ≡ false → Uniform x (x / 56) (x % 56))
      × ((x q j : ℕ) → Uniform x q j → (leb max_unbiased x ≡ false) × (x % 56 ≡ j))
unfolding generate_edit_password chars
generate_edit_password-Uniform words enough =
    (generate_lem 12 words enough, refl, words_Uniform, picks_index)
