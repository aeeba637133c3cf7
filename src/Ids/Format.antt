-- ===== src/Ids/Format.antt =====
-- `parseID` reads back what `formatID` prints.
use goclipboard.Common.{
  ℕ, suc, ◌<◌, ◌≡◌, refl, ◌≢◌, some, [], ◌∷◌, ◌++◌, arith, length, drop, length-append,
  take-length-append, All,
}
use goclipboard.Text.{Text}
use goclipboard.Number.{number, positive_integer, decimal}
use goclipboard.Number.RoundTrip.{positive_integer-decimal, decimal-ne-nil}
use goclipboard.Ids.{parse_id, parse_at, stamp, format_id, index_of_colon}

-- A site with a name and without a colon: the client ids, and `base`, `server`, `mine`, `their`.
pub record IsSite (site : Text) : Type 0 where
  pub named : site ≢ []
  pub plain : All (λ c. c ≢ b':') site

index_of_colon-append :
    (site t : Text)
    → All (λ c. c ≢ b':') site
    → index_of_colon (site ++ b':' ∷ t) ≡ some (length site)
unfolding index_of_colon
index_of_colon-append [] t h = refl
index_of_colon-append (c ∷ site) t h = ground (arith, index_of_colon-append site t h.1)

drop-suc : (s t : Text) (c : ℕ) → drop (suc (length s)) (s ++ c ∷ t) ≡ t
drop-suc [] t c = refl
drop-suc (x ∷ s) t c = drop-suc s t c

length-pos : (t : Text) → t ≢ [] → 0 < length t
length-pos [] h = absurd (h refl)
length-pos (x ∷ t) h = omega arith

parse_at-append :
    (site t : Text) (clock : ℕ)
    → site ≢ []
    → t ≢ []
    → positive_integer (number t) ≡ some clock
    → parse_at (site ++ b':' ∷ t) (some (length site))
      ≡ some (record { site = site; clock = clock })
unfolding parse_at stamp
parse_at-append site t clock hs ht h =
    rw (take-length-append site (b':' ∷ t), drop-suc site t b':', h)
      (ground (arith, length-append site (b':' ∷ t), length-pos site hs, length-pos t ht))

-- For a site with a name and without a colon and a positive clock, `parseID` reads back the site and
-- the clock that `formatID` printed.
pub parse_id-format_id :
    (site : Text) (clock : ℕ)
    → IsSite site
    → 0 < clock
    → parse_id (format_id site clock) ≡ some (record { site = site; clock = clock })
unfolding parse_id format_id
parse_id-format_id site clock s h = rw (index_of_colon-append site (decimal clock) s.plain) (
    parse_at-append site (decimal clock) clock s.named (decimal-ne-nil clock)
      (positive_integer-decimal clock h))
