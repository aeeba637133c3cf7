-- ===== src/Doc/WellFormed.antt =====
-- When `items` and `children` of a document agree.
use goclipboard.Common.{
  ℕ, zero, suc, ◌≡◌, refl, ◌≢◌, true, false, [], ◌++◌, append-nil, arith, if◌then◌else◌, length,
  ◌∙◌, sym, ap,
}
use goclipboard.Text.{Text}
use goclipboard.Dict.{get}
use goclipboard.Doc.{Doc, kids, len, has, parses, walk, walk_loop, empty}
use goclipboard.Doc.Forest.{Forest, nil, roots, flat, Shows, count, walk_loop-Shows}

-- Every item stands once in the trees that `children` shows, under its own identifier.
pub record IsWellFormed (d : Doc) : Type 0 where
  pub forest : Forest
  pub top : kids d [] ≡ roots forest
  pub shown : Shows d forest
  pub once : (id : Text) → count id (flat forest) ≡ (if has d id then 1 else 0)
  pub size : length (flat forest) ≡ len d
  pub no_kids : (id : Text) → has d id ≡ false → id ≢ [] → kids d id ≡ []
  pub parsed : (id : Text) → has d id ≡ true → parses id ≡ true

pub empty-IsWellFormed : IsWellFormed empty
unfolding kids roots flat count has len get
empty-IsWellFormed = record {
  forest = nil;
  top = refl;
  shown = tt;
  once = λ id. refl;
  size = refl;
  no_kids = λ id h n. refl;
  parsed = λ id h. cc;
}

pub walk_loop-done : (d : Doc) (fuel : ℕ) → walk_loop fuel d [] ≡ []
unfolding walk_loop
walk_loop-done d zero = refl
walk_loop-done d (suc fuel) = refl

-- The walk ends within its fuel, at the depth-first order of the trees.
pub walk-flat : (d : Doc) (w : IsWellFormed d) → walk d [] ≡ flat w.forest
unfolding walk
walk-flat d w =
    ap (walk_loop (len d) d) (w.top ∙ sym (append-nil (roots w.forest)))
    ∙ walk_loop-Shows d w.forest (len d) 0 [] w.shown (omega (arith, w.size))
    ∙ ap (λ t. flat w.forest ++ t) (walk_loop-done d 0)
    ∙ append-nil (flat w.forest)
