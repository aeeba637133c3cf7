-- ===== src/Page/Ttl.antt =====
-- The TTL field (static/app.js: readTTLSeconds, setTTLControls, checkTTL). The two controls hold texts.
use goclipboard.Common.{
  ℕ, ◌+◌, ◌-◌, ◌*◌, ◌/◌, ◌%◌, ◌^◌, ◌≤◌, ◌<◌, ◌≡◌, refl, sym, ap, ◌∙◌, Bool, true, false, Option,
  none, some, Bool-cases, inl, inr, arith, if◌then◌else◌, ltb, leb, ◌==◌,
}
use mathlib.Core.Path.{subst}
use goclipboard.Text.{Text}
use goclipboard.Number.{number, positive_integer, decimal}
use goclipboard.Number.RoundTrip.{positive_integer-decimal}

pub record TtlControls : Type 0 where
  pub ttl_value : Text
  pub ttl_unit : Text

abbrev pub max_safe_integer : ℕ
max_safe_integer = 2 ^ 53 - 1

-- A safe integer above 0, else 0.
safe_part : Option ℕ → ℕ
safe_part none = 0
safe_part (some n) = if leb n max_safe_integer then n else 0

safe_product : ℕ → ℕ → ℕ
safe_product value unit =
    if value == 0
    then 0
    else if unit == 0
    then 0
    else if leb (value * unit) max_safe_integer
    then value * unit
    else 0

pub read_ttl_seconds : TtlControls → ℕ
unfolding safe_part safe_product
read_ttl_seconds c =
    safe_product (safe_part (positive_integer (number c.ttl_value)))
      (safe_part (positive_integer (number c.ttl_unit)))

-- `units.find(...) || 60`
ttl_unit_of : ℕ → ℕ
ttl_unit_of seconds =
    if seconds % 86400 == 0 then 86400 else if seconds % 3600 == 0 then 3600 else 60

at_least_one : ℕ → ℕ
at_least_one n = if ltb 1 n then n else 1

pub set_ttl_controls : ℕ → TtlControls
unfolding ttl_unit_of at_least_one
set_ttl_controls seconds =
    let unit = ttl_unit_of seconds in
    record { ttl_value = decimal (at_least_one (seconds / unit)); ttl_unit = decimal unit }

-- What the field shows of its state, and how often it was complained about.
pub record TtlField : Type 0 where
  pub controls : TtlControls
  pub invalid : Bool
  pub invalid_notified : Bool
  pub toasts : ℕ

unfoldable pub check_ttl : TtlField → TtlField × Bool
check_ttl f =
    if read_ttl_seconds f.controls == 0
    then (
      record f {
        invalid = true;
        invalid_notified = true;
        toasts = if f.invalid_notified then f.toasts else f.toasts + 1;
      },
      false,
    )
    else (record f { invalid = false; invalid_notified = false }, true)

safe_decimal :
    (n : ℕ) → 0 < n → n ≤ max_safe_integer → safe_part (positive_integer (number (decimal n))) ≡ n
unfolding safe_part
safe_decimal n pos small =
    let fits : leb n max_safe_integer ≡ true = ground arith in
    rw (positive_integer-decimal n pos, fits) refl

read_controls :
    (v u : ℕ)
    → 0 < v
    → 0 < u
    → v ≤ max_safe_integer
    → u ≤ max_safe_integer
    → v * u ≤ max_safe_integer
    → read_ttl_seconds (record { ttl_value = decimal v; ttl_unit = decimal u }) ≡ v * u
unfolding read_ttl_seconds safe_product
read_controls v u pv pu sv su sp =
    let a : (v == 0) ≡ false = ground arith in
    let b : (u == 0) ≡ false = ground arith in
    let fits : leb (v * u) max_safe_integer ≡ true = ground arith in
    rw (safe_decimal v pv sv, safe_decimal u pu su, a, b, fits) refl

-- A TTL in whole minutes, at least one.
unfoldable pub whole_minutes : ℕ → ℕ
whole_minutes seconds = if ltb seconds 60 then 60 else seconds - seconds % 60

-- The value that is shown, by the unit.
value_of : ℕ → ℕ → ℕ
value_of unit seconds = at_least_one (seconds / unit)

exact :
    (seconds : ℕ)
    → 0 < seconds
    → seconds % 86400 ≡ 0
    → value_of 86400 seconds * 86400 ≡ whole_minutes seconds
unfolding value_of at_least_one whole_minutes
exact seconds pos whole = ground arith

exact_hours :
    (seconds : ℕ)
    → 0 < seconds
    → seconds % 3600 ≡ 0
    → value_of 3600 seconds * 3600 ≡ whole_minutes seconds
unfolding value_of at_least_one whole_minutes
exact_hours seconds pos whole = ground arith

down_to_minutes : (seconds : ℕ) → 0 < seconds → value_of 60 seconds * 60 ≡ whole_minutes seconds
unfolding value_of at_least_one whole_minutes
down_to_minutes seconds pos = ground arith

positive : (unit seconds : ℕ) → 0 < value_of unit seconds
unfolding value_of at_least_one
positive unit seconds = ground arith

minutes_fit : (seconds : ℕ) → seconds ≤ max_safe_integer → whole_minutes seconds ≤ max_safe_integer
unfolding whole_minutes
minutes_fit seconds small = ground arith

-- The field shows the unit, and the value for it.
shown : ℕ → ℕ → TtlControls
shown unit seconds = record { ttl_value = decimal (value_of unit seconds); ttl_unit = decimal unit }

read_shown :
    (unit seconds : ℕ)
    → 0 < unit
    → unit ≤ max_safe_integer
    → seconds ≤ max_safe_integer
    → value_of unit seconds ≤ value_of unit seconds * unit
    → value_of unit seconds * unit ≡ whole_minutes seconds
    → read_ttl_seconds (shown unit seconds) ≡ whole_minutes seconds
unfolding shown
read_shown unit seconds pos safe small grows e =
    let fits : value_of unit seconds * unit ≤ max_safe_integer =
      subst (λ m. m ≤ max_safe_integer) (sym e) (minutes_fit seconds small) in
    read_controls (value_of unit seconds) unit (positive unit seconds) pos
      (omega (arith, grows, fits)) safe fits
    ∙ e

set_shown : (seconds : ℕ) → set_ttl_controls seconds ≡ shown (ttl_unit_of seconds) seconds
unfolding set_ttl_controls shown value_of
set_shown seconds = refl

-- What the field shows for a TTL of `seconds`, at least 1 and a safe integer, is read back as that TTL
-- rounded down to whole minutes, and as one minute where it is less: whole minutes come back as they are.
pub read_ttl_seconds-set_ttl_controls :
    (seconds : ℕ)
    → 0 < seconds
    → seconds ≤ max_safe_integer
    → read_ttl_seconds (set_ttl_controls seconds) ≡ whole_minutes seconds
unfolding ttl_unit_of
read_ttl_seconds-set_ttl_controls seconds pos small =
    ap read_ttl_seconds (set_shown seconds) ∙ elim (Bool-cases (seconds % 86400 == 0)) [
      | inl days ↦ rw days (
          read_shown 86400 seconds (omega arith) (omega arith) small (omega arith)
            (exact seconds pos (ground arith)))
      | inr no_days ↦ elim (Bool-cases (seconds % 3600 == 0)) [
        | inl hours ↦
            rw (no_days, hours)
              (read_shown 3600 seconds (omega arith) (omega arith) small (omega arith)
                (exact_hours seconds pos (ground arith)))
        | inr no_hours ↦
            rw (no_days, no_hours)
              (read_shown 60 seconds (omega arith) (omega arith) small (omega arith)
                (down_to_minutes seconds pos))
      ]
    ]
