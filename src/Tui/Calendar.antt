-- ===== src/Tui/Calendar.antt =====
-- The calendar of the imports and that of the terminal interface agree.
pub mod Dates
use memoryd.Prelude.{
  ℕ, zero, suc, ◌+◌, ◌-◌, ◌*◌, ◌/◌, ◌%◌, ◌≤◌, ◌<◌, Bool, true, false, ◌&&◌, ◌||◌, not, ◌≡◌, refl,
  ◌∙◌, arith, ltb, leb, ◌==◌, if◌then◌else◌, inl, inr, Bool-cases, ap, leb→le,
}
use memoryd.Prelude.Int.{ℤ, pos, negsuc, ◌+ℤ◌, ◌-ℤ◌, ◌*ℤ◌, div_euclid, rem_euclid, int_laws}
use memoryd.Import.Iso8601.{days_from_civil}
use memoryd.Tui.{civil_of_era, civil_from_days}

-- The Gregorian calendar: a year that ends a century is long if its century is a fourth one.
abbrev pub is_leap : ℕ → Bool
is_leap y = if y % 100 == 0 then y % 400 == 0 else y % 4 == 0

abbrev pub is_short : ℕ → Bool
is_short m = (m == 4) || (m == 6) || (m == 9) || (m == 11)

abbrev pub days_in_month : ℕ → ℕ → ℕ
days_in_month y m =
    if m == 2 then 28 + (if is_leap y then 1 else 0) else if is_short m then 30 else 31

-- The day of the era, for a year that begins in March and a month counted from March.
abbrev pub day_of_era : ℕ → ℕ → ℕ → ℕ
day_of_era yoe mp d = yoe * 365 + yoe / 4 - yoe / 100 + ((153 * mp + 2) / 5 + (d - 1))

-- A year of the era whose February has 29 days.
abbrev pub ends_long : ℕ → Bool
ends_long yoe = (yoe % 4 == 3) && (not (yoe % 100 == 99) || (yoe % 400 == 399))

yoe_of :
    (yoe doy : ℕ)
    → yoe < 400
    → doy < (if ends_long yoe then 366 else 365)
    → let doe = yoe * 365 + yoe / 4 - yoe / 100 + doy in
      (doe - doe / 1460 + doe / 36524 - doe / 146096) / 365 ≡ yoe
yoe_of yoe doy h k = ground arith

-- The longest that a month counted from March can be.
abbrev pub longest : ℕ → ℕ
longest mp =
    if mp == 11 then 29 else if (mp == 1) || (mp == 3) || (mp == 6) || (mp == 8) then 30 else 31

mp_of :
    (mp d : ℕ)
    → mp < 12
    → 1 ≤ d
    → d ≤ longest mp
    → (5 * ((153 * mp + 2) / 5 + (d - 1)) + 2) / 153 ≡ mp
mp_of mp d h k l = ground arith

doy_of :
    (yoe doy : ℕ)
    → (yoe * 365 + yoe / 4 - yoe / 100 + doy) - (365 * yoe + yoe / 4 - yoe / 100) ≡ doy
doy_of yoe doy = omega arith

flag_of :
    (mp : ℕ)
    → mp < 12
    → ◌≡◌ {A = ℕ}
        (if leb (if ltb mp 10 then mp + 3 else mp - 9) 2 then 1 else 0)
        (if ltb mp 10 then 0 else 1)
flag_of mp k = ground arith

day_of : (mp d : ℕ) → 1 ≤ d → (153 * mp + 2) / 5 + (d - 1) - (153 * mp + 2) / 5 + 1 ≡ d
day_of mp d h = omega arith

-- The parts of a day of an era are found again.
pub civil_of_era_lem :
    (era : ℤ) (yoe mp d : ℕ)
    → yoe < 400
    → mp < 12
    → 1 ≤ d
    → d ≤ longest mp
    → (153 * mp + 2) / 5 + (d - 1) < (if ends_long yoe then 366 else 365)
    → civil_of_era era (day_of_era yoe mp d) ≡ (
      pos yoe +ℤ era *ℤ pos 400 +ℤ pos (if ltb mp 10 then 0 else 1),
      (if ltb mp 10 then mp + 3 else mp - 9),
      d,
    )
unfolding civil_of_era
civil_of_era_lem era yoe mp d h k l cap short =
    rw (yoe_of yoe ((153 * mp + 2) / 5 + (d - 1)) h short) (
      rw (doy_of yoe ((153 * mp + 2) / 5 + (d - 1)))
        (rw (mp_of mp d k l cap) (rw (flag_of mp k, day_of mp d l) refl)))

back_and_forth : (a b : ℤ) → a -ℤ b +ℤ b ≡ a
back_and_forth a b = omega int_laws

era_pos : (e doe : ℕ) → pos e *ℤ pos 146097 +ℤ pos doe ≡ pos (e * 146097 + doe)
unfolding ◌*ℤ◌ ◌+ℤ◌
era_pos e doe = ground arith

era_before : (doe : ℕ) → doe < 146097 → negsuc 0 *ℤ pos 146097 +ℤ pos doe ≡ negsuc (146096 - doe)
unfolding ◌*ℤ◌ ◌+ℤ◌
era_before doe h = ground arith

quotient : (e doe : ℕ) → doe < 146097 → (e * 146097 + doe) / 146097 ≡ e
quotient e doe h = omega arith

remainder : (e doe : ℕ) → doe < 146097 → (e * 146097 + doe) % 146097 ≡ doe
remainder e doe h = omega arith

quotient_before : (doe : ℕ) → (146096 - doe) / 146097 ≡ 0
quotient_before doe = omega arith

remainder_before : (doe : ℕ) → doe < 146097 → 146097 - 1 - (146096 - doe) % 146097 ≡ doe
remainder_before doe h = omega arith

-- A day of an era from year 0 on, and of the era before.
pub civil_from_days-pos :
    (e doe : ℕ)
    → doe < 146097
    → civil_from_days (pos e *ℤ pos 146097 +ℤ pos doe -ℤ pos 719468) ≡ civil_of_era (pos e) doe
unfolding civil_from_days div_euclid rem_euclid
civil_from_days-pos e doe h =
    rw (back_and_forth (pos e *ℤ pos 146097 +ℤ pos doe) (pos 719468), era_pos e doe)
      (rw (quotient e doe h, remainder e doe h) refl)

pub civil_from_days-before :
    (doe : ℕ)
    → doe < 146097
    → civil_from_days (negsuc 0 *ℤ pos 146097 +ℤ pos doe -ℤ pos 719468)
      ≡ civil_of_era (negsuc 0) doe
unfolding civil_from_days div_euclid rem_euclid
civil_from_days-before doe h =
    rw (back_and_forth (negsuc 0 *ℤ pos 146097 +ℤ pos doe) (pos 719468), era_before doe h)
      (rw (quotient_before doe, remainder_before doe h) refl)
