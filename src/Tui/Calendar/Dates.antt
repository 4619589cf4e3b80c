-- ===== src/Tui/Calendar/Dates.antt =====
-- A date is found again from its number of days.
use memoryd.Prelude.{
  ℕ, zero, suc, ◌+◌, ◌-◌, ◌*◌, ◌/◌, ◌%◌, ◌≤◌, ◌<◌, true, false, ◌≡◌, ◌∙◌, arith, ltb, leb,
  if◌then◌else◌, inl, inr, Bool-cases, leb→le,
}
use memoryd.Prelude.Int.{ℤ, pos, negsuc, ◌+ℤ◌, ◌-ℤ◌, ◌*ℤ◌, div_euclid, rem_euclid}
use memoryd.Import.Iso8601.{days_from_civil}
use memoryd.Tui.{civil_from_days}
use memoryd.Tui.Calendar.{
  days_in_month, day_of_era, longest, ends_long, civil_of_era_lem, civil_from_days-pos,
  civil_from_days-before,
}

-- The conditions on the parts of a day of an era.
abbrev AreParts : ℕ → ℕ → ℕ → Type 0
AreParts yoe mp d =
    (yoe < 400)
    × (mp < 12)
    × (1 ≤ d)
    × (d ≤ longest mp)
    × ((153 * mp + 2) / 5 + (d - 1) < (if ends_long yoe then 366 else 365))

day_of_era_lt : (yoe mp d : ℕ) → AreParts yoe mp d → day_of_era yoe mp d < 146097
day_of_era_lt yoe mp d (h, k, l, cap, short) = ground arith

abbrev date_of : ℤ → ℕ → ℕ → ℕ → ℤ × ℕ × ℕ
date_of era yoe mp d = (
  pos yoe +ℤ era *ℤ pos 400 +ℤ pos (if ltb mp 10 then 0 else 1),
  (if ltb mp 10 then mp + 3 else mp - 9),
  d,
)

recovers :
    (e yoe mp d : ℕ)
    → AreParts yoe mp d
    → civil_from_days (pos e *ℤ pos 146097 +ℤ pos (day_of_era yoe mp d) -ℤ pos 719468)
      ≡ date_of (pos e) yoe mp d
recovers e yoe mp d parts =
    let (h, k, l, cap, short) = parts in
    civil_from_days-pos e (day_of_era yoe mp d) (day_of_era_lt yoe mp d parts)
    ∙ civil_of_era_lem (pos e) yoe mp d h k l cap short

recovers_before :
    (yoe mp d : ℕ)
    → AreParts yoe mp d
    → civil_from_days (negsuc 0 *ℤ pos 146097 +ℤ pos (day_of_era yoe mp d) -ℤ pos 719468)
      ≡ date_of (negsuc 0) yoe mp d
recovers_before yoe mp d parts =
    let (h, k, l, cap, short) = parts in
    civil_from_days-before (day_of_era yoe mp d) (day_of_era_lt yoe mp d parts)
    ∙ civil_of_era_lem (negsuc 0) yoe mp d h k l cap short

-- The parts of a date from March on, and of one in January or February of the next year.
parts_late :
    (y m d : ℕ)
    → m ≤ 12
    → 2 < m
    → 1 ≤ d
    → d ≤ days_in_month y m
    → AreParts (y % 400) ((m + 9) % 12) d
parts_late y m d h1 h2 k1 k2 = (omega arith, omega arith, k1, ground arith, ground arith)

parts_early :
    (x m d : ℕ)
    → 1 ≤ m
    → m ≤ 2
    → 1 ≤ d
    → d ≤ days_in_month (suc x) m
    → AreParts (x % 400) ((m + 9) % 12) d
parts_early x m d h1 h2 k1 k2 = (omega arith, omega arith, k1, ground arith, ground arith)

-- The date of the parts is the date.
date_late :
    (y m d : ℕ)
    → m ≤ 12
    → 2 < m
    → date_of (pos (y / 400)) (y % 400) ((m + 9) % 12) d ≡ (pos y, m, d)
unfolding ◌+ℤ◌ ◌*ℤ◌
date_late y m d h1 h2 = ground arith

date_early :
    (x m d : ℕ)
    → 1 ≤ m
    → m ≤ 2
    → date_of (pos (x / 400)) (x % 400) ((m + 9) % 12) d ≡ (pos (suc x), m, d)
unfolding ◌+ℤ◌ ◌*ℤ◌
date_early x m d h1 h2 = ground arith

date_before : (m d : ℕ) → 1 ≤ m → m ≤ 2 → date_of (negsuc 0) 399 ((m + 9) % 12) d ≡ (pos 0, m, d)
unfolding ◌+ℤ◌ ◌*ℤ◌
date_before m d h1 h2 = ground arith

parts_before :
    (m d : ℕ) → 1 ≤ m → m ≤ 2 → 1 ≤ d → d ≤ days_in_month 0 m → AreParts 399 ((m + 9) % 12) d
parts_before m d h1 h2 k1 k2 = (omega arith, omega arith, k1, ground arith, ground arith)

year_before : (x : ℕ) → pos (suc x) -ℤ pos 1 ≡ pos x
unfolding ◌-ℤ◌
year_before x = ground arith

early_zero :
    (m d : ℕ)
    → leb m 2 ≡ true
    → 1 ≤ m
    → 1 ≤ d
    → d ≤ days_in_month 0 m
    → civil_from_days (days_from_civil (pos 0) m d) ≡ (pos 0, m, d)
unfolding days_from_civil div_euclid rem_euclid ◌-ℤ◌
early_zero m d early h k1 k2 = rw early (
    recovers_before 399 ((m + 9) % 12) d (parts_before m d h (leb→le m 2 early) k1 k2)
    ∙ date_before m d h (leb→le m 2 early))

early_suc :
    (x m d : ℕ)
    → leb m 2 ≡ true
    → 1 ≤ m
    → 1 ≤ d
    → d ≤ days_in_month (suc x) m
    → civil_from_days (days_from_civil (pos (suc x)) m d) ≡ (pos (suc x), m, d)
unfolding days_from_civil div_euclid rem_euclid
early_suc x m d early h k1 k2 = rw early (
    rw (year_before x) (
      recovers (x / 400) (x % 400) ((m + 9) % 12) d (parts_early x m d h (leb→le m 2 early) k1 k2)
      ∙ date_early x m d h (leb→le m 2 early)))

late_year :
    (y m d : ℕ)
    → leb m 2 ≡ false
    → m ≤ 12
    → 1 ≤ d
    → d ≤ days_in_month y m
    → civil_from_days (days_from_civil (pos y) m d) ≡ (pos y, m, d)
unfolding days_from_civil div_euclid rem_euclid
late_year y m d late h k1 k2 =
    let above : 2 < m = ground arith in
    rw late (
      recovers (y / 400) (y % 400) ((m + 9) % 12) d (parts_late y m d h above k1 k2)
      ∙ date_late y m d h above)

-- For every year from 0 on, and every month and day of the Gregorian calendar, the date that the
-- terminal interface computes from a number of days is the date that the importers computed the
-- number from.
pub civil_from_days-days_from_civil :
    (y m d : ℕ)
    → 1 ≤ m
    → m ≤ 12
    → 1 ≤ d
    → d ≤ days_in_month y m
    → civil_from_days (days_from_civil (pos y) m d) ≡ (pos y, m, d)
civil_from_days-days_from_civil zero m d h1 h2 k1 k2 = elim (Bool-cases (leb m 2)) [
  | inl early ↦ early_zero m d early h1 k1 k2
  | inr late ↦ late_year 0 m d late h2 k1 k2
]
civil_from_days-days_from_civil (suc x) m d h1 h2 k1 k2 = elim (Bool-cases (leb m 2)) [
  | inl early ↦ early_suc x m d early h1 k1 k2
  | inr late ↦ late_year (suc x) m d late h2 k1 k2
]
