-- ===== src/Tui.antt =====
-- The terminal interface, crates/memoryd/src/tui.rs: how it shows texts and times.
pub mod Calendar
use memoryd.Prelude.{
  ℕ, ◌+◌, ◌-◌, ◌*◌, ◌/◌, ◌%◌, String, Option, none, some, ltb, leb, if◌then◌else◌,
}
use memoryd.Prelude.Int.{ℤ, pos, ◌+ℤ◌, ◌*ℤ◌, div_euclid, rem_euclid}

-- The year, the month and the day of a day of an era of 400 years that begins in March.
unfoldable pub civil_of_era : ℤ → ℕ → ℤ × ℕ × ℕ
civil_of_era era doe =
    let yoe = (doe - doe / 1460 + doe / 36524 - doe / 146096) / 365 in
    let doy = doe - (365 * yoe + yoe / 4 - yoe / 100) in
    let mp = (5 * doy + 2) / 153 in
    let day = doy - (153 * mp + 2) / 5 + 1 in
    let month = if ltb mp 10 then mp + 3 else mp - 9 in
    let year = pos yoe +ℤ era *ℤ pos 400 +ℤ pos (if leb month 2 then 1 else 0) in (year, month, day)

unfoldable pub civil_from_days : ℤ → ℤ × ℕ × ℕ
unfolding civil_of_era div_euclid rem_euclid
civil_from_days days =
    let z = days +ℤ pos 719468 in civil_of_era (div_euclid z 146097) (rem_euclid z 146097)
