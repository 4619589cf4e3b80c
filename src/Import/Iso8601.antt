-- ===== src/Import/Iso8601.antt =====
-- The timestamps of crates/memoryd-core/src/import.rs: `parse_iso8601_ms` and `days_from_civil`.
use memoryd.Prelude.{
  ℕ, suc, ◌+◌, ◌-◌, ◌*◌, ◌/◌, ◌%◌, String, Bool, false, not, ◌&&◌, ◌||◌, Option, none, some, List,
  [], ◌∷◌, ltb, leb, ◌==◌, if◌then◌else◌, length, get_elem?, take, drop,
}
use memoryd.Prelude.Int.{ℤ, pos, div_euclid, rem_euclid, ◌+ℤ◌, ◌-ℤ◌, ◌*ℤ◌}
use memoryd.Text.{trim, as_bytes, is_digit}
use memoryd.Import.{and_then}

-- The month and the day are at least 1.
unfoldable pub days_from_civil : ℤ → ℕ → ℕ → ℤ
unfolding div_euclid rem_euclid
days_from_civil year month day =
    let shifted_year = if leb month 2 then year -ℤ pos 1 else year in
    let era = div_euclid shifted_year 400 in
    let year_of_era = rem_euclid shifted_year 400 in
    let day_of_year = (153 * ((month + 9) % 12) + 2) / 5 + (day - 1) in
    let day_of_era = year_of_era * 365 + year_of_era / 4 - year_of_era / 100 + day_of_year in
    era *ℤ pos 146097 +ℤ pos day_of_era -ℤ pos 719468

abbrev digits_value : ℕ → List ℕ → Option ℕ
digits_value value [] = some value
digits_value value (byte ∷ bytes) =
    let rest = digits_value (value * 10 + (byte - b'0')) bytes in
    if is_digit byte then rest else none

-- `digits(start..start + n)`: `none` out of range, too.
unfoldable pub digits : ℕ → ℕ → List ℕ → Option ℕ
unfolding is_digit
digits start n bytes =
    if leb (start + n) (length bytes) then digits_value 0 (take n (drop start bytes)) else none

-- Whether a byte stands at an index.
abbrev is_at : ℕ → ℕ → List ℕ → Bool
is_at byte index bytes = elim (get_elem? bytes index) [ none ↦ false | some b ↦ b == byte ]

unfoldable pub has_layout : List ℕ → Bool
has_layout bytes =
    is_at b'-' 4 bytes
    && is_at b'-' 7 bytes
    && (is_at b'T' 10 bytes || is_at b' ' 10 bytes)
    && is_at b':' 13 bytes
    && is_at b':' 16 bytes

-- How many digits the bytes begin with.
unfoldable pub digit_run : List ℕ → ℕ
unfolding is_digit
digit_run [] = 0
digit_run (b ∷ bs) = if is_digit b then suc (digit_run bs) else 0

abbrev digit_or_zero : ℕ → ℕ → List ℕ → ℕ
digit_or_zero position count bytes =
    if ltb position count
    then elim (get_elem? bytes position) [ none ↦ 0 | some b ↦ b - b'0' ]
    else 0

-- The milliseconds that bytes after a dot give, and how many bytes they are.
unfoldable pub fraction : List ℕ → Option (ℕ × ℕ)
unfolding digit_run
fraction bytes =
    let count = digit_run bytes in
    if (count == 0) || ltb 9 count
    then none
    else some (
      (digit_or_zero 0 count bytes * 10 + digit_or_zero 1 count bytes) * 10
          + digit_or_zero 2 count bytes,
      count,
    )

-- The milliseconds after the seconds, and the index behind them.
unfoldable pub fraction_at_19 : List ℕ → Option (ℕ × ℕ)
unfolding fraction
fraction_at_19 bytes =
    if is_at b'.' 19 bytes
    then elim (fraction (drop 20 bytes)) [ none ↦ none | some (ms, n) ↦ some (ms, 20 + n) ]
    else some (0, 19)

-- The offset in minutes that the rest of the bytes is.
unfoldable pub offset_minutes : List ℕ → Option ℤ
unfolding digits
offset_minutes rest =
    if (length rest == 0) || ((length rest == 1) && (is_at b'Z' 0 rest || is_at b'z' 0 rest))
    then some (pos 0)
    else if (length rest == 6) && (is_at b'+' 0 rest || is_at b'-' 0 rest) && is_at b':' 3 rest
    then and_then (digits 1 2 rest) (λ offset_hours. and_then (digits 4 2 rest) (λ offset_mins.
      if ltb 23 offset_hours || ltb 59 offset_mins
      then none
      else (let total = offset_hours * 60 + offset_mins in
          some (if is_at b'+' 0 rest then pos total else pos 0 -ℤ pos total))))
    else none

unfoldable pub millis_of : ℕ → ℕ → ℕ → ℕ → ℕ → ℕ → ℕ → ℤ → ℤ
unfolding days_from_civil
millis_of year month day hour minute second millis offset =
    let days = days_from_civil (pos year) month day in
    let seconds =
      days *ℤ pos 86400 +ℤ pos (hour * 3600 + minute * 60 + second) -ℤ offset *ℤ pos 60 in
    seconds *ℤ pos 1000 +ℤ pos millis

abbrev parse_bytes : List ℕ → Option ℤ
parse_bytes bytes = and_then (digits 0 4 bytes) (λ year. and_then (digits 5 2 bytes) (λ month.
    and_then (digits 8 2 bytes) (λ day. and_then (digits 11 2 bytes) (λ hour.
      and_then (digits 14 2 bytes) (λ minute. and_then (digits 17 2 bytes) (λ second.
        if not (leb 1 month && leb month 12) || not (leb 1 day && leb day 31)
        then none
        else if ltb 23 hour || ltb 59 minute || ltb 59 second
        then none
        else and_then (fraction_at_19 bytes) (λ f.
          and_then (offset_minutes (drop f.1 bytes))
            (λ offset. some (millis_of year month day hour minute second f.0 offset)))))))))

unfoldable pub parse_iso8601_ms : String → Option ℤ
unfolding has_layout fraction_at_19 offset_minutes millis_of digits as_bytes
parse_iso8601_ms s =
    let bytes = as_bytes (trim s) in
    if ltb (length bytes) 19 || not (has_layout bytes) then none else parse_bytes bytes
