-- ===== src/Calendar.antt =====
-- The calendar of the standard library's `time.Date`, as the timestamp checks of internal/protocol and
-- internal/protocol/gt02 use it.
use tallerp_telemetry.Base.{ℕ, ◌+◌, ◌-◌, ◌≤◌, Bool, ◌&&◌, ◌||◌, ltb, leb, ◌==◌, if◌then◌else◌}
use tallerp_telemetry.Telemetry.{is_leap}

unfoldable pub days_in : ℕ → ℕ → ℕ
unfolding is_leap
days_in year month =
    if month == 2
    then (if is_leap year then 29 else 28)
    else if month == 4 || (month == 6 || (month == 9 || (month == 11)))
    then 30
    else 31

-- What `Year()`, `Month()` and `Day()` read back of a date with a month from 1 to 12 and a day from 1
-- to 31: a day past the end of its month falls into the next one.
unfoldable pub civil : ℕ → ℕ → ℕ → ℕ × ℕ × ℕ
unfolding days_in
civil year month day =
    if leb day (days_in year month)
    then (year, month, day)
    else if month == 12
    then (year + 1, 1, day - days_in year month)
    else (year, month + 1, day - days_in year month)

abbrev pub same_date : ℕ → ℕ → ℕ → ℕ × ℕ × ℕ → Bool
same_date year month day (y, m, d) = y == year && (m == month && (d == day))

-- `month < 1 || month > 12 || … || second > 59`
abbrev pub out_of_range : ℕ → ℕ → ℕ → ℕ → ℕ → Bool
out_of_range month day hour minute second =
    ltb month 1
    || (ltb 12 month
        || (ltb day 1 || (ltb 31 day || (ltb 23 hour || (ltb 59 minute || ltb 59 second)))))

-- A moment of the calendar.
pub record IsMoment (year month day hour minute second : ℕ) : Type 0 where
  pub from_january : 1 ≤ month
  pub to_december : month ≤ 12
  pub from_first : 1 ≤ day
  pub to_last : day ≤ days_in year month
  pub hours : hour ≤ 23
  pub minutes : minute ≤ 59
  pub seconds : second ≤ 59
