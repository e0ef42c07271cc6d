-- ===== src/Imap/Weekdays.antt =====
-- imap-server/src/ImapUtils.cpp: the day of the week of `DateToEmlDate`, along the calendar.
use ua_5308_smtp.Prelude.{
  ℕ, suc, ◌+◌, ◌-◌, ◌%◌, ◌≤◌, ◌<◌, ◌≡◌, refl, Bool, false, not, ◌&&◌, ◌||◌, ◌==◌, ltb, ap, sym, ◌∙◌,
  ltb→lt, if◌then◌else◌, arith, zero, Bool-cases, inl, inr, some, true, ◌/◌, ◌^◌, ◌++◌, Bytes,
  codes,
}
use ua_5308_smtp.Effects.{returned}
use ua_5308_smtp.Imap.Dates.{
  Date, parse_date, largest_sum, day_of_week, day_name, eml_rest, date_to_eml_date,
}

-- The remainder that `day_of_week` gives where the sum fits.
unfoldable pub remainder : ℕ → ℕ → ℕ → ℕ
remainder year month day =
    let adjusted_year = if ltb month 3 then year - 1 else year in
    let adjusted_month = if ltb month 3 then month + 12 else month in
    ((largest_sum adjusted_year adjusted_month day - adjusted_year / 100 + adjusted_year / 400) % 7
      + 6)
    % 7

-- The Gregorian calendar.
abbrev pub is_leap : ℕ → Bool
is_leap year = year % 4 == 0 && (not (year % 100 == 0) || year % 400 == 0)

abbrev pub month_length : ℕ → ℕ → ℕ
month_length year month =
    if month == 2
    then (if is_leap year then 29 else 28)
    else if month == 4 || month == 6 || month == 9 || month == 11
    then 30
    else 31

within_month :
    (year month day : ℕ) → remainder year month (day + 1) ≡ (remainder year month day + 1) % 7
unfolding remainder
within_month year month day = elim (Bool-cases (ltb month 3)) [
  | inl early ↦ rw early (omega arith)
  | inr late ↦ rw late (omega arith)
]

-- The last day of a month and the first of the next. February depends on the year.
february_next :
    (year : ℕ) → 1 ≤ year → remainder year 3 1 ≡ (remainder year 2 (month_length year 2) + 1) % 7
unfolding remainder
february_next year y = ground arith

next_month :
    (year month : ℕ)
    → 1 ≤ year
    → 1 ≤ month
    → month < 12
    → remainder year (month + 1) 1 ≡ (remainder year month (month_length year month) + 1) % 7
unfolding remainder
next_month year zero y lo hi = absurd (omega arith)
next_month year (suc zero) y lo hi = omega arith
next_month year (suc (suc zero)) y lo hi = february_next year y
next_month year (suc (suc (suc zero))) y lo hi = omega arith
next_month year (suc (suc (suc (suc zero)))) y lo hi = omega arith
next_month year (suc (suc (suc (suc (suc zero))))) y lo hi = omega arith
next_month year (suc (suc (suc (suc (suc (suc zero)))))) y lo hi = omega arith
next_month year (suc (suc (suc (suc (suc (suc (suc zero))))))) y lo hi = omega arith
next_month year (suc (suc (suc (suc (suc (suc (suc (suc zero)))))))) y lo hi = omega arith
next_month year (suc (suc (suc (suc (suc (suc (suc (suc (suc zero))))))))) y lo hi = omega arith
next_month year (suc (suc (suc (suc (suc (suc (suc (suc (suc (suc zero)))))))))) y lo hi =
    omega arith
next_month year (suc (suc (suc (suc (suc (suc (suc (suc (suc (suc (suc zero))))))))))) y lo hi =
    omega arith
next_month year (suc (suc (suc (suc (suc (suc (suc (suc (suc (suc (suc (suc m)))))))))))) y lo hi =
    absurd (omega arith)

next_year : (year : ℕ) → 1 ≤ year → remainder (year + 1) 1 1 ≡ (remainder year 12 31 + 1) % 7
unfolding remainder
next_year year y = let same : year + 1 - 1 ≡ year = omega arith in rw same (omega arith)

pub record Day : Type 0 where
  pub year : ℕ
  pub month : ℕ
  pub day : ℕ

abbrev pub next_day : Day → Day
next_day d =
    if ltb d.day (month_length d.year d.month)
    then record d { day = d.day + 1 }
    else if ltb d.month 12
    then record d { month = d.month + 1; day = 1 }
    else record { year = d.year + 1; month = 1; day = 1 }

-- The date so many days behind the 1st of January 1900, which was a Monday.
abbrev pub day_after : ℕ → Day
day_after zero = record { year = 1900; month = 1; day = 1 }
day_after (suc n) = next_day (day_after n)

record IsDay (d : Day) : Type 0 where
  pub some_year : 1 ≤ d.year
  pub some_month : 1 ≤ d.month
  pub last_month : d.month ≤ 12
  pub last_day : d.day ≤ month_length d.year d.month

month_length_pos : (year month : ℕ) → 1 ≤ month_length year month
month_length_pos year month = ground arith

next_day-IsDay : (d : Day) → IsDay d → IsDay (next_day d)
next_day-IsDay d h =
    ground (arith, month_length_pos d.year (d.month + 1), month_length_pos (d.year + 1) 1)

reached : (a b : ℕ) → ltb a b ≡ false → a ≤ b → a ≡ b
reached a b h k = ground arith

next_day-weekday :
    (d : Day)
    → IsDay d
    → remainder (next_day d).year (next_day d).month (next_day d).day
      ≡ (remainder d.year d.month d.day + 1) % 7
next_day-weekday d h = elim (Bool-cases (ltb d.day (month_length d.year d.month))) [
  | inl inside ↦ rw inside (within_month d.year d.month d.day)
  | inr at_end ↦
      let last = reached d.day (month_length d.year d.month) at_end h.last_day in
      elim (Bool-cases (ltb d.month 12)) [
        | inl early ↦
            rw (at_end, early)
              (next_month d.year d.month h.some_year h.some_month (ltb→lt d.month 12 early)
                ∙ ap (λ (n : ℕ). (remainder d.year d.month n + 1) % 7) (sym last))
        | inr december ↦
            rw (at_end, december)
              (next_year d.year h.some_year
                ∙ ap (λ (n : ℕ). (remainder d.year 12 n + 1) % 7)
                    (ap (month_length d.year) (sym (reached d.month 12 december h.last_month))
                      ∙ sym last)
                ∙ ap (λ (n : ℕ). (remainder d.year n d.day + 1) % 7)
                    (sym (reached d.month 12 december h.last_month)))
      ]
]

day_after-IsDay : (n : ℕ) → IsDay (day_after n)
day_after-IsDay zero = ground arith
day_after-IsDay (suc n) = next_day-IsDay (day_after n) (day_after-IsDay n)

remainder-day_after :
    (n : ℕ) → remainder (day_after n).year (day_after n).month (day_after n).day ≡ (n + 1) % 7
unfolding remainder
remainder-day_after zero = refl
remainder-day_after (suc n) =
    next_day-weekday (day_after n) (day_after-IsDay n)
    ∙ ap (λ (w : ℕ). (w + 1) % 7) (remainder-day_after n)
    ∙ omega arith

-- The days of the week, and their names in the header Date (RFC 5322).
pub data Weekday : Type 0 where
  sunday monday tuesday wednesday thursday friday saturday : Weekday

abbrev pub next_weekday : Weekday → Weekday
next_weekday sunday = monday
next_weekday monday = tuesday
next_weekday tuesday = wednesday
next_weekday wednesday = thursday
next_weekday thursday = friday
next_weekday friday = saturday
next_weekday saturday = sunday

abbrev pub weekday_text : Weekday → Bytes
weekday_text sunday = codes "Sun"
weekday_text monday = codes "Mon"
weekday_text tuesday = codes "Tue"
weekday_text wednesday = codes "Wed"
weekday_text thursday = codes "Thu"
weekday_text friday = codes "Fri"
weekday_text saturday = codes "Sat"

-- The day of the week so many days behind the 1st of January 1900.
abbrev pub weekday_after : ℕ → Weekday
weekday_after zero = monday
weekday_after (suc n) = next_weekday (weekday_after n)

abbrev number_of : Weekday → ℕ
number_of sunday = 0
number_of monday = 1
number_of tuesday = 2
number_of wednesday = 3
number_of thursday = 4
number_of friday = 5
number_of saturday = 6

number_of-next_weekday : (w : Weekday) → number_of (next_weekday w) ≡ (number_of w + 1) % 7
number_of-next_weekday sunday = refl
number_of-next_weekday monday = refl
number_of-next_weekday tuesday = refl
number_of-next_weekday wednesday = refl
number_of-next_weekday thursday = refl
number_of-next_weekday friday = refl
number_of-next_weekday saturday = refl

number_of-weekday_after : (n : ℕ) → number_of (weekday_after n) ≡ (n + 1) % 7
number_of-weekday_after zero = refl
number_of-weekday_after (suc n) =
    number_of-next_weekday (weekday_after n)
    ∙ ap (λ (k : ℕ). (k + 1) % 7) (number_of-weekday_after n)
    ∙ omega arith

day_name-number_of :
    (undefined : Bytes) (w : Weekday) → day_name undefined (some (number_of w)) ≡ weekday_text w
day_name-number_of undefined sunday = refl
day_name-number_of undefined monday = refl
day_name-number_of undefined tuesday = refl
day_name-number_of undefined wednesday = refl
day_name-number_of undefined thursday = refl
day_name-number_of undefined friday = refl
day_name-number_of undefined saturday = refl

-- Up to this year no sum overflows.
abbrev pub safe_year : ℕ
safe_year = 1717986861

month_length-bound : (year month : ℕ) → month_length year month ≤ 31
month_length-bound year month = ground arith

day_of_week-remainder :
    (d : Day)
    → IsDay d
    → d.year ≤ safe_year
    → day_of_week d.year d.month d.day ≡ some (remainder d.year d.month d.day)
unfolding day_of_week remainder
day_of_week-remainder d h y =
    let m = month_length-bound d.year d.month in
    elim (Bool-cases (ltb d.month 3)) [
      | inl early ↦
          rw
            (
              early,
              fits (largest_sum (d.year - 1) (d.month + 12) d.day)
                  (omega (arith, ltb→lt, m, h.last_day, h.last_month, y)),
            )
            refl
      | inr late ↦
          rw
            (
              late,
              fits (largest_sum d.year d.month d.day)
                  (omega (arith, ltb→lt, m, h.last_day, h.last_month, y)),
            )
            refl
    ]
  where
    fits : (sum : ℕ) → sum < 2147483648 → ltb sum (2 ^ 31) ≡ true
    fits sum h = ground arith

-- Of a text of the n-th day behind the 1st of January 1900, up to the year 1717986861, DateToEmlDate
-- gives the name of the day of the week that the calendar has there, going on from Monday day by day,
-- and then the day, the month, the year and the time that it read.
pub date_to_eml_date-weekday :
    (undefined str : Bytes) (d : Date) (n : ℕ)
    → parse_date (codes "DateToEmlDate") str ≡ returned d
    → d.year ≡ (day_after n).year
    → d.month ≡ (day_after n).month
    → d.day ≡ (day_after n).day
    → d.year ≤ safe_year
    → date_to_eml_date undefined str ≡ returned (weekday_text (weekday_after n) ++ eml_rest d)
unfolding date_to_eml_date
date_to_eml_date-weekday undefined str d n parsed y m k bound =
    let named : day_name undefined (day_of_week d.year d.month d.day)
        ≡ weekday_text (weekday_after n) =
      rw (y, m, k)
        (ap (day_name undefined) (
            day_of_week-remainder (day_after n) (day_after-IsDay n) (rw y at bound)
            ∙ ap (λ (r : ℕ). some r) (remainder-day_after n ∙ sym (number_of-weekday_after n)))
          ∙ day_name-number_of undefined (weekday_after n)) in
    rw parsed (ap (λ (name : Bytes). returned (name ++ eml_rest d)) named)
