-- ===== src/Imap/Dates.antt =====
-- imap-server/src/ImapUtils.cpp: `DateToEmlDate` and `DateToIMAPInternal`. An `int` is the integer that it
-- stands for.
use ua_5308_smtp.Prelude.{
  ℕ, ◌+◌, ◌-◌, ◌*◌, ◌/◌, ◌%◌, ◌^◌, Bool, false, not, ◌&&◌, Option, none, some, List, [], ◌∷◌, ◌++◌,
  ◌==◌, leb, ltb, Bytes, codes, to_string, get_or, is_empty, if◌then◌else◌,
}
use ua_5308_smtp.Prelude.Int.{ℤ, pos, negsuc}
use ua_5308_smtp.Effects.{Outcome, returned, thrown, runtime_error}
use ua_5308_smtp.Imap.Sequence.{is_digit, skip_spaces, sign_of, starts_digit, digits_value, negated}

abbrev drop_digits : Bytes → Bytes
drop_digits [] = []
drop_digits (c ∷ s) = if is_digit c then drop_digits s else c ∷ s

-- `ss >> year`, of an `int`: none where the stream fails.
unfoldable pub read_int : Bytes → Option (ℤ × Bytes)
read_int s =
    let (minus, digits) = sign_of (skip_spaces s) in
    let n = digits_value 0 digits in
    if not (starts_digit digits)
    then none
    else if minus
    then (if leb n (2 ^ 31) then some (negated n, drop_digits digits) else none)
    else (if ltb n (2 ^ 31) then some (pos n, drop_digits digits) else none)

-- `ss >> dash1`, of a `char`.
abbrev first_char : Bytes → Option (ℕ × Bytes)
first_char [] = none
first_char (c ∷ s) = some (c, s)

abbrev pub read_char : Bytes → Option (ℕ × Bytes)
read_char s = first_char (skip_spaces s)

infixl 5 ◌>>=◌
abbrev ◌>>=◌ : {A B : Type 0} → Option A → (A → Option B) → Option B
none >>= f = none
some a >>= f = f a

pub record Fields : Type 0 where
  pub year : ℤ
  pub month : ℤ
  pub day : ℤ
  pub hour : ℤ
  pub minute : ℤ
  pub second : ℤ
  pub marks : List ℕ

-- The chain of `>>`.
unfoldable pub read_fields : Bytes → Option Fields
unfolding read_int
read_fields str = read_int str >>= λ y. read_char y.1 >>= λ d1. read_int d1.1 >>= λ m.
    read_char m.1 >>= λ d2. read_int d2.1 >>= λ d. read_int d.1 >>= λ h. read_char h.1 >>= λ c1.
    read_int c1.1 >>= λ i. read_char i.1 >>= λ c2. read_int c2.1 >>= λ s. some (record {
      year = y.0;
      month = m.0;
      day = d.0;
      hour = h.0;
      minute = i.0;
      second = s.0;
      marks = d1.0 ∷ d2.0 ∷ c1.0 ∷ c2.0 ∷ [];
    })

abbrev good_marks : List ℕ → Bool
good_marks (d1 ∷ d2 ∷ c1 ∷ c2 ∷ []) = d1 == b'-' && d2 == b'-' && c1 == b':' && c2 == b':'
good_marks _ = false

-- `lo <= z && z <= hi`, as a natural number.
abbrev between : ℕ → ℕ → ℤ → Bool
between lo hi (pos n) = leb lo n && leb n hi
between lo hi (negsuc n) = false

abbrev value_of : ℤ → ℕ
value_of (pos n) = n
value_of (negsuc n) = 0

abbrev good_values : Fields → Bool
good_values f =
    between 1900 (2 ^ 31) f.year
    && between 1 12 f.month
    && between 1 31 f.day
    && between 0 23 f.hour
    && between 0 59 f.minute
    && between 0 59 f.second

-- A date with values in range.
pub record Date : Type 0 where
  pub year : ℕ
  pub month : ℕ
  pub day : ℕ
  pub hour : ℕ
  pub minute : ℕ
  pub second : ℕ

abbrev date_of : Fields → Date
date_of f = record {
  year = value_of f.year;
  month = value_of f.month;
  day = value_of f.day;
  hour = value_of f.hour;
  minute = value_of f.minute;
  second = value_of f.second;
}

abbrev quoted_error : Bytes → Bytes → Bytes → Outcome Date
quoted_error function what str =
    thrown (runtime_error (function ++ (what ++ (codes " '" ++ (str ++ codes "'")))))

-- The checks of both functions, which differ in the name that their errors give.
unfoldable pub parse_date : Bytes → Bytes → Outcome Date
unfolding read_fields
parse_date function str =
    if is_empty str
    then thrown (runtime_error (function ++ codes ": empty date string"))
    else elim (read_fields str) [
      | none ↦ quoted_error function (codes ": failed to parse date string") str
      | some f ↦
          if not (good_marks f.marks)
          then quoted_error function (codes ": invalid date format in") str
          else if not (good_values f)
          then quoted_error function (codes ": invalid date values in") str
          else returned (date_of f)
    ]

abbrev pub months : List Bytes
months =
    codes "Jan"
    ∷ codes "Feb"
    ∷ codes "Mar"
    ∷ codes "Apr"
    ∷ codes "May"
    ∷ codes "Jun"
    ∷ codes "Jul"
    ∷ codes "Aug"
    ∷ codes "Sep"
    ∷ codes "Oct"
    ∷ codes "Nov"
    ∷ codes "Dec"
    ∷ []

abbrev pub days : List Bytes
days =
    codes "Sun"
    ∷ codes "Mon"
    ∷ codes "Tue"
    ∷ codes "Wed"
    ∷ codes "Thu"
    ∷ codes "Fri"
    ∷ codes "Sat"
    ∷ []

-- The sum so far, in front of `- adjustedYear / 100`, which is the greatest that the code takes.
abbrev pub largest_sum : ℕ → ℕ → ℕ → ℕ
largest_sum adjusted_year adjusted_month day =
    day + 13 * (adjusted_month + 1) / 5 + adjusted_year + adjusted_year / 4

-- The day of the week, 0 for Sunday, or none where an `int` does not hold the sum. January and February
-- count to the year before.
unfoldable pub day_of_week : ℕ → ℕ → ℕ → Option ℕ
day_of_week year month day =
    let adjusted_year = if ltb month 3 then year - 1 else year in
    let adjusted_month = if ltb month 3 then month + 12 else month in
    let sum = largest_sum adjusted_year adjusted_month day in
    let dow = (sum - adjusted_year / 100 + adjusted_year / 400) % 7 in
    if ltb sum (2 ^ 31) then some ((dow + 6) % 7) else none

-- `days[dow]`; `undefined` is what stands there where the sum overflows.
abbrev pub day_name : Bytes → Option ℕ → Bytes
day_name undefined none = undefined
day_name undefined (some dow) = get_or days dow []

abbrev two_digits : ℕ → Bytes
two_digits n = (if ltb n 10 then codes "0" else []) ++ to_string n

abbrev time_of : Date → Bytes
time_of d =
    two_digits d.hour
    ++ (codes ":"
        ++ (two_digits d.minute ++ (codes ":" ++ (two_digits d.second ++ codes " +0000"))))

abbrev and_print : Outcome Date → (Date → Bytes) → Outcome Bytes
and_print (returned d) print = returned (print d)
and_print (thrown e) print = thrown e

-- What `DateToEmlDate` gives behind the name of the day.
abbrev pub eml_rest : Date → Bytes
eml_rest d =
    codes ", "
    ++ (two_digits d.day
        ++ (codes " "
            ++ (get_or months (d.month - 1) []
                ++ (codes " " ++ (to_string d.year ++ (codes " " ++ time_of d))))))

unfoldable pub date_to_eml_date : Bytes → Bytes → Outcome Bytes
unfolding parse_date day_of_week
date_to_eml_date undefined str =
    and_print (parse_date (codes "DateToEmlDate") str)
      (λ d. day_name undefined (day_of_week d.year d.month d.day) ++ eml_rest d)

unfoldable pub date_to_imap_internal : Bytes → Outcome Bytes
unfolding parse_date
date_to_imap_internal str = and_print (parse_date (codes "DateToIMAPInternal") str) (λ d.
    two_digits d.day
    ++ (codes "-"
        ++ (get_or months (d.month - 1) []
            ++ (codes "-" ++ (to_string d.year ++ (codes " " ++ time_of d))))))
