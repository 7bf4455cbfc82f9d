-- ===== src/Overview/Calendar.antt =====
-- The dates of the dashboard: `datetime.date` with the count of days of its `toordinal`, and the
-- first days of this and of the next month (app/features/overview/service.py).
use green_garden_api.Prelude.{
  ==→eq, ℕ, ◌+◌, ◌-◌, ◌*◌, ◌/◌, ◌%◌, ◌≤◌, ◌<◌, ◌≡◌, refl, ◌∙◌, ap, zero, suc, Bool, true, false,
  not, ◌&&◌, ◌||◌, ◌==◌, if◌then◌else◌, arith, Bool-cases, inl, inr,
}

pub record Date : Type 0 where
  pub year : ℕ
  pub month : ℕ
  pub day : ℕ

unfoldable pub is_leap : ℕ → Bool
is_leap year = year % 4 == 0 && (not (year % 100 == 0) || year % 400 == 0)

-- The days of a month, in a leap year or in another.
unfoldable pub days_in_month : Bool → ℕ → ℕ
days_in_month leap month =
    if month == 2
    then (if leap then 29 else 28)
    else if month == 4 || (month == 6 || (month == 9 || month == 11))
    then 30
    else 31

-- The days of the months before one.
unfoldable pub days_before_month : Bool → ℕ → ℕ
unfolding days_in_month
days_before_month leap zero = 0
days_before_month leap (suc month) =
    if month == 0 then 0 else days_before_month leap month + days_in_month leap month

unfoldable pub days_before_year : ℕ → ℕ
days_before_year year = let y = year - 1 in y * 365 + y / 4 - y / 100 + y / 400

unfoldable pub toordinal : Date → ℕ
toordinal date =
    days_before_year date.year + days_before_month (is_leap date.year) date.month + date.day

-- Days since the first of January 1970.
abbrev pub epoch_day : Date → ℕ
epoch_day date = toordinal date - 719163

-- `today.replace(day=1)`
abbrev pub first_of_month : Date → Date
first_of_month date = record date { day = 1 }

unfoldable pub start_of_next_month : Date → Date
start_of_next_month date =
    if date.month == 12
    then record { year = date.year + 1; month = 1; day = 1 }
    else record { year = date.year; month = suc date.month; day = 1 }

-- A date that `datetime.date` accepts, from 1970 on.
pub record IsDate (date : Date) : Type 0 where
  pub modern : 1970 ≤ date.year
  pub first : 1 ≤ date.month
  pub last : date.month ≤ 12
  pub begins : 1 ≤ date.day
  pub ends : date.day ≤ days_in_month (is_leap date.year) date.month

modern_year : (year : ℕ) → 1970 ≤ year → 719162 ≤ days_before_year year
unfolding days_before_year
modern_year year h = omega (arith, h)

next_year :
    (year : ℕ)
    → 1 ≤ year
    → days_before_year year + (if is_leap year then 366 else 365) ≤ days_before_year (year + 1)
unfolding days_before_year is_leap
next_year year h = ground (arith, h)

whole_year : (leap : Bool) → days_before_month leap 12 + 31 ≡ (if leap then 366 else 365)
unfolding days_before_month days_in_month
whole_year true = refl
whole_year false = refl

following_month :
    (leap : Bool) (month : ℕ)
    → 1 ≤ month
    → days_before_month leap (suc month) ≡ days_before_month leap month + days_in_month leap month
unfolding days_before_month
following_month leap month h = ground (arith, h)

first_month : (leap : Bool) → days_before_month leap 1 ≡ 0
unfolding days_before_month
first_month leap = refl

after_december :
    (date : Date)
    → (date.month == 12) ≡ true
    → toordinal (start_of_next_month date) ≡ days_before_year (date.year + 1) + 1
unfolding toordinal start_of_next_month
after_december date december = go
  where
    turned : start_of_next_month date ≡ record { year = date.year + 1; month = 1; day = 1 }
    turned = rw december refl

    go : toordinal (start_of_next_month date) ≡ days_before_year (date.year + 1) + 1
    go =
        ap (λ (d : Date). toordinal d) turned ∙ omega (arith, first_month (is_leap (date.year + 1)))

after_month :
    (date : Date)
    → 1 ≤ date.month
    → (date.month == 12) ≡ false
    → toordinal (start_of_next_month date)
      ≡ days_before_year date.year
        + (days_before_month (is_leap date.year) date.month
            + days_in_month (is_leap date.year) date.month)
        + 1
unfolding toordinal start_of_next_month
after_month date h earlier = go
  where
    turned : start_of_next_month date ≡ record { year = date.year; month = suc date.month; day = 1 }
    turned = rw earlier refl

    go :
        toordinal (start_of_next_month date)
        ≡ days_before_year date.year
          + (days_before_month (is_leap date.year) date.month
              + days_in_month (is_leap date.year) date.month)
          + 1
    go =
        ap (λ (d : Date). toordinal d) turned
        ∙ omega (arith, following_month (is_leap date.year) date.month h)

ordinal_of :
    (date : Date)
    → toordinal date
      ≡ days_before_year date.year + days_before_month (is_leap date.year) date.month + date.day
unfolding toordinal
ordinal_of date = refl

december_days : (leap : Bool) → days_in_month leap 12 ≡ 31
unfolding days_in_month
december_days leap = refl

december_end :
    (date : Date)
    → IsDate date
    → date.month ≡ 12
    → days_before_month (is_leap date.year) date.month + date.day
      ≤ (if is_leap date.year then 366 else 365)
december_end date d at_end =
    let leap = is_leap date.year in
    let day : date.day ≤ days_in_month leap 12 = rw at_end at d.ends in
    let months = ap (λ (m : ℕ). days_before_month leap m) at_end in
    omega (arith, day, december_days leap, whole_year leap, months)

-- A day of a month comes between its first and the first of the next.
pub in_month :
    (date : Date)
    → IsDate date
    → (epoch_day (first_of_month date) ≤ epoch_day date)
      × (epoch_day date < epoch_day (start_of_next_month date))
in_month date d = (
  omega (arith, d.begins, ordinal_of date, ordinal_of (first_of_month date)),
  elim (Bool-cases (date.month == 12)) [
    | inl december ↦ omega (
      arith,
      after_december date december,
      ordinal_of date,
      d.begins,
      modern_year date.year d.modern,
      december_end date d (==→eq date.month 12 december),
      next_year date.year (omega (arith, d.modern)),
    )
    | inr earlier ↦ omega (
      arith,
      after_month date d.first earlier,
      ordinal_of date,
      d.begins,
      d.ends,
      modern_year date.year d.modern,
    )
  ],
)
