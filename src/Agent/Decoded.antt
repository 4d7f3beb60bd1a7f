-- ===== src/Agent/Decoded.antt =====
-- The integers of dates and times are read back as what they were made from.
use gosmo.Base.{
  ℕ, ◌+◌, ◌*◌, ◌/◌, ◌%◌, ◌≤◌, ◌<◌, ◌≡◌, ◌≢◌, refl, sym, ap, ◌∙◌, true, false, arith, Bool-cases,
  inl, inr,
}
use gosmo.Agent.{
  Calendar, no_end_date, parse_sql_agent_duration, sql_agent_date_time, parse_sql_agent_date,
  is_zero_time, yyyymmdd_to_time, time_to_yyyymmdd, schedule_end_date, schedule_end_date_raw,
}

-- Package time: the fields are in their ranges, and time.Date of them is the time that has them.
pub record IsCalendar {T : Type 0} (cal : Calendar T) : Type 0 where
  pub date_bounds : (t : T) → (cal.month t < 100) × (1 ≤ cal.day t) × (cal.day t < 100)
  pub clock_bounds : (t : T) → (cal.minute t < 100) × (cal.second t < 100)
  pub date-fields :
      (t : T)
      → cal.date (cal.year t) (cal.month t) (cal.day t) (cal.hour t) (cal.minute t) (cal.second t)
        ≡ t
  pub zero_time_only : (t : T) → is_zero_time cal t ≡ true → t ≡ cal.zero_time

-- Three numbers in one, the last two below 100.
packed :
    (a b c : ℕ)
    → b < 100
    → c < 100
    → let n = a * 10000 + b * 100 + c in (n / 10000 ≡ a) × ((n % 10000) / 100 ≡ b) × (n % 100 ≡ c)
packed a b c h k = (omega (arith, h, k), omega (arith, h, k), omega (arith, h, k))

-- A duration of hours, minutes and seconds is its number of seconds.
pub parse_sql_agent_duration_lem :
    (h m s : ℕ)
    → m < 100
    → s < 100
    → parse_sql_agent_duration (h * 10000 + m * 100 + s) ≡ h * 3600 + m * 60 + s
unfolding parse_sql_agent_duration
parse_sql_agent_duration_lem h m s k l = let (a, b, c) = packed h m s k l in rw (a, b, c) refl

module _ {T : Type 0} (cal : Calendar T) (lawful : IsCalendar cal) where
  date_of_codes :
      (y m d h mi s : ℕ)
      → m < 100
      → d < 100
      → mi < 100
      → s < 100
      → parse_sql_agent_date cal (y * 10000 + m * 100 + d) (h * 10000 + mi * 100 + s)
        ≡ cal.date y m d h mi s
  unfolding parse_sql_agent_date
  date_of_codes y m d h mi s bm bd bmi bs =
      let (a, b, c) = packed y m d bm bd in
      let (e, f, g) = packed h mi s bmi bs in cc (a, b, c, e, f, g)

  -- The time that a date and a time of day were made from is read back from them, in a calendar whose
  -- fields are in their ranges and determine the time.
  pub parse_sql_agent_date-sql_agent_date_time :
      (t : T)
      → parse_sql_agent_date cal
          (sql_agent_date_time cal t).run_date
          (sql_agent_date_time cal t).run_time
        ≡ t
  unfolding sql_agent_date_time
  parse_sql_agent_date-sql_agent_date_time t =
      let (m, d1, d) = lawful.date_bounds t in
      let (mi, s) = lawful.clock_bounds t in
      date_of_codes (cal.year t) (cal.month t) (cal.day t) (cal.hour t) (cal.minute t)
        (cal.second t) m d mi s
      ∙ lawful.date-fields t

  end_date_code :
      (n : ℕ) → 0 < n → n ≢ no_end_date → schedule_end_date cal n ≡ parse_sql_agent_date cal n 0
  unfolding schedule_end_date yyyymmdd_to_time
  end_date_code n pos other = ground (arith, pos, other)

  -- The end date of a schedule, or that it has none, is read back from its code in such a calendar, if
  -- the date is a midnight and not the last day of the year 9999, whose code stands for no end date.
  pub schedule_end_date-schedule_end_date_raw :
      (t : T)
      → cal.hour t ≡ 0
      → cal.minute t ≡ 0
      → cal.second t ≡ 0
      → cal.year t * 10000 + cal.month t * 100 + cal.day t ≢ no_end_date
      → schedule_end_date cal (schedule_end_date_raw cal t) ≡ t
  schedule_end_date-schedule_end_date_raw t h mi s not_last =
      let (m, d1, d) = lawful.date_bounds t in
      elim (Bool-cases (is_zero_time cal t)) [
        | inl e ↦ none_read e ∙ sym (lawful.zero_time_only t e)
        | inr e ↦ date_read e m d1 d
      ]
    where
      code : ℕ
      code = cal.year t * 10000 + cal.month t * 100 + cal.day t

      none_read :
          is_zero_time cal t ≡ true
          → schedule_end_date cal (schedule_end_date_raw cal t) ≡ cal.zero_time
      none_read e =
          let raw : schedule_end_date_raw cal t ≡ no_end_date =
            unfold schedule_end_date_raw in rw e refl in
          rw raw (unfold schedule_end_date in ground arith)

      date_read :
          is_zero_time cal t ≡ false
          → cal.month t < 100
          → 1 ≤ cal.day t
          → cal.day t < 100
          → schedule_end_date cal (schedule_end_date_raw cal t) ≡ t
      date_read e m d1 d =
          let raw : schedule_end_date_raw cal t ≡ code =
            unfold schedule_end_date_raw time_to_yyyymmdd in rw e refl in
          let read : schedule_end_date cal code ≡ parse_sql_agent_date cal code 0 =
            end_date_code code (omega (arith, d1)) not_last in
          let midnight : 0 * 10000 + 0 * 100 + 0 ≡ 0 = omega arith in
          let date : parse_sql_agent_date cal code 0
              ≡ cal.date (cal.year t) (cal.month t) (cal.day t) 0 0 0 =
            date_of_codes (cal.year t) (cal.month t) (cal.day t) 0 0 0 m d (omega arith)
              (omega arith) in
          ap (schedule_end_date cal) raw ∙ read ∙ date ∙ cc (h, mi, s, lawful.date-fields t)
