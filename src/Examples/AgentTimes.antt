-- ===== src/Examples/AgentTimes.antt =====
-- A calendar of three moments.
use gosmo.Base.{ℕ, ◌+◌, ◌*◌, ◌≡◌, ◌≢◌, refl, true, ◌==◌, if◌then◌else◌, arith}
use gosmo.Agent.{
  Calendar, sql_agent_date_time, parse_sql_agent_date, is_zero_time, schedule_end_date,
  schedule_end_date_raw,
}
use gosmo.Agent.Decoded.{
  IsCalendar, parse_sql_agent_date-sql_agent_date_time, schedule_end_date-schedule_end_date_raw,
}

data Moment : Type 0 where
  first_day new_year noon : Moment

moment_year : Moment → ℕ
moment_year first_day = 1
moment_year new_year = 2024
moment_year noon = 2024

moment_hour : Moment → ℕ
moment_hour first_day = 0
moment_hour new_year = 0
moment_hour noon = 12

moments : Calendar Moment
moments = record {
  year = moment_year;
  month = λ t. 1;
  day = λ t. 1;
  hour = moment_hour;
  minute = λ t. 0;
  second = λ t. 0;
  date = λ y m d h mi s. if y == 1 then first_day else if h == 12 then noon else new_year;
  zero_time = first_day;
}

moments-IsCalendar : IsCalendar moments
unfolding moments moment_year moment_hour is_zero_time
moments-IsCalendar = record {
  date_bounds = λ t. (omega arith, omega arith, omega arith);
  clock_bounds = λ t. (omega arith, omega arith);
  date-fields = fields;
  zero_time_only = zero;
}
  where
    fields : (t : Moment) → moments.date (moments.year t) 1 1 (moments.hour t) 0 0 ≡ t
    fields first_day = refl
    fields new_year = refl
    fields noon = refl

    zero : (t : Moment) → is_zero_time moments t ≡ true → t ≡ first_day
    zero first_day h = refl
    zero new_year h = absurd (cc h)
    zero noon h = absurd (cc h)

parse_sql_agent_date-sql_agent_date_time_example :
    parse_sql_agent_date moments
      (sql_agent_date_time moments noon).run_date
      (sql_agent_date_time moments noon).run_time
    ≡ noon
parse_sql_agent_date-sql_agent_date_time_example =
    parse_sql_agent_date-sql_agent_date_time moments moments-IsCalendar noon

not_last : 2024 * 10000 + 1 * 100 + 1 ≢ 99991231
not_last h = omega (arith, h)

schedule_end_date-schedule_end_date_raw_example :
    schedule_end_date moments (schedule_end_date_raw moments new_year) ≡ new_year
unfolding moments moment_year moment_hour
schedule_end_date-schedule_end_date_raw_example =
    schedule_end_date-schedule_end_date_raw moments moments-IsCalendar new_year refl refl refl
      not_last
