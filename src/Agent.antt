-- ===== src/Agent.antt =====
-- agent_job_history.go and agent_schedule.go: the integers that msdb keeps dates and times of day in.
pub mod Decoded
use Prim.Native.Nat.{compare, Ordering}
use gosmo.Base.{
  ℕ, zero, suc, ◌+◌, ◌*◌, ◌/◌, ◌%◌, ◌≤◌, ◌<◌, ◌≡◌, refl, Bool, true, false, ◌&&◌, ◌||◌, ltb, leb,
  ◌==◌, if◌then◌else◌, Bytes, codes, List, [], ◌∷◌, ◌++◌,
}

-- What the code uses of time.Time in UTC: its fields, and time.Date of them. T stands for the times of
-- whole seconds, from the year 0 on.
pub record Calendar (T : Type 0) : Type 0 where
  pub year : T → ℕ
  pub month : T → ℕ
  pub day : T → ℕ
  pub hour : T → ℕ
  pub minute : T → ℕ
  pub second : T → ℕ
  pub date : ℕ → ℕ → ℕ → ℕ → ℕ → ℕ → T
  -- time.Time{}, the first of January of the year 1
  pub zero_time : T

-- A date in the form YYYYMMDD and a time of day in the form HHMMSS.
pub record AgentTime : Type 0 where
  pub run_date : ℕ
  pub run_time : ℕ

-- noEndDateYYYYMMDD
abbrev pub no_end_date : ℕ
no_end_date = 99991231

-- parseSQLAgentDuration, in seconds
unfoldable pub parse_sql_agent_duration : ℕ → ℕ
parse_sql_agent_duration dur = dur / 10000 * 3600 + (dur % 10000) / 100 * 60 + dur % 100

module _ {T : Type 0} (cal : Calendar T) where
  unfoldable pub sql_agent_date_time : T → AgentTime
  sql_agent_date_time t = record {
    run_date = cal.year t * 10000 + cal.month t * 100 + cal.day t;
    run_time = cal.hour t * 10000 + cal.minute t * 100 + cal.second t;
  }

  unfoldable pub parse_sql_agent_date : ℕ → ℕ → T
  parse_sql_agent_date run_date run_time =
      cal.date (run_date / 10000) ((run_date % 10000) / 100) (run_date % 100) (run_time / 10000)
        ((run_time % 10000) / 100) (run_time % 100)

  unfoldable pub is_zero_time : T → Bool
  is_zero_time t =
      cal.year t == 1
      && cal.month t == 1
      && cal.day t == 1
      && cal.hour t == 0
      && cal.minute t == 0
      && cal.second t == 0

  unfoldable pub yyyymmdd_to_time : ℕ → T
  unfolding parse_sql_agent_date
  yyyymmdd_to_time n = if n == 0 then cal.zero_time else parse_sql_agent_date n 0

  unfoldable pub time_to_yyyymmdd : T → ℕ
  unfolding is_zero_time
  time_to_yyyymmdd t =
      if is_zero_time t then 0 else cal.year t * 10000 + cal.month t * 100 + cal.day t

  unfoldable pub schedule_end_date : ℕ → T
  unfolding yyyymmdd_to_time
  schedule_end_date raw =
      if raw == 0 || raw == no_end_date then cal.zero_time else yyyymmdd_to_time raw

  unfoldable pub schedule_end_date_raw : T → ℕ
  unfolding time_to_yyyymmdd
  schedule_end_date_raw t = if is_zero_time t then no_end_date else time_to_yyyymmdd t
