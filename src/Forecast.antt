-- ===== src/Forecast.antt =====
-- When a disk fills up (internal/store/forecast.go), from the rows that the linear fit in SQL gives.
-- float64 is a type `V` with its comparisons; its other operations are arguments.
use sy_mon.Base.{
  ℕ, String, Bool, true, false, ◌||◌, not, Option, none, some, List, [], ◌∷◌, if◌then◌else◌, ◌==◌,
  string_eq, ltb, ℤ, pos, lookup, insert, select, map, Result, ok, err, Float64,
}
pub mod Horizon

-- The operations, with Go's min and max.
pub record Operations (V : Type 0) : Type 0 where
  pub times : V → V → V
  pub over : V → V → V
  pub minus : V → V → V
  pub least : V → V → V
  pub greatest : V → V → V

abbrev pub forecast_min_samples : ℕ
forecast_min_samples = 24

abbrev pub forecast_horizon_days : ℕ
forecast_horizon_days = 365

pub data NoForecast : Type 0 where
  collecting not_growing not_steady over_a_year : NoForecast

pub data ForecastError : Type 0 where
  not_found : ForecastError

pub record DiskForecast (V : Type 0) : Type 0 where
  pub host : String
  pub device : String
  pub mount : String
  pub used_pct : V
  pub pct_per_day : V
  pub bytes_per_day : V
  -- the days, or why there is no forecast
  pub days_to_full : Result NoForecast V
  pub samples : ℕ

-- A row of the query; none is null.
pub record FitRow (V : Type 0) : Type 0 where
  pub host : String
  pub device : String
  pub mount : String
  pub used_pct : Option V
  pub used_bytes : Option V
  pub bytes_per_day : Option V
  pub r2 : Option V
  pub samples : ℕ

-- `min_r2` is 0.6.
module _ {V : Type 0} ⦃f : Float64 V⦄ (o : Operations V) (min_r2 : V) where
  abbrev pub number : ℕ → V
  number n = f.of_int (pos n)

  -- x <= y
  abbrev pub up_to : V → V → Bool
  up_to x y = f.less x y || f.same x y

  abbrev pub days_left : V → V → V → V
  days_left used_pct used_bytes bytes_per_day =
      o.over
        (o.greatest (o.over (o.times used_bytes (o.minus (number 100) used_pct)) used_pct)
          (number 0))
        bytes_per_day

  unfoldable pub forecast_days : V → V → V → V → ℕ → Result NoForecast V
  forecast_days used_pct used_bytes bytes_per_day r2 samples =
      if ltb samples forecast_min_samples
      then err collecting
      else if up_to bytes_per_day (number 0) || up_to used_pct (number 0)
      then err not_growing
      else if f.less r2 min_r2
      then err not_steady
      else if f.less (number forecast_horizon_days) (days_left used_pct used_bytes bytes_per_day)
      then err over_a_year
      else ok (days_left used_pct used_bytes bytes_per_day)

  abbrev pub value_or_zero : Option V → V
  value_or_zero none = number 0
  value_or_zero (some v) = v

  -- The growth in percent points, at the current size. A Go field is zero until it is set.
  abbrev pub percent_per_day : V → V → V → V
  percent_per_day bytes_per_day used_pct used =
      if f.less (number 0) used then o.over (o.times bytes_per_day used_pct) used else number 0

  unfoldable pub forecast_of : FitRow V → DiskForecast V
  unfolding forecast_days
  forecast_of r = record {
    host = r.host;
    device = r.device;
    mount = r.mount;
    used_pct = value_or_zero r.used_pct;
    pct_per_day =
        percent_per_day (value_or_zero r.bytes_per_day) (value_or_zero r.used_pct)
          (value_or_zero r.used_bytes);
    bytes_per_day = value_or_zero r.bytes_per_day;
    days_to_full =
        forecast_days (value_or_zero r.used_pct) (value_or_zero r.used_bytes)
          (value_or_zero r.bytes_per_day) (value_or_zero r.r2) r.samples;
    samples = r.samples;
  }

  abbrev pub is_sooner : V → Option V → Bool
  is_sooner days none = true
  is_sooner days (some other) = f.less days other

  abbrev pub note_forecast : String → Result NoForecast V → List (String × V) → List (String × V)
  note_forecast host (err why) soonest = soonest
  note_forecast host (ok days) soonest =
      if is_sooner days (lookup host soonest) then insert host days soonest else soonest

  abbrev pub note_all : List (DiskForecast V) → List (String × V) → List (String × V)
  note_all [] soonest = soonest
  note_all (d ∷ ds) soonest = note_all ds (note_forecast d.host d.days_to_full soonest)

  -- By host, the days until the first of its disks is full.
  unfoldable pub soonest_disk_full : List (FitRow V) → List (String × V)
  unfolding forecast_of lookup insert
  soonest_disk_full rows = note_all (map forecast_of rows) []

  abbrev pub sooner_of : V → Result NoForecast V → V
  sooner_of days (err why) = days
  sooner_of days (ok d) = o.least days d

  abbrev pub until_full : V → Bool → List (DiskForecast V) → Result ForecastError V
  until_full days found [] = if found then ok days else err not_found
  until_full days found (d ∷ ds) =
      let next = until_full days found ds in
      let noted = until_full (sooner_of days d.days_to_full) true ds in
      if ltb d.samples forecast_min_samples then next else noted

  -- Of the rows of one device of a host.
  unfoldable pub days_until_full : List (FitRow V) → Result ForecastError V
  unfolding forecast_of
  days_until_full rows = until_full (number forecast_horizon_days) false (map forecast_of rows)
