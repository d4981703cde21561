-- ===== src/Forecast/Horizon.antt =====
-- How far a forecast reaches (internal/store/forecast.go).
use sy_mon.Base.{
  ℕ, String, Bool, true, false, ◌||◌, not, List, [], ◌∷◌, string_eq, ltb, lookup, map, any, All,
  Result, ok, err, OnOk, Float64, ◌≡◌, ◌⊎◌, refl, sym, ◌∙◌, subst, arith, inl, inr, Bool-cases,
  All-insert,
}
use sy_mon.Forecast.{
  Operations, NoForecast, ForecastError, DiskForecast, FitRow, forecast_min_samples,
  forecast_horizon_days, number, forecast_days, days_left, forecast_of, is_sooner, note_forecast,
  note_all, soonest_disk_full, sooner_of, until_full, days_until_full, up_to,
}

module _ {V : Type 0} ⦃f : Float64 V⦄ (o : Operations V) (min_r2 : V) where
  -- Not more than a year.
  abbrev pub InYear : V → Type 0
  InYear days = f.less (number o min_r2 forecast_horizon_days) days ≡ false

  forecast_days-InYear :
      (used_pct used_bytes bytes_per_day r2 : V) (samples : ℕ)
      → OnOk InYear (forecast_days o min_r2 used_pct used_bytes bytes_per_day r2 samples)
  unfolding forecast_days
  forecast_days-InYear used_pct used_bytes bytes_per_day r2 samples =
      elim (Bool-cases (ltb samples forecast_min_samples)) [
        | inl a ↦ rw a tt
        | inr a ↦
            elim (Bool-cases (
              up_to o min_r2 bytes_per_day (number o min_r2 0)
              || up_to o min_r2 used_pct (number o min_r2 0))) [
                | inl b ↦ rw (a, b) tt
                | inr b ↦ elim (Bool-cases (f.less r2 min_r2)) [
                  | inl c ↦ rw (a, b, c) tt
                  | inr c ↦
                      elim (Bool-cases (
                        f.less (number o min_r2 forecast_horizon_days)
                          (days_left o min_r2 used_pct used_bytes bytes_per_day))) [
                            | inl d ↦ rw (a, b, c, d) tt
                            | inr d ↦ rw (a, b, c, d) d
                          ]
                ]
              ]
      ]

  forecasts-InYear :
      (rows : List (FitRow V))
      → All (λ (d : DiskForecast V). OnOk InYear d.days_to_full) (map (forecast_of o min_r2) rows)
  unfolding forecast_of
  forecasts-InYear [] = tt
  forecasts-InYear (r ∷ rows) = (forecast_days-InYear _ _ _ _ _, forecasts-InYear rows)

  abbrev pub EntryInYear : String × V → Type 0
  EntryInYear e = InYear e.1

  note-InYear :
      (host : String) (r : Result NoForecast V) (soonest : List (String × V))
      → OnOk InYear r
      → All EntryInYear soonest
      → All EntryInYear (note_forecast o min_r2 host r soonest)
  note-InYear host (err why) soonest h a = a
  note-InYear host (ok days) soonest h a =
      elim (Bool-cases (is_sooner o min_r2 days (lookup host soonest))) [
        | inl e ↦ rw e (All-insert EntryInYear host days soonest h a)
        | inr e ↦ rw e a
      ]

  note_all-InYear :
      (ds : List (DiskForecast V)) (soonest : List (String × V))
      → All (λ (d : DiskForecast V). OnOk InYear d.days_to_full) ds
      → All EntryInYear soonest
      → All EntryInYear (note_all o min_r2 ds soonest)
  note_all-InYear [] soonest h a = a
  note_all-InYear (d ∷ ds) soonest h a =
      note_all-InYear ds (note_forecast o min_r2 d.host d.days_to_full soonest) h.1
        (note-InYear d.host d.days_to_full soonest h.0 a)

  module _ (least_one : (a b : V) → (o.least a b ≡ a) ⊎ (o.least a b ≡ b)) where
    sooner_of-InYear :
        (days : V) (r : Result NoForecast V)
        → InYear days
        → OnOk InYear r
        → InYear (sooner_of o min_r2 days r)
    sooner_of-InYear days (err why) h k = h
    sooner_of-InYear days (ok d) h k = elim (least_one days d) [
      | inl e ↦ subst InYear (sym e) h
      | inr e ↦ subst InYear (sym e) k
    ]

    until_full-InYear :
        (ds : List (DiskForecast V)) (days : V) (found : Bool)
        → All (λ (d : DiskForecast V). OnOk InYear d.days_to_full) ds
        → InYear days
        → OnOk InYear (until_full o min_r2 days found ds)
    until_full-InYear [] days true a h = h
    until_full-InYear [] days false a h = tt
    until_full-InYear (d ∷ ds) days found a h =
        elim (Bool-cases (ltb d.samples forecast_min_samples)) [
          | inl e ↦ rw e (until_full-InYear ds days found a.1 h)
          | inr e ↦ rw e (
              until_full-InYear ds (sooner_of o min_r2 days d.days_to_full) true a.1
                (sooner_of-InYear days d.days_to_full h a.0))
        ]

    abbrev pub is_found : Result ForecastError V → Bool
    is_found (ok days) = true
    is_found (err e) = false

    abbrev pub has_history : FitRow V → Bool
    has_history r = not (ltb r.samples forecast_min_samples)

    until_full-found :
        (rows : List (FitRow V)) (days : V) (found : Bool)
        → is_found (until_full o min_r2 days found (map (forecast_of o min_r2) rows))
          ≡ found || any has_history rows
    unfolding forecast_of
    until_full-found [] days true = refl
    until_full-found [] days false = refl
    until_full-found (r ∷ rows) days found =
        elim (Bool-cases (ltb r.samples forecast_min_samples)) [
          | inl e ↦ rw e (until_full-found rows days found ∙ ground arith)
          | inr e ↦ rw e (until_full-found rows _ true ∙ ground arith)
        ]

    -- When Go's min gives one of its arguments and 365 is not less than itself, no forecast that
    -- SoonestDiskFull gives for a host reaches further than 365 days, and neither does the value of
    -- DaysUntilFull; that gives no value exactly when none of the disk's rows has 24 samples.
    pub days_until_full_lem :
        (rows : List (FitRow V))
        → InYear (number o min_r2 forecast_horizon_days)
        → All EntryInYear (soonest_disk_full o min_r2 rows)
          × OnOk InYear (days_until_full o min_r2 rows)
          × (is_found (days_until_full o min_r2 rows) ≡ any has_history rows)
    unfolding soonest_disk_full days_until_full
    days_until_full_lem rows h = (
      note_all-InYear (map (forecast_of o min_r2) rows) [] (forecasts-InYear rows) tt,
      until_full-InYear (map (forecast_of o min_r2) rows) _ false (forecasts-InYear rows) h,
      until_full-found rows _ false,
    )
