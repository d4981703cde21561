-- ===== src/Kube/Events/Newest.antt =====
-- Which warning events are kept (internal/kube/objects.go).
use sy_mon.Base.{
  ℕ, zero, suc, ◌+◌, ◌*◌, ◌≤◌, String, true, false, List, [], ◌∷◌, ltb, length, take, length-take,
  ltb_ℤ, ℤ, pos, negsuc, All, All-map, ◌≡◌, arith, inl, inr, Bool-cases,
}
use sy_mon.Alerts.Data.{second}
use sy_mon.Kube.Types.{Event}
use sy_mon.Kube.Objects.{unix}
use sy_mon.Kube.Events.{
  ApiEvent, event_window, max_events, last_seen_of, is_old, recent, place, newest_first,
  warning_events, max_ℤ, count_of,
}

-- Seen in the hour before, and counted at least once.
pub record EventOk (now : ℕ) (e : Event) : Type 0 where
  pub is_recent : now ≤ (e.last_seen + 1) * second + event_window
  pub is_counted : ltb_ℤ (pos 0) e.count ≡ true

abbrev pub NoNewer : ℕ → List Event → Type 0
NoNewer t es = All (λ (e : Event). e.last_seen ≤ t) es

abbrev pub NewestFirst : List Event → Type 0
NewestFirst [] = Unit
NewestFirst (e ∷ es) = NoNewer e.last_seen es × NewestFirst es

place-All : (P : Event → Type 0) (e : Event) (es : List Event) → P e → All P es → All P (place e es)
place-All P e [] h a = (h, tt)
place-All P e (f ∷ fs) h a = elim (Bool-cases (ltb e.last_seen f.last_seen)) [
  | inl t ↦ rw t (a.0, place-All P e fs h a.1)
  | inr t ↦ rw t (h, a)
]

newest_first-All : (P : Event → Type 0) (es : List Event) → All P es → All P (newest_first es)
newest_first-All P [] a = tt
newest_first-All P (e ∷ es) a = place-All P e (newest_first es) a.0 (newest_first-All P es a.1)

place-NewestFirst : (e : Event) (es : List Event) → NewestFirst es → NewestFirst (place e es)
place-NewestFirst e [] s = (tt, tt)
place-NewestFirst e (f ∷ fs) s = elim (Bool-cases (ltb e.last_seen f.last_seen)) [
  | inl t ↦ rw t (
    place-All (λ (g : Event). g.last_seen ≤ f.last_seen) e fs (ground arith) s.0,
    place-NewestFirst e fs s.1,
  )
  | inr t ↦ rw t (
    (
      ground arith,
      All-map (λ (g : Event). g.last_seen ≤ f.last_seen) (λ (g : Event). g.last_seen ≤ e.last_seen)
          fs (λ g h. ground arith) s.0,
    ),
    s,
  )
]

newest_first-NewestFirst : (es : List Event) → NewestFirst (newest_first es)
newest_first-NewestFirst [] = tt
newest_first-NewestFirst (e ∷ es) =
    place-NewestFirst e (newest_first es) (newest_first-NewestFirst es)

take-All : (P : Event → Type 0) (n : ℕ) (es : List Event) → All P es → All P (take n es)
take-All P zero es a = tt
take-All P (suc n) [] a = tt
take-All P (suc n) (e ∷ es) a = (a.0, take-All P n es a.1)

take-NewestFirst : (n : ℕ) (es : List Event) → NewestFirst es → NewestFirst (take n es)
take-NewestFirst zero es s = tt
take-NewestFirst (suc n) [] s = tt
take-NewestFirst (suc n) (e ∷ es) s =
    (take-All (λ (g : Event). g.last_seen ≤ e.last_seen) n es s.0, take-NewestFirst n es s.1)

counted-once : (n : ℤ) → ltb_ℤ (pos 0) (max_ℤ n (pos 1)) ≡ true
counted-once (pos n) = ground arith
counted-once (negsuc n) = ground arith

-- Whole seconds are at most a second less.
whole : (t : ℕ) → t ≤ (unix t + 1) * second
whole t = omega arith

recent-EventOk :
    (cut : ℕ → String → String) (now : ℕ) (es : List ApiEvent)
    → All (EventOk now) (recent cut now es)
recent-EventOk cut now [] = tt
recent-EventOk cut now (e ∷ es) = elim (Bool-cases (is_old now e)) [
  | inl t ↦ rw t (recent-EventOk cut now es)
  | inr t ↦ rw t (
    record { is_recent = within t; is_counted = counted-once (count_of e.count e.series) },
    recent-EventOk cut now es,
  )
]
  where
    within : is_old now e ≡ false → now ≤ (unix (last_seen_of e) + 1) * second + event_window
    within t = ground (arith, whole (last_seen_of e))

-- At most fifty events are kept, newest first, each with a count of at least one and seen at most an
-- hour before, to the second.
pub warning_events_lem :
    (cut : ℕ → String → String) (events : List ApiEvent) (now : ℕ)
    → (length (warning_events cut events now) ≤ max_events)
      × NewestFirst (warning_events cut events now)
      × All (EventOk now) (warning_events cut events now)
unfolding warning_events
warning_events_lem cut events now = (
  omega (arith, length-take max_events (newest_first (recent cut now events))),
  take-NewestFirst max_events _ (newest_first-NewestFirst (recent cut now events)),
  take-All (EventOk now) max_events _
      (newest_first-All (EventOk now) (recent cut now events) (recent-EventOk cut now events)),
)
