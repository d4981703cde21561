-- ===== src/Notify/Told.antt =====
-- Who hears that an alert is resolved (collector/notify.go, and NotifiedChannels of
-- internal/store/notifications.go).
use sy_mon.Base.{
  ℕ, Bool, true, ◌&&◌, ◌||◌, ap, List, [], ◌∷◌, ◌==◌, nat_eq, contains, any, ◌≡◌, refl, arith, inl,
  inr, Bool-cases,
}
use sy_mon.Rules.{AlertConfig}
use sy_mon.Alerts.Data.{resolved}
use sy_mon.Notify.Channels.{Channel, picks, pick_channels}
use sy_mon.Notify.Queue.{Notification, Queue, insert_id, channels_of, notified_channels}

contains-insert_id :
    (i c : ℕ) (xs : List ℕ) → contains (insert_id i xs) c ≡ ((i == c) || contains xs c)
unfolding insert_id
contains-insert_id i c [] = ground arith
contains-insert_id i c (x ∷ xs) = ground (arith, contains-insert_id i c xs)

abbrev pub is_on : ℕ → Channel → Bool
is_on c channel = channel.id == c && channel.enabled

picks-resolved :
    (rule : AlertConfig) (severity : ℕ) (told : List ℕ) (x : Channel)
    → picks rule resolved severity told x ≡ (x.enabled && contains told x.id)
unfolding picks
picks-resolved rule severity told x = ground arith

picked_told :
    (rule : AlertConfig) (severity : ℕ) (told : List ℕ) (channels : List Channel) (c : ℕ)
    → contains (pick_channels rule channels resolved severity told) c
      ≡ (any (is_on c) channels && contains told c)
unfolding pick_channels
picked_told rule severity told [] c = refl
picked_told rule severity told (x ∷ xs) c = elim (Bool-cases (x.id == c)) [
  | inl e ↦ ground (
    arith,
    picks-resolved rule severity told x,
    picked_told rule severity told xs c,
    ap (contains told) (same e),
  )
  | inr e ↦ ground (arith, picks-resolved rule severity told x, picked_told rule severity told xs c)
]
  where
    same : (x.id == c) ≡ true → x.id ≡ c
    same e = ground arith

module _ {V : Type 0} where
  -- A notification about the alert for the channel.
  abbrev pub tells : ℕ → ℕ → Notification V → Bool
  tells alert_id c n = n.alert_id == alert_id && n.channel_id == c

  contains-channels_of :
      (alert_id c : ℕ) (ns : List (Notification V))
      → contains (channels_of alert_id ns) c ≡ any (tells alert_id c) ns
  unfolding channels_of
  contains-channels_of alert_id c [] = refl
  contains-channels_of alert_id c (n ∷ ns) = ground (
    arith,
    contains-channels_of alert_id c ns,
    contains-insert_id n.channel_id c (channels_of alert_id ns),
  )

  -- When an alert is resolved, the channels picked, whatever the rule asks for and however severe the
  -- alert was, are those that are on and that a notification about the alert was queued for.
  pub pick_channels-resolved :
      (rule : AlertConfig) (severity alert_id : ℕ) (channels : List Channel) (q : Queue V) (c : ℕ)
      → contains (pick_channels rule channels resolved severity (notified_channels q alert_id)) c
        ≡ (any (is_on c) channels && any (tells alert_id c) q.rows)
  unfolding notified_channels
  pick_channels-resolved rule severity alert_id channels q c =
      rw
        (
          picked_told rule severity (channels_of alert_id q.rows) channels c,
          contains-channels_of alert_id c q.rows,
        )
        refl
