-- ===== src/Notify/Deliver.antt =====
-- Queueing an alert's notice, and the loop that sends what is due (collector/notify.go). The senders
-- of internal/notify talk to other services: what they answer, the clock and whether the store takes
-- a mark are an environment, asked for each notification.
use sy_mon.Base.{
  ℕ, ◌+◌, String, Bool, true, false, not, Option, none, some, List, [], ◌∷◌, if◌then◌else◌, ◌==◌,
  nat_eq, concat, Result, ok, err, find,
}
use sy_mon.Alerts.Data.{is_resolved, Notice}
use sy_mon.Alerts.Store.{StoreError}
use sy_mon.Notify.Channels.{Channel, pick_channels, retry_after}
use sy_mon.Notify.Queue.{
  Notification, Queue, queue_notifications, notified_channels, due_notifications, previous_ref,
  mark_sent, mark_retry, mark_failed,
}

abbrev pub deliver_batch : ℕ
deliver_batch = 20

pub record World (V : Type 0) : Type 0 where
  pub channels : List Channel
  -- notify.Parse of a channel's settings: whether they are broken, and how
  pub parse : Channel → Result String (Unit {0})
  -- Send: the ref to keep, or why it failed
  pub send : Channel → Notification V → String → Result String String
  -- the time at which a notification is marked, and whether the store takes the mark
  pub clock : ℕ → ℕ
  pub marks : ℕ → Bool

-- The ref, whether trying again would help, and the error.
pub record Outcome : Type 0 where
  pub retry : Bool
  pub sent : Result String String

module _ {V : Type 0} where
  -- The channels told about an alert are asked for when it is resolved only.
  unfoldable pub queue_notice :
      Queue V → List Channel → Notice V → ℕ → Result StoreError (Unit {0}) × Queue V
  queue_notice q channels n now =
      let told = if is_resolved n.event then notified_channels q n.alert_id else [] in
      queue_notifications q
        (record {
          alert_id = n.alert_id;
          event = n.event;
          severity = n.severity;
          value = n.value;
          subject = n.subject;
          body = n.body;
        })
        now (pick_channels n.rule channels n.event n.severity told)

  abbrev parsed : World V → Channel → Notification V → String → Result String (Unit {0}) → Outcome
  parsed w c n ref (ok u) = record { retry = true; sent = w.send c n ref }
  parsed w c n ref (err e) = record {
    retry = false;
    sent = err (concat ("the channel's settings are broken: " ∷ e ∷ []));
  }

  abbrev to_channel : World V → Notification V → String → Option Channel → Outcome
  to_channel w n ref none = record { retry = false; sent = err "the channel is switched off" }
  to_channel w n ref (some c) =
      if not c.enabled
      then record { retry = false; sent = err "the channel is switched off" }
      else parsed w c n ref (w.parse c)

  unfoldable pub deliver_one : World V → Notification V → String → Outcome
  deliver_one w n ref = to_channel w n ref (find (λ (c : Channel). c.id == n.channel_id) w.channels)

  -- What is written about a try.
  abbrev pub record_failure : Queue V → Notification V → String → ℕ → Bool → Option ℕ → Queue V
  record_failure q n reason now true (some wait) = mark_retry q n.id reason (now + wait)
  record_failure q n reason now true none = mark_failed q n.id reason
  record_failure q n reason now false wait = mark_failed q n.id reason

  abbrev pub record_outcome : Queue V → Notification V → ℕ → Outcome → Queue V
  record_outcome q n now o = elim (o.sent) [
    | ok ref ↦ mark_sent q n.id ref now
    | err reason ↦ record_failure q n reason now o.retry (retry_after (n.attempts + 1))
  ]

  -- One notification of the batch. `listed` is the table as it was when the batch was listed.
  unfoldable pub deliver_step : World V → List (Notification V) → Queue V → Notification V → Queue V
  unfolding deliver_one
  deliver_step w listed q n =
      if w.marks n.id
      then record_outcome q n (w.clock n.id) (deliver_one w n (previous_ref listed n))
      else q

  unfoldable pub deliver_all :
      World V → List (Notification V) → Queue V → List (Notification V) → Queue V
  unfolding deliver_step
  deliver_all w listed q [] = q
  deliver_all w listed q (n ∷ ns) = deliver_all w listed (deliver_step w listed q n) ns

  -- One batch of what is due, one after the other.
  unfoldable pub deliver_due : World V → Queue V → ℕ → Queue V
  unfolding deliver_all
  deliver_due w q now = deliver_all w q.rows q (due_notifications q now deliver_batch)
