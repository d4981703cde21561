-- ===== src/Notify/Queue.antt =====
-- The notifications table (internal/store/notifications.go), oldest row first. Of the columns that
-- DueNotifications joins, the channel's and the alert's are looked up by their ids.
use sy_mon.Base.{
  ℕ, suc, ◌+◌, ltb, leb, String, Bool, true, false, ◌&&◌, not, Option, none, some, List, [], ◌∷◌,
  ◌++◌, if◌then◌else◌, ◌==◌, string_eq, nat_eq, contains, any, all, select, take, is_empty, Result,
  ok, err,
}
use sy_mon.Alerts.Data.{Event}
use sy_mon.Alerts.Store.{StoreError, failure}
use sy_mon.Stored.{clean_text, short_error}

pub data Delivery : Type 0 where
  pending sent failed : Delivery

abbrev pub is_pending : Delivery → Bool
is_pending pending = true
is_pending sent = false
is_pending failed = false

pub record Notification (V : Type 0) : Type 0 where
  pub id : ℕ
  pub alert_id : ℕ
  pub channel_id : ℕ
  pub event : Event
  pub severity : ℕ
  pub value : V
  pub subject : String
  pub body : String
  pub status : Delivery
  pub attempts : ℕ
  pub next_attempt_at : ℕ
  pub last_error : String
  pub ref : String
  pub created_at : ℕ
  pub sent_at : Option ℕ

pub record Queue (V : Type 0) : Type 0 where
  pub rows : List (Notification V)
  pub next_id : ℕ
  -- The ids of the channels that exist.
  pub channel_ids : List ℕ

-- What is queued: the fields of the notice that the table keeps.
pub record Queued (V : Type 0) : Type 0 where
  pub alert_id : ℕ
  pub event : Event
  pub severity : ℕ
  pub value : V
  pub subject : String
  pub body : String

abbrev pub after_ids : ℕ → List ℕ → ℕ
after_ids id [] = id
after_ids id (c ∷ cs) = after_ids (suc id) cs

-- SELECT DISTINCT … ORDER BY
unfoldable pub insert_id : ℕ → List ℕ → List ℕ
insert_id id [] = id ∷ []
insert_id id (x ∷ xs) =
    if id == x then x ∷ xs else if ltb id x then id ∷ x ∷ xs else x ∷ insert_id id xs

module _ {V : Type 0} where
  unfoldable pub new_row : Queued V → ℕ → ℕ → ℕ → Notification V
  new_row n now id channel_id = record {
    id = id;
    alert_id = n.alert_id;
    channel_id = channel_id;
    event = n.event;
    severity = n.severity;
    value = n.value;
    subject = clean_text n.subject;
    body = clean_text n.body;
    status = pending;
    attempts = 0;
    next_attempt_at = now;
    last_error = "";
    ref = "";
    created_at = now;
    sent_at = none;
  }

  -- The inserts of a batch, with growing ids.
  unfoldable pub new_rows : Queued V → ℕ → ℕ → List ℕ → List (Notification V)
  unfolding new_row
  new_rows n now id [] = []
  new_rows n now id (c ∷ cs) = new_row n now id c ∷ new_rows n now (suc id) cs

  -- One notification for each channel, in one transaction: a channel that is gone fails them all.
  unfoldable pub queue_notifications :
      Queue V → Queued V → ℕ → List ℕ → Result StoreError (Unit {0}) × Queue V
  unfolding new_rows
  queue_notifications q n now ids =
      if all (contains q.channel_ids) ids
      then (
        ok tt,
        record q {
          rows = q.rows ++ new_rows n now q.next_id ids;
          next_id = after_ids q.next_id ids;
        },
      )
      else (err failure, q)

  unfoldable pub channels_of : ℕ → List (Notification V) → List ℕ
  unfolding insert_id
  channels_of alert_id [] = []
  channels_of alert_id (n ∷ ns) =
      let rest = channels_of alert_id ns in
      if n.alert_id == alert_id then insert_id n.channel_id rest else rest

  unfoldable pub notified_channels : Queue V → ℕ → List ℕ
  unfolding channels_of
  notified_channels q alert_id = channels_of alert_id q.rows

  -- An earlier notification about the same alert for the same channel.
  abbrev pub precedes : Notification V → Notification V → Bool
  precedes n p = p.alert_id == n.alert_id && p.channel_id == n.channel_id && ltb p.id n.id

  abbrev pub blocks : Notification V → Notification V → Bool
  blocks n p = precedes n p && is_pending p.status

  unfoldable pub is_due : List (Notification V) → ℕ → Notification V → Bool
  is_due rows now n = is_pending n.status && leb n.next_attempt_at now && not (any (blocks n) rows)

  -- The ref of the newest earlier notification that has one.
  unfoldable pub previous_ref : List (Notification V) → Notification V → String
  previous_ref [] n = ""
  previous_ref (p ∷ ps) n =
      let rest = previous_ref ps n in if is_empty rest && precedes n p then p.ref else rest

  unfoldable pub due_notifications : Queue V → ℕ → ℕ → List (Notification V)
  unfolding is_due
  due_notifications q now limit = take limit (select (is_due q.rows now) q.rows)

  abbrev pub change :
      ℕ → (Notification V → Notification V) → List (Notification V) → List (Notification V)
  change id g [] = []
  change id g (n ∷ ns) = (if n.id == id then g n else n) ∷ change id g ns

  unfoldable pub as_sent : ℕ → String → Notification V → Notification V
  as_sent now ref n = record n {
    status = sent;
    attempts = n.attempts + 1;
    sent_at = some now;
    ref = ref;
    last_error = "";
  }

  unfoldable pub as_retry : String → ℕ → Notification V → Notification V
  as_retry reason next n = record n {
    attempts = n.attempts + 1;
    last_error = short_error reason;
    next_attempt_at = next;
  }

  unfoldable pub as_failed : String → Notification V → Notification V
  as_failed reason n = record n {
    status = failed;
    attempts = n.attempts + 1;
    last_error = short_error reason;
  }

  unfoldable pub mark_sent : Queue V → ℕ → String → ℕ → Queue V
  unfolding as_sent
  mark_sent q id ref now = record q { rows = change id (as_sent now ref) q.rows }

  unfoldable pub mark_retry : Queue V → ℕ → String → ℕ → Queue V
  unfolding as_retry
  mark_retry q id reason next = record q { rows = change id (as_retry reason next) q.rows }

  unfoldable pub mark_failed : Queue V → ℕ → String → Queue V
  unfolding as_failed
  mark_failed q id reason = record q { rows = change id (as_failed reason) q.rows }
