-- ===== src/Notify/Marks.antt =====
-- What a try writes to its notification's row (collector/notify.go).
use sy_mon.Base.{
  ℕ, ◌+◌, ◌≤◌, String, Bool, true, false, Option, none, some, nat_eq, ◌≡◌, refl, arith, ok, err,
  Result,
}
use sy_mon.Notify.Channels.{retry_after}
use sy_mon.Notify.Queue.{
  Notification, Queue, change, as_sent, as_retry, as_failed, mark_sent, mark_retry, mark_failed,
}
use sy_mon.Notify.Deliver.{record_failure, record_outcome}
use sy_mon.Notify.InOrder.{Mark}

retry_after-bound : (k w : ℕ) → retry_after (k + 1) ≡ some w → k ≤ 4
unfolding retry_after
retry_after-bound k w e = ground arith

module _ {V : Type 0} where
  as_sent-Mark : (k now : ℕ) (ref : String) → Mark {V = V} k (as_sent now ref)
  unfolding as_sent
  as_sent-Mark k now ref = record {
    same_id = λ n. refl;
    same_alert = λ n. refl;
    same_channel = λ n. refl;
    never_reopens = λ n p. cc;
    tries_ok = λ n e h. record { tries = omega arith; left = λ p. cc; done = λ p. omega arith };
  }

  as_failed-Mark : (k : ℕ) (reason : String) → Mark {V = V} k (as_failed reason)
  unfolding as_failed
  as_failed-Mark k reason = record {
    same_id = λ n. refl;
    same_alert = λ n. refl;
    same_channel = λ n. refl;
    never_reopens = λ n p. cc;
    tries_ok = λ n e h. record { tries = omega arith; left = λ p. cc; done = λ p. omega arith };
  }

  as_retry-Mark : (k next : ℕ) (reason : String) → k ≤ 4 → Mark {V = V} k (as_retry reason next)
  unfolding as_retry
  as_retry-Mark k next reason h = record {
    same_id = λ n. refl;
    same_alert = λ n. refl;
    same_channel = λ n. refl;
    never_reopens = λ n p. p;
    tries_ok =
        λ n e h'. record { tries = omega arith; left = λ p. omega arith; done = λ p. omega arith };
  }

  -- What a try writes is a mark on the notification's row, or nothing.
  abbrev pub Written : Notification V → Queue V → Queue V → Type 0
  Written n q r =
      (g : Notification V → Notification V) × Mark n.attempts g
      × (r ≡ record q { rows = change n.id g q.rows })

  record_failure-Written :
      (q : Queue V) (n : Notification V) (reason : String) (now : ℕ) (retry : Bool)
      (wait : Option ℕ)
      → retry_after (n.attempts + 1) ≡ wait
      → Written n q (record_failure q n reason now retry wait)
  unfolding mark_failed mark_retry
  record_failure-Written q n reason now true (some w) e = (
    as_retry reason (now + w),
    as_retry-Mark n.attempts (now + w) reason (retry_after-bound n.attempts w e),
    refl,
  )
  record_failure-Written q n reason now true none e =
      (as_failed reason, as_failed-Mark n.attempts reason, refl)
  record_failure-Written q n reason now false wait e =
      (as_failed reason, as_failed-Mark n.attempts reason, refl)

  pub record_outcome-Written :
      (q : Queue V) (n : Notification V) (now : ℕ) (retry : Bool) (sent : Result String String)
      → Written n q (record_outcome q n now (record { retry = retry; sent = sent }))
  unfolding mark_sent
  record_outcome-Written q n now retry (ok ref) =
      (as_sent now ref, as_sent-Mark n.attempts now ref, refl)
  record_outcome-Written q n now retry (err reason) =
      record_failure-Written q n reason now retry (retry_after (n.attempts + 1)) refl
