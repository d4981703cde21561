-- ===== src/Notify/Order.antt =====
-- The order of the notifications table, as a predicate on its rows, and the rows that queueing adds
-- (collector/notify.go, internal/store/notifications.go).
use sy_mon.Base.{
  ℕ, suc, ◌≤◌, Bool, true, ◌&&◌, List, [], ◌∷◌, ◌++◌, ◌==◌, nat_eq, All, all, ◌≡◌, ◌≢◌, refl, arith,
  inl, inr, Bool-cases, contains,
}
use sy_mon.Notify.Queue.{
  Notification, Queue, Queued, pending, new_row, new_rows, after_ids, queue_notifications,
}

module _ {V : Type 0} where
  abbrev pub same_key : Notification V → Notification V → Bool
  same_key n x = x.alert_id == n.alert_id && x.channel_id == n.channel_id

  pub record Untouched (n : Notification V) : Type 0 where
    pub still_pending : n.status ≡ pending
    pub untried : n.attempts ≡ 0

  -- At most six tries, and a pending one has had at most five.
  pub record TriesOk (n : Notification V) : Type 0 where
    pub tries : n.attempts ≤ 6
    pub left : n.status ≡ pending → n.attempts ≤ 5
    pub done : n.status ≢ pending → 1 ≤ n.attempts

  abbrev pub Waits : Notification V → List (Notification V) → Type 0
  Waits n = All λ x. n.status ≡ pending → same_key n x ≡ true → Untouched x

  -- Ids from `lo` up to below `hi`, growing.
  abbrev pub Ordered : ℕ → ℕ → List (Notification V) → Type 0
  Ordered lo hi [] = lo ≤ hi
  Ordered lo hi (n ∷ ns) = (lo ≤ n.id) × TriesOk n × Waits n ns × Ordered (suc n.id) hi ns

  abbrev pub IsValid : Queue V → Type 0
  IsValid q = Ordered 0 q.next_id q.rows

  new_rows-Untouched :
      (c : Queued V) (now id : ℕ) (cs : List ℕ) → All Untouched (new_rows c now id cs)
  unfolding new_rows
  new_rows-Untouched c now id [] = tt
  new_rows-Untouched c now id (x ∷ cs) =
      (record { still_pending = refl; untried = refl }, new_rows-Untouched c now (suc id) cs)

  Waits-of_Untouched :
      (n : Notification V) (ns : List (Notification V)) → All Untouched ns → Waits n ns
  Waits-of_Untouched n [] h = tt
  Waits-of_Untouched n (x ∷ ns) h = ((λ p k. h.0), Waits-of_Untouched n ns h.1)

  Waits-append :
      (n : Notification V) (ns ms : List (Notification V))
      → Waits n ns
      → All Untouched ms
      → Waits n (ns ++ ms)
  Waits-append n [] ms w u = Waits-of_Untouched n ms u
  Waits-append n (x ∷ ns) ms w u = (w.0, Waits-append n ns ms w.1 u)

  new_rows-Ordered :
      (c : Queued V) (now id : ℕ) (cs : List ℕ)
      → Ordered id (after_ids id cs) (new_rows c now id cs)
  unfolding new_rows
  new_rows-Ordered c now id [] = omega arith
  new_rows-Ordered c now id (x ∷ cs) = (
    omega arith,
    record { tries = omega arith; left = λ p. omega arith; done = λ p. absurd (p refl) },
    Waits-of_Untouched (new_row c now id x) _ (new_rows-Untouched c now (suc id) cs),
    new_rows-Ordered c now (suc id) cs,
  )

  range : (lo hi : ℕ) (ns : List (Notification V)) → Ordered lo hi ns → lo ≤ hi
  range lo hi [] o = o
  range lo hi (n ∷ ns) o = omega (arith, range (suc n.id) hi ns o.3)

  from_lower :
      (lo mid hi : ℕ) (ns : List (Notification V)) → lo ≤ mid → Ordered mid hi ns → Ordered lo hi ns
  from_lower lo mid hi [] h o = omega arith
  from_lower lo mid hi (n ∷ ns) h o = (omega arith, o.1, o.2, o.3)

  append-Ordered :
      (lo mid hi : ℕ) (ns ms : List (Notification V))
      → Ordered lo mid ns
      → Ordered mid hi ms
      → All Untouched ms
      → Ordered lo hi (ns ++ ms)
  append-Ordered lo mid hi [] ms o p u = from_lower lo mid hi ms o p
  append-Ordered lo mid hi (n ∷ ns) ms o p u =
      (o.0, o.1, Waits-append n ns ms o.2 u, append-Ordered (suc n.id) mid hi ns ms o.3 p u)

  -- Queueing notifications for any channels, also when one of them is gone, keeps the table in order:
  -- ids grow, tries are bounded, and no later notification about an alert for a channel has been tried
  -- while an earlier one is pending.
  pub queue_notifications-IsValid :
      (q : Queue V) (c : Queued V) (now : ℕ) (ids : List ℕ)
      → IsValid q
      → IsValid (queue_notifications q c now ids).1
  unfolding queue_notifications
  queue_notifications-IsValid q c now ids o = elim (Bool-cases (all (contains q.channel_ids) ids)) [
    | inl e ↦ rw e (
        append-Ordered 0 q.next_id (after_ids q.next_id ids) q.rows _ o
          (new_rows-Ordered c now q.next_id ids) (new_rows-Untouched c now q.next_id ids))
    | inr e ↦ rw e o
  ]
