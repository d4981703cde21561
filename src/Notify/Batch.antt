-- ===== src/Notify/Batch.antt =====
-- The order of the notifications table and the batches of what is due (collector/notify.go).
use sy_mon.Base.{
  ℕ, suc, ◌≤◌, ◌<◌, Bool, true, false, List, [], ◌∷◌, nat_eq, All, any, select, take, ◌≡◌, ◌≢◌,
  refl, arith, inl, inr, Bool-cases, ◌∙◌,
}
use sy_mon.Notify.Queue.{Notification, Queue, pending, blocks, is_due, due_notifications}
use sy_mon.Notify.Deliver.{World, deliver_batch, deliver_step, deliver_all, deliver_due}
use sy_mon.Notify.Order.{same_key, TriesOk, Ordered, IsValid}
use sy_mon.Notify.InOrder.{Ready, is_pending-eq, above, change-Ordered, change-Ready}
use sy_mon.Notify.Marks.{Written, record_outcome-Written}

module _ {V : Type 0} where
  All-map :
      {P Q : Notification V → Type 0}
      → ((n : Notification V) → P n → Q n)
      → (ns : List (Notification V)) → All P ns
      → All Q ns
  All-map f [] a = tt
  All-map f (n ∷ ns) a = (f n a.0, All-map f ns a.1)

  All-select :
      (P : Notification V → Type 0) (t : Notification V → Bool) (ns : List (Notification V))
      → All P ns
      → All (λ n. P n × (t n ≡ true)) (select t ns)
  All-select P t [] a = tt
  All-select P t (n ∷ ns) a = elim (Bool-cases (t n)) [
    | inl e ↦ rw e ((a.0, e), All-select P t ns a.1)
    | inr e ↦ rw e (All-select P t ns a.1)
  ]

  All-take :
      (P : Notification V → Type 0) (k : ℕ) (ns : List (Notification V))
      → All P ns
      → All P (take k ns)
  All-take P ℕ.zero ns a = tt
  All-take P (suc k) [] a = tt
  All-take P (suc k) (n ∷ ns) a = (a.0, All-take P k ns a.1)

  -- Ids grow along a list.
  abbrev Growing : List (Notification V) → Type 0
  Growing [] = Unit
  Growing (n ∷ ns) = All (λ x. suc n.id ≤ x.id) ns × Growing ns

  Growing-select :
      (t : Notification V → Bool) (ns : List (Notification V)) → Growing ns → Growing (select t ns)
  Growing-select t [] a = tt
  Growing-select t (n ∷ ns) a = elim (Bool-cases (t n)) [
    | inl e ↦
        rw e (All-map (λ x p. p.0) (select t ns) (All-select _ t ns a.0), Growing-select t ns a.1)
    | inr e ↦ rw e (Growing-select t ns a.1)
  ]

  Growing-take : (k : ℕ) (ns : List (Notification V)) → Growing ns → Growing (take k ns)
  Growing-take ℕ.zero ns a = tt
  Growing-take (suc k) [] a = tt
  Growing-take (suc k) (n ∷ ns) a = (All-take _ k ns a.0, Growing-take k ns a.1)

  Ordered-Growing : (lo hi : ℕ) (ns : List (Notification V)) → Ordered lo hi ns → Growing ns
  Ordered-Growing lo hi [] o = tt
  Ordered-Growing lo hi (n ∷ ns) o =
      (above (suc n.id) hi ns o.3, Ordered-Growing (suc n.id) hi ns o.3)

  abbrev Agrees : Notification V → List (Notification V) → Type 0
  Agrees n =
      All
        λ x. x.id ≡ n.id → (x.attempts ≡ n.attempts) × (x.status ≡ n.status) × (same_key n x ≡ true)

  -- The row with an id is the only one.
  agrees : (ns : List (Notification V)) → Growing ns → All (λ n. Agrees n ns) ns
  agrees [] g = tt
  agrees (n ∷ ns) g = (
    (own, All-map (λ x h e. absurd (omega (arith, h, e))) ns (g.0)),
    extend ns (g.0) (agrees ns g.1),
  )
    where
      own : n.id ≡ n.id → (n.attempts ≡ n.attempts) × (n.status ≡ n.status) × (same_key n n ≡ true)
      own e = (refl, refl, ground arith)

      extend :
          (ms : List (Notification V))
          → All (λ x. suc n.id ≤ x.id) ms
          → All (λ m. Agrees m ns) ms
          → All (λ m. Agrees m (n ∷ ns)) ms
      extend [] a b = tt
      extend (m ∷ ms) a b = (((λ e. absurd (omega (arith, a.0, e))), b.0), extend ms a.1 b.1)

  not_blocked :
      (n : Notification V) (rows : List (Notification V))
      → any (blocks n) rows ≡ false
      → All (λ x. x.id < n.id → same_key n x ≡ true → x.status ≢ pending) rows
  not_blocked n [] e = tt
  not_blocked n (x ∷ xs) e = (here, not_blocked n xs (ground arith))
    where
      here : x.id < n.id → same_key n x ≡ true → x.status ≢ pending
      here h s p = ground (arith, p)

  ready :
      (rows : List (Notification V)) (now : ℕ) (n : Notification V)
      → Agrees n rows
      → is_due rows now n ≡ true
      → Ready n rows
  unfolding is_due
  ready rows now n a d = both rows a (not_blocked n rows (ground arith))
    where
      both :
          (xs : List (Notification V))
          → Agrees n xs
          → All (λ x. x.id < n.id → same_key n x ≡ true → x.status ≢ pending) xs
          → Ready n xs
      both [] a b = tt
      both (x ∷ xs) a b = (
        ((λ e. ((a.0 e).0, (a.0 e).1 ∙ is_pending-eq n.status (ground arith), (a.0 e).2)), b.0),
        both xs a.1 b.1,
      )

  due-Ready :
      (q : Queue V) (now limit : ℕ)
      → IsValid q
      → All (λ n. Ready n q.rows × (n.attempts ≤ 5)) (due_notifications q now limit)
  unfolding due_notifications is_due
  due-Ready q now limit o = All-take _ limit _ (
      All-map (λ n p. (ready q.rows now n p.0.0 p.1, p.0.1.left (due_pending n p.1))) _
        (All-select _ (is_due q.rows now) q.rows
          (both 0 q.rows o (agrees q.rows (Ordered-Growing 0 q.next_id q.rows o)))))
    where
      due_pending : (n : Notification V) → is_due q.rows now n ≡ true → n.status ≡ pending
      due_pending n d = is_pending-eq n.status (ground arith)

      both :
          (lo : ℕ) (xs : List (Notification V))
          → Ordered lo q.next_id xs
          → All (λ n. Agrees n q.rows) xs
          → All (λ n. Agrees n q.rows × TriesOk n) xs
      both lo [] o a = tt
      both lo (x ∷ xs) o a = ((a.0, o.1), both (suc x.id) xs o.3 a.1)

  -- A step on a ready notification keeps the table in order and the later ones ready.
  step-Ordered :
      (w : World V) (listed : List (Notification V)) (q : Queue V) (n : Notification V)
      → IsValid q
      → Ready n q.rows
      → n.attempts ≤ 5
      → IsValid (deliver_step w listed q n)
        × ((l : Notification V)
            → n.id ≢ l.id
            → Ready l q.rows
            → Ready l (deliver_step w listed q n).rows)
  unfolding deliver_step
  step-Ordered w listed q n o r k = elim (Bool-cases (w.marks n.id)) [
    | inl e ↦ rw e (marked (record_outcome-Written q n (w.clock n.id) _ _))
    | inr e ↦ rw e (o, λ l d p. p)
  ]
    where
      marked :
          {r' : Queue V}
          → Written n q r'
          → IsValid r' × ((l : Notification V) → n.id ≢ l.id → Ready l q.rows → Ready l r'.rows)
      marked (g, m, e) =
          rw e (
            change-Ordered g n 0 q.next_id q.rows m k r o,
            λ l d p. change-Ready g n l q.rows m d p,
          )

  deliver_all-IsValid :
      (w : World V) (listed : List (Notification V)) (q : Queue V) (ns : List (Notification V))
      → IsValid q
      → Growing ns
      → All (λ n. Ready n q.rows × (n.attempts ≤ 5)) ns
      → IsValid (deliver_all w listed q ns)
  unfolding deliver_all
  deliver_all-IsValid w listed q [] o g r = o
  deliver_all-IsValid w listed q (n ∷ ns) o g r =
      deliver_all-IsValid w listed (deliver_step w listed q n) ns s.0 g.1 (later ns g.0 r.1)
    where
      s :
          IsValid (deliver_step w listed q n)
          × ((l : Notification V)
              → n.id ≢ l.id
              → Ready l q.rows
              → Ready l (deliver_step w listed q n).rows)
      s = step-Ordered w listed q n o r.0.0 r.0.1

      later :
          (ms : List (Notification V))
          → All (λ x. suc n.id ≤ x.id) ms
          → All (λ n. Ready n q.rows × (n.attempts ≤ 5)) ms
          → All (λ l. Ready l (deliver_step w listed q n).rows × (l.attempts ≤ 5)) ms
      later [] a b = tt
      later (m ∷ ms) a b = ((s.1 m (λ e. omega (arith, e, a.0)) b.0.0, b.0.1), later ms a.1 b.1)

  -- Delivering the notifications that are due, whatever the channels answer and whether or not the
  -- store takes a mark, keeps the table in order: ids grow, no notification is tried more than six
  -- times, one that is pending has been tried at most five times, and while one is pending no later
  -- one about the same alert for the same channel has been tried.
  pub deliver_due-IsValid :
      (w : World V) (q : Queue V) (now : ℕ) → IsValid q → IsValid (deliver_due w q now)
  unfolding deliver_due due_notifications
  deliver_due-IsValid w q now o =
      deliver_all-IsValid w q.rows q (due_notifications q now deliver_batch) o
        (Growing-take deliver_batch _
          (Growing-select (is_due q.rows now) q.rows (Ordered-Growing 0 q.next_id q.rows o)))
        (due-Ready q now deliver_batch o)
