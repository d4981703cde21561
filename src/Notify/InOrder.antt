-- ===== src/Notify/InOrder.antt =====
-- The order of the notifications table and a mark on one of its rows
-- (internal/store/notifications.go).
use sy_mon.Base.{
  ℕ, suc, ◌≤◌, ◌<◌, true, List, [], ◌∷◌, ◌==◌, nat_eq, All, ◌≡◌, ◌≢◌, refl, arith, inl, inr,
  Bool-cases, sym, subst,
}
use sy_mon.Notify.Queue.{Notification, Delivery, pending, sent, failed, is_pending, change}
use sy_mon.Notify.Order.{same_key, TriesOk, Waits, Ordered}

pub is_pending-eq : (d : Delivery) → is_pending d ≡ true → d ≡ pending
is_pending-eq pending e = refl
is_pending-eq sent e = cc
is_pending-eq failed e = cc

module _ {V : Type 0} where
  -- What a mark does to the row of a pending notification that has been tried `k` times before.
  pub record Mark (k : ℕ) (g : Notification V → Notification V) : Type 0 where
    pub same_id : (n : Notification V) → (g n).id ≡ n.id
    pub same_alert : (n : Notification V) → (g n).alert_id ≡ n.alert_id
    pub same_channel : (n : Notification V) → (g n).channel_id ≡ n.channel_id
    pub never_reopens : (n : Notification V) → (g n).status ≡ pending → n.status ≡ pending
    pub tries_ok : (n : Notification V) → n.attempts ≡ k → k ≤ 5 → TriesOk (g n)

  -- The row of `n` is as it was listed, and no earlier one blocks it.
  abbrev pub Ready : Notification V → List (Notification V) → Type 0
  Ready n = All λ x.
      (x.id ≡ n.id → (x.attempts ≡ n.attempts) × (x.status ≡ pending) × (same_key n x ≡ true))
      × (x.id < n.id → same_key n x ≡ true → x.status ≢ pending)

  pub above : (lo hi : ℕ) (ns : List (Notification V)) → Ordered lo hi ns → All (λ x. lo ≤ x.id) ns
  above lo hi [] o = tt
  above lo hi (n ∷ ns) o =
      (o.0, raise (suc n.id) ns (omega (arith, o.0)) (above (suc n.id) hi ns o.3))
    where
      raise :
          (m : ℕ) (xs : List (Notification V))
          → lo ≤ m
          → All (λ x. m ≤ x.id) xs
          → All (λ x. lo ≤ x.id) xs
      raise m [] h a = tt
      raise m (x ∷ xs) h a = (omega (arith, h, a.0), raise m xs h a.1)

  change_above :
      (id : ℕ) (g : Notification V → Notification V) (ns : List (Notification V))
      → All (λ x. suc id ≤ x.id) ns
      → change id g ns ≡ ns
  change_above id g [] a = refl
  change_above id g (n ∷ ns) a = ground (arith, change_above id g ns a.1, a.0)

  same_key-eq :
      (n x y : Notification V) → same_key x y ≡ true → same_key n y ≡ true → same_key n x ≡ true
  same_key-eq n x y e f = ground arith

  marked-Waits :
      (k : ℕ) (g : Notification V → Notification V) (x : Notification V)
      (ns : List (Notification V))
      → Mark k g
      → Waits x ns
      → Waits (g x) ns
  marked-Waits k g x [] m w = tt
  marked-Waits k g x (y ∷ ns) m w =
      ((λ p e. w.0 (m.never_reopens x p) (rekey e)), marked-Waits k g x ns m w.1)
    where
      rekey : same_key (g x) y ≡ true → same_key x y ≡ true
      rekey e = ground (arith, m.same_alert x, m.same_channel x)

  Waits-change :
      (g : Notification V → Notification V) (n x : Notification V) (ns : List (Notification V))
      → Mark n.attempts g
      → Ready n ns
      → (x.id < n.id → same_key n x ≡ true → x.status ≢ pending)
      → All (λ y. suc x.id ≤ y.id) ns
      → Waits x ns
      → Waits x (change n.id g ns)
  Waits-change g n x [] m r f a w = tt
  Waits-change g n x (y ∷ ns) m r f a w = elim (Bool-cases (y.id == n.id)) [
    | inl e ↦ rw e ((λ p s. absurd (clash e p s)), Waits-change g n x ns m r.1 f a.1 w.1)
    | inr e ↦ rw e (w.0, Waits-change g n x ns m r.1 f a.1 w.1)
  ]
    where
      clash : (y.id == n.id) ≡ true → x.status ≡ pending → same_key x (g y) ≡ true → ⊥
      clash e p s = f (ground (arith, a.0)) (same_key-eq n x y (rekey s) (r.0.0 (ground arith)).2) p
        where
          rekey : same_key x (g y) ≡ true → same_key x y ≡ true
          rekey e = ground (arith, m.same_alert y, m.same_channel y)

  pub change-Ordered :
      (g : Notification V → Notification V) (n : Notification V) (lo hi : ℕ)
      (ns : List (Notification V))
      → Mark n.attempts g
      → n.attempts ≤ 5
      → Ready n ns
      → Ordered lo hi ns
      → Ordered lo hi (change n.id g ns)
  change-Ordered g n lo hi [] m k r o = o
  change-Ordered g n lo hi (x ∷ ns) m k r o = elim (Bool-cases (x.id == n.id)) [
    | inl e ↦ rw e (
      subst (λ i. lo ≤ i) (sym (m.same_id x)) (o.0),
      m.tries_ok x (r.0.0 (ground arith)).0 k,
      subst (λ l. Waits (g x) l) (sym (rest e)) (marked-Waits n.attempts g x ns m o.2),
      subst (λ l. Ordered (suc (g x).id) hi l) (sym (rest e))
          (subst (λ i. Ordered (suc i) hi ns) (sym (m.same_id x)) (o.3)),
    )
    | inr e ↦ rw e (
      o.0,
      o.1,
      Waits-change g n x ns m r.1 r.0.1 (above (suc x.id) hi ns o.3) o.2,
      change-Ordered g n (suc x.id) hi ns m k r.1 o.3,
    )
  ]
    where
      rest : (x.id == n.id) ≡ true → change n.id g ns ≡ ns
      rest e =
          change_above n.id g ns
            (subst (λ i. All (λ y. suc i ≤ y.id) ns) (ground arith) (above (suc x.id) hi ns o.3))

  -- A mark of another row leaves a notification ready.
  pub change-Ready :
      (g : Notification V → Notification V) (n l : Notification V) (ns : List (Notification V))
      → Mark n.attempts g
      → n.id ≢ l.id
      → Ready l ns
      → Ready l (change n.id g ns)
  change-Ready g n l [] m d r = tt
  change-Ready g n l (x ∷ ns) m d r = elim (Bool-cases (x.id == n.id)) [
    | inl e ↦ rw e (((λ i. absurd (d (other e i))), earlier), change-Ready g n l ns m d r.1)
    | inr e ↦ rw e (r.0, change-Ready g n l ns m d r.1)
  ]
    where
      other : (x.id == n.id) ≡ true → (g x).id ≡ l.id → n.id ≡ l.id
      other e i = ground (arith, m.same_id x)

      earlier : (g x).id < l.id → same_key l (g x) ≡ true → (g x).status ≢ pending
      earlier i s p = r.0.1 (omega (arith, i, m.same_id x)) (rekey s) (m.never_reopens x p)
        where
          rekey : same_key l (g x) ≡ true → same_key l x ≡ true
          rekey s = ground (arith, m.same_alert x, m.same_channel x)
