-- ===== src/Kube/Counts.antt =====
-- The sums of a cluster's state (`Counts` of internal/kube/types.go). A list's length is the number
-- that the loop counts.
use sy_mon.Base.{
  ℕ, ◌+◌, ◌≤◌, String, Bool, false, ◌&&◌, not, List, [], ◌∷◌, ◌==◌, string_eq, int_eq, length,
  select, length-select, pos, suc, true, ltb_ℤ, ◌≤ℤ◌, ◌↔◌, ◌≢◌, All, All-map, ap, ◌≡◌, refl, sym,
  subst, arith, inl, inr, Bool-cases,
}
use sy_mon.Kube.Types.{Node, Workload, Pod, ClusterState, missing}

pub record Counts : Type 0 where
  pub nodes : ℕ
  pub nodes_ready : ℕ
  pub pods : ℕ
  pub pods_running : ℕ
  pub pods_pending : ℕ
  pub pods_not_ready : ℕ
  pub pods_failed : ℕ
  pub workloads : ℕ
  pub workloads_ready : ℕ

abbrev pub in_phase : String → Pod → Bool
in_phase phase p = p.phase == phase

abbrev pub is_not_ready : Pod → Bool
is_not_ready p = p.phase == "Running" && not p.ready

abbrev pub is_complete : Workload → Bool
is_complete w = missing w == pos 0

-- Finished pods are not "not ready": a completed job is fine.
unfoldable pub counts {κ} : {V : Type κ} → ClusterState V → Counts
counts s = record {
  nodes = length s.nodes;
  nodes_ready = length (select (λ n. n.ready) s.nodes);
  pods = length s.pods;
  pods_running = length (select (in_phase "Running") s.pods);
  pods_pending = length (select (in_phase "Pending") s.pods);
  pods_not_ready = length (select is_not_ready s.pods);
  pods_failed = length (select (in_phase "Failed") s.pods);
  workloads = length s.workloads;
  workloads_ready = length (select is_complete s.workloads);
}

not_both : (a b phase : String) → (a == b) ≡ false → ((phase == a) && (phase == b)) ≡ false
not_both a b phase n = elim (Bool-cases (phase == a)) [
  | inl e ↦ rw e (subst (λ x. (x == b) ≡ false) (sym ((string_eq.beq_iff phase a).0 e)) n)
  | inr e ↦ rw e refl
]

-- Tests that exclude each other select at most the whole list.
apart :
    (p q r : Pod → Bool) (ps : List Pod)
    → ((x : Pod) → (p x && q x) ≡ false)
    → ((x : Pod) → (p x && r x) ≡ false)
    → ((x : Pod) → (q x && r x) ≡ false)
    → length (select p ps) + length (select q ps) + length (select r ps) ≤ length ps
apart p q r [] a b c = omega arith
apart p q r (x ∷ ps) a b c = ground (arith, apart p q r ps a b c, a x, b x, c x)

-- A test holds of all elements exactly when it selects as many as there are, and of none exactly when
-- it selects none.
all_selected {κ} :
    {A : Type κ} (p : A → Bool) (xs : List A)
    → (length (select p xs) ≡ length xs) ↔ All (λ x. p x ≡ true) xs
all_selected p [] = (λ e. tt, λ a. refl)
all_selected p (x ∷ xs) = elim (Bool-cases (p x)) [
  | inl e ↦ rw e (
    λ h. (refl, (all_selected p xs).0 (omega (arith, h))),
    λ a. ap suc ((all_selected p xs).1 a.1),
  )
  | inr e ↦
      rw e (λ h. absurd (omega (arith, h, length-select p xs)), λ a. absurd (ground (arith, a.0)))
]

none_selected {κ} :
    {A : Type κ} (p : A → Bool) (xs : List A)
    → (length (select p xs) ≡ 0) ↔ All (λ x. p x ≡ false) xs
none_selected p [] = (λ e. tt, λ a. refl)
none_selected p (x ∷ xs) = elim (Bool-cases (p x)) [
  | inl e ↦ rw e (λ h. absurd (omega (arith, h)), λ a. absurd (ground (arith, a.0)))
  | inr e ↦ rw e (λ h. (refl, (none_selected p xs).0 h), λ a. (none_selected p xs).1 a.1)
]

All-iff {κ} :
    {A : Type κ} (P Q : A → Type 0) (xs : List A) → ((x : A) → P x ↔ Q x) → All P xs ↔ All Q xs
All-iff P Q xs h = (All-map P Q xs (λ x. (h x).0), All-map Q P xs (λ x. (h x).1))

iff_trans : {P Q R : Type 0} → P ↔ Q → Q ↔ R → P ↔ R
iff_trans f g = (λ p. g.0 (f.0 p), λ r. f.1 (g.1 r))

not_in_phase : (phase : String) (p : Pod) → (in_phase phase p ≡ false) ↔ (p.phase ≢ phase)
not_in_phase phase p = (
  λ e n. ground (arith, e, (string_eq.beq_iff p.phase phase).1 n),
  λ n. elim (Bool-cases (p.phase == phase)) [
    | inl e ↦ absurd (n ((string_eq.beq_iff p.phase phase).0 e))
    | inr e ↦ e
  ],
)

-- Running pods are ready.
abbrev pub ReadyIfRunning : Pod → Type 0
ReadyIfRunning p = p.phase ≡ "Running" → p.ready ≡ true

not_not_ready : (p : Pod) → (is_not_ready p ≡ false) ↔ ReadyIfRunning p
not_not_ready p = (
  λ e n. ground (arith, e, (string_eq.beq_iff p.phase "Running").1 n),
  λ r. elim (Bool-cases (p.phase == "Running")) [
    | inl e ↦ rw (e, r ((string_eq.beq_iff p.phase "Running").0 e)) refl
    | inr e ↦ rw e refl
  ],
)

complete : (w : Workload) → (is_complete w ≡ true) ↔ (w.desired ≤ℤ w.available)
complete w = elim (Bool-cases (ltb_ℤ w.available w.desired)) [
  | inl e ↦ (λ h. ground (arith, h, e), λ h. absurd (ground (arith, h, e)))
  | inr e ↦ (λ h. ground (arith, e), λ h. ground (arith, e))
]

-- A cluster's counts and what is so when there is nothing to see to.
pub record CountsFit {V : Type 0} (s : ClusterState V) (c : Counts) : Type 0 where
  -- No pod is counted twice.
  pub once : c.pods_running + c.pods_pending + c.pods_failed ≤ c.pods
  pub nodes_fine : (c.nodes_ready ≡ c.nodes) ↔ All (λ (n : Node V). n.ready ≡ true) s.nodes
  pub workloads_fine :
      (c.workloads_ready ≡ c.workloads) ↔ All (λ w. w.desired ≤ℤ w.available) s.workloads
  pub none_pending : (c.pods_pending ≡ 0) ↔ All (λ p. p.phase ≢ "Pending") s.pods
  pub none_failed : (c.pods_failed ≡ 0) ↔ All (λ p. p.phase ≢ "Failed") s.pods
  pub none_running : (c.pods_running ≡ 0) ↔ All (λ p. p.phase ≢ "Running") s.pods
  pub pods_fine : (c.pods_not_ready ≡ 0) ↔ All ReadyIfRunning s.pods

-- As many nodes are ready as there are exactly when all are, and as many workloads exactly when each
-- has at least as many available as it wants; the counts of pending, failed and running pods are 0
-- exactly when no pod is in that phase, and that of pods not ready exactly when all running pods are
-- ready; a pod is counted at most once as running, pending or failed.
pub counts-fit : {V : Type 0} (s : ClusterState V) → CountsFit s (counts s)
unfolding counts
counts-fit {V} s = record {
  once =
      apart (in_phase "Running") (in_phase "Pending") (in_phase "Failed") s.pods
        (λ x. not_both "Running" "Pending" x.phase refl)
        (λ x. not_both "Running" "Failed" x.phase refl)
        (λ x. not_both "Pending" "Failed" x.phase refl);
  nodes_fine = all_selected (λ (n : Node V). n.ready) s.nodes;
  workloads_fine =
      iff_trans (all_selected is_complete s.workloads) (All-iff _ _ s.workloads complete);
  none_pending = none_in "Pending";
  none_failed = none_in "Failed";
  none_running = none_in "Running";
  pods_fine = iff_trans (none_selected is_not_ready s.pods) (All-iff _ _ s.pods not_not_ready);
}
  where
    none_in :
        (phase : String)
        → (length (select (in_phase phase) s.pods) ≡ 0) ↔ All (λ p. p.phase ≢ phase) s.pods
    none_in phase =
        iff_trans (none_selected (in_phase phase) s.pods) (All-iff _ _ s.pods (not_in_phase phase))
