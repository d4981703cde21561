-- ===== src/Kube/EachPodOnce.antt =====
-- The targets of a rule on pending pods (`kubeTargets` of collector/kube.go).
use sy_mon.Base.{
  ℕ, ◌+◌, String, Bool, true, false, ◌&&◌, ◌||◌, List, [], ◌∷◌, ◌++◌, map, if◌then◌else◌, ◌==◌,
  string_eq, contains, select, length, ◌≡◌, refl, arith, inl, inr, Bool-cases, All, Float64, of_int,
  ℤ, pos, ap, ◌∙◌, sym, subst, ◌⊎◌,
}
use sy_mon.Metric.{kube_pending}
use sy_mon.Rules.{AlertConfig}
use sy_mon.Kube.Types.{Workload, Pod, ClusterState, key_of, workload_key}
use sy_mon.Kube.Targets.{
  KubeTarget, in_namespace, add, add_workloads, add_pods, kube_keys, is_pending, pending_of,
  kube_targets, pending_target,
}

abbrev pub Distinct : List String → Type 0
Distinct [] = Unit
Distinct (k ∷ ks) = (contains ks k ≡ false) × Distinct ks

contains-snoc :
    (ks : List String) (k j : String) → contains (ks ++ k ∷ []) j ≡ (contains ks j || k == j)
contains-snoc [] k j = ground arith
contains-snoc (x ∷ ks) k j = ground (arith, contains-snoc ks k j)

Distinct-snoc :
    (ks : List String) (k : String) → Distinct ks → contains ks k ≡ false → Distinct (ks ++ k ∷ [])
Distinct-snoc [] k d e = (refl, tt)
Distinct-snoc (x ∷ ks) k d e = (
  ground (arith, contains-snoc ks k x, d.0, string_eq.beq_iff k x, string_eq.beq_iff x k),
  Distinct-snoc ks k d.1 (ground arith),
)

add-Distinct : (ks : List String) (k : String) → Distinct ks → Distinct (add ks k)
add-Distinct ks k d = elim (Bool-cases (contains ks k)) [
  | inl e ↦ rw e d
  | inr e ↦ rw e (Distinct-snoc ks k d e)
]

contains-add : (ks : List String) (k : String) → contains (add ks k) k ≡ true
contains-add ks k = ground (arith, contains-snoc ks k k, string_eq.beq_iff k k)

add-keeps : (ks : List String) (k j : String) → contains ks j ≡ true → contains (add ks k) j ≡ true
add-keeps ks k j e = ground (arith, contains-snoc ks k j)

workloads-Distinct :
    (rule : AlertConfig) (ks : List String) (ws : List Workload)
    → Distinct ks
    → Distinct (add_workloads rule ks ws)
workloads-Distinct rule ks [] d = d
workloads-Distinct rule ks (w ∷ ws) d = elim (Bool-cases (in_namespace rule w.namespace)) [
  | inl e ↦ rw e (workloads-Distinct rule (add ks (key_of w)) ws (add-Distinct ks (key_of w) d))
  | inr e ↦ rw e (workloads-Distinct rule ks ws d)
]

pods-Distinct :
    (rule : AlertConfig) (ks : List String) (ps : List Pod)
    → Distinct ks
    → Distinct (add_pods rule ks ps)
pods-Distinct rule ks [] d = d
pods-Distinct rule ks (p ∷ ps) d = elim (Bool-cases (in_namespace rule p.namespace)) [
  | inl e ↦
      rw e (pods-Distinct rule (add ks (workload_key p)) ps (add-Distinct ks (workload_key p) d))
  | inr e ↦ rw e (pods-Distinct rule ks ps d)
]

pods-keep :
    (rule : AlertConfig) (ks : List String) (ps : List Pod) (j : String)
    → contains ks j ≡ true
    → contains (add_pods rule ks ps) j ≡ true
pods-keep rule ks [] j e = e
pods-keep rule ks (p ∷ ps) j e = elim (Bool-cases (in_namespace rule p.namespace)) [
  | inl h ↦ rw h (pods-keep rule (add ks (workload_key p)) ps j (add-keeps ks (workload_key p) j e))
  | inr h ↦ rw h (pods-keep rule ks ps j e)
]

-- Every pod in the namespace has its key among the keys.
pods-covered :
    (rule : AlertConfig) (ps : List Pod) (ks : List String) {all : List String}
    → add_pods rule ks ps ≡ all
    → All (λ p. in_namespace rule p.namespace ≡ true → contains all (workload_key p) ≡ true) ps
pods-covered rule [] ks e = tt
pods-covered rule (p ∷ ps) ks {all} e = (
  here,
  pods-covered rule ps (if in_namespace rule p.namespace then add ks (workload_key p) else ks) e,
)
  where
    here : in_namespace rule p.namespace ≡ true → contains all (workload_key p) ≡ true
    here h =
        subst (λ l. contains l (workload_key p) ≡ true)
          (ap (λ b. add_pods rule (if b then add ks (workload_key p) else ks) ps) (sym h) ∙ e)
          (pods-keep rule (add ks (workload_key p)) ps (workload_key p)
            (contains-add ks (workload_key p)))

abbrev pub total : (String → ℕ) → List String → ℕ
total g [] = 0
total g (k ∷ ks) = g k + total g ks

abbrev pub pending_among : List String → List Pod → ℕ
pending_among ks ps = length (select (λ p. is_pending p && contains ks (workload_key p)) ps)

none_among : (ps : List Pod) → pending_among [] ps ≡ 0
none_among [] = omega arith
none_among (p ∷ ps) = ground (arith, none_among ps)

split_count :
    (a b c d : Pod → Bool) (ps : List Pod)
    → ((p : Pod) → b p ≡ true → c p ≡ false)
    → ((p : Pod) → d p ≡ (b p || c p))
    → length (select a (select b ps)) + length (select (λ p. a p && c p) ps)
      ≡ length (select (λ p. a p && d p) ps)
split_count a b c d [] x y = omega arith
split_count a b c d (p ∷ ps) x y = ground (arith, x p, y p, split_count a b c d ps x y)

==_sym : (s t : String) → (s == t) ≡ (t == s)
==_sym s t = go (Bool-cases (s == t)) (Bool-cases (t == s))
  where
    go :
        ((s == t) ≡ true) ⊎ ((s == t) ≡ false)
        → ((t == s) ≡ true) ⊎ ((t == s) ≡ false)
        → (s == t) ≡ (t == s)
    go (inl e) (inl f) = e ∙ sym f
    go (inr e) (inr f) = e ∙ sym f
    go (inl e) (inr f) =
        ap (λ u. s == u) (sym ((string_eq.beq_iff s t).0 e))
        ∙ ap (λ u. u == s) ((string_eq.beq_iff s t).0 e)
    go (inr e) (inl f) =
        ap (λ u. u == t) (sym ((string_eq.beq_iff t s).0 f))
        ∙ ap (λ u. t == u) ((string_eq.beq_iff t s).0 f)

one_more :
    (k : String) (ks : List String) (ps : List Pod)
    → contains ks k ≡ false
    → length (select is_pending (select (λ p. workload_key p == k) ps)) + pending_among ks ps
      ≡ pending_among (k ∷ ks) ps
one_more k ks ps e =
    split_count is_pending (λ p. workload_key p == k) (λ p. contains ks (workload_key p))
      (λ p. contains (k ∷ ks) (workload_key p)) ps
      (λ p h. ap (contains ks) ((string_eq.beq_iff (workload_key p) k).0 h) ∙ e)
      (λ p. ap (λ b. b || contains ks (workload_key p)) (==_sym k (workload_key p)))

total-pending :
    (ks : List String) (ps : List Pod)
    → Distinct ks
    → total (λ k. length (pending_of k ps)) ks ≡ pending_among ks ps
unfolding pending_of
total-pending [] ps d = omega (arith, none_among ps)
total-pending (k ∷ ks) ps d = omega (arith, total-pending ks ps d.1, one_more k ks ps d.0)

-- The targets of a pending rule, by key.
abbrev pub target_names : {V : Type 0} → List (KubeTarget V) → List String
target_names [] = []
target_names (t ∷ ts) = t.target ∷ target_names ts

abbrev all_keys {κ} : {V : Type κ} → AlertConfig → ClusterState V → List String
all_keys rule state = add_pods rule (add_workloads rule [] state.workloads) state.pods

names-pending :
    (V : Type 0) ⦃f : Float64 V⦄ (ps : List Pod) (ks : List String)
    → target_names {V = V} (map (pending_target ps) ks) ≡ ks
names-pending V ps [] = refl
names-pending V ps (k ∷ ks) = ap (◌∷◌ k) (names-pending V ps ks)

values-pending :
    (V : Type 0) ⦃f : Float64 V⦄ (ps : List Pod) (ks : List String)
    → All
        (λ (t : KubeTarget V). t.value ≡ of_int ⦃f = f⦄ (pos (length (pending_of t.target ps))))
        (map (pending_target ps) ks)
values-pending V ps [] = tt
values-pending V ps (k ∷ ks) = (refl, values-pending V ps ks)

module _ {V : Type 0} ⦃f : Float64 V⦄ where
  pending_targets :
      (rule : AlertConfig) (state : ClusterState V) (restarts : List (String × ℤ))
      → rule.metric_name ≡ kube_pending
      → kube_targets {V = V} rule state restarts
        ≡ map (pending_target state.pods) (all_keys rule state)
  unfolding kube_targets kube_keys
  pending_targets rule state restarts e = rw e refl

  -- For a rule on pending pods, the targets all differ, the value of each is the number of pending
  -- pods with its key, every pod in the rule's namespace has a target of its key, and these values
  -- add up to the number of pending pods whose key is among the targets: each is counted once.
  pub kube_targets-pending :
      (rule : AlertConfig) (state : ClusterState V) (restarts : List (String × ℤ))
      {ts : List (KubeTarget V)}
      → rule.metric_name ≡ kube_pending
      → kube_targets rule state restarts ≡ ts
      → Distinct (target_names ts)
        × All
            (λ (t : KubeTarget V).
              t.value ≡ of_int ⦃f = f⦄ (pos (length (pending_of t.target state.pods))))
            ts
        × All
            (λ p.
              in_namespace rule p.namespace ≡ true
              → contains (target_names ts) (workload_key p) ≡ true)
            state.pods
        × (total (λ k. length (pending_of k state.pods)) (target_names ts)
            ≡ pending_among (target_names ts) state.pods)
  kube_targets-pending rule state restarts m e =
      rw
        (
          sym e,
          pending_targets rule state restarts m,
          names-pending V state.pods (all_keys rule state),
        )
        (
          distinct,
          values-pending V state.pods (all_keys rule state),
          pods-covered rule state.pods (add_workloads rule [] state.workloads) refl,
          total-pending (all_keys rule state) state.pods distinct,
        )
    where
      distinct : Distinct (all_keys rule state)
      distinct = pods-Distinct rule _ state.pods (workloads-Distinct rule [] state.workloads tt)
