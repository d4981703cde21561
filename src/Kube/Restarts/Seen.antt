-- ===== src/Kube/Restarts/Seen.antt =====
-- Which restarts are seen between two states (internal/kube/restarts.go).
use sy_mon.Base.{
  ℕ, ◌+◌, ◌≤◌, ◌<◌, ◌≤ℤ◌, ltb_ℤ, leb, pos_part, neg_part, contains, subst, ◌⊎◌, Option, none,
  String, true, false, some, List, [], ◌∷◌, ◌++◌, ◌==◌, string_eq, nat_eq, int_eq, ℤ, pos, negsuc,
  lookup, insert, All, ◌≡◌, refl, sym, ◌∙◌, ap, arith, inl, inr, Bool-cases, lookup-insert,
  lookup_inserted, Unique, any,
}
use sy_mon.Kube.Types.{PodContainer, Pod, ClusterState}
use sy_mon.Kube.Restarts.{
  Restart, container_key, note_containers, note_pods, since_before, is_positive, container_restarts,
  is_history, pod_restarts, uids, restarts,
}

-- The keys of a state's containers, with their counts.
abbrev pub keyed : String → List PodContainer → List (String × ℤ)
keyed uid [] = []
keyed uid (c ∷ cs) = (container_key uid c.name, c.restarts) ∷ keyed uid cs

abbrev pub all_keyed : List Pod → List (String × ℤ)
all_keyed [] = []
all_keyed (p ∷ ps) = keyed p.uid p.containers ++ all_keyed ps

abbrev pub entry_key : String × ℤ → String
entry_key e = e.0

-- One entry after the other.
abbrev note_all : List (String × ℤ) → List (String × ℤ) → List (String × ℤ)
note_all [] before = before
note_all ((k, n) ∷ es) before = note_all es (insert k n before)

note_all-append :
    (es fs before : List (String × ℤ))
    → note_all (es ++ fs) before ≡ note_all fs (note_all es before)
note_all-append [] fs before = refl
note_all-append ((k, n) ∷ es) fs before = note_all-append es fs (insert k n before)

note_containers-all :
    (uid : String) (cs : List PodContainer) (before : List (String × ℤ))
    → note_containers uid cs before ≡ note_all (keyed uid cs) before
note_containers-all uid [] before = refl
note_containers-all uid (c ∷ cs) before = note_containers-all uid cs _

note_pods-all :
    (ps : List Pod) (before : List (String × ℤ))
    → note_pods ps before ≡ note_all (all_keyed ps) before
note_pods-all [] before = refl
note_pods-all (p ∷ ps) before =
    note_pods-all ps (note_containers p.uid p.containers before)
    ∙ ap (note_all (all_keyed ps)) (note_containers-all p.uid p.containers before)
    ∙ sym (note_all-append (keyed p.uid p.containers) (all_keyed ps) before)

note_other :
    (k : String) (es before : List (String × ℤ))
    → any (λ e. entry_key e == k) es ≡ false
    → lookup k (note_all es before) ≡ lookup k before
note_other k [] before h = refl
note_other k ((j, n) ∷ es) before h =
    note_other k es (insert j n before) (ground arith) ∙ (lookup-insert j k n before ∙ ground arith)

noted :
    (es before : List (String × ℤ))
    → Unique entry_key es
    → All (λ e. lookup (entry_key e) (note_all es before) ≡ some e.1) es
noted [] before u = tt
noted ((k, n) ∷ es) before u = (
  note_other k es (insert k n before) u.0 ∙ lookup_inserted k n before,
  noted es (insert k n before) u.1,
)

All-split :
    (P : String × ℤ → Type 0) (es fs : List (String × ℤ)) → All P (es ++ fs) → All P es × All P fs
All-split P [] fs a = (tt, a)
All-split P (e ∷ es) fs a = let r = All-split P es fs a.1 in ((a.0, r.0), r.1)

no_change : (n : ℤ) → is_positive (since_before n (some n)) ≡ false
no_change (pos n) = ground arith
no_change (negsuc n) = ground arith

quiet_containers :
    (before : List (String × ℤ)) (p : Pod) (cs : List PodContainer)
    → All (λ e. lookup (entry_key e) before ≡ some e.1) (keyed p.uid cs)
    → container_restarts before p cs ≡ []
quiet_containers before p [] a = refl
quiet_containers before p (c ∷ cs) a =
    rw (a.0, no_change c.restarts) (quiet_containers before p cs a.1)

quiet_pods :
    (known : List String) (time : ℕ) (before : List (String × ℤ)) (ps : List Pod)
    → All (λ e. lookup (entry_key e) before ≡ some e.1) (all_keyed ps)
    → pod_restarts known time before ps ≡ []
quiet_pods known time before [] a = refl
quiet_pods known time before (p ∷ ps) a =
    let r =
      All-split (λ e. lookup (entry_key e) before ≡ some e.1) (keyed p.uid p.containers)
        (all_keyed ps) a in
    elim (Bool-cases (is_history known time p)) [
      | inl e ↦ rw e (quiet_pods known time before ps r.1)
      | inr e ↦
          rw (e, quiet_containers before p p.containers r.0) (quiet_pods known time before ps r.1)
    ]

noted_lookup :
    (k : String) (es before : List (String × ℤ))
    → Unique entry_key es
    → lookup k before ≡ none
    → lookup k (note_all es before) ≡ lookup k es
unfolding lookup
noted_lookup k [] before u h = h
noted_lookup k ((j, n) ∷ es) before u h = elim (Bool-cases (j == k)) [
  | inl e ↦
      note_other k es (insert j n before)
        (subst (λ x. any (λ e. entry_key e == x) es ≡ false) ((string_eq.beq_iff j k).0 e) u.0)
      ∙ lookup-insert j k n before
      ∙ ground (arith, e)
  | inr e ↦
      noted_lookup k es (insert j n before) u.1 (lookup-insert j k n before ∙ ground (arith, e, h))
      ∙ ground (arith, e)
]

-- How often a container with this count restarted, when the state before had that one: a count that
-- went down starts from zero.
abbrev pub Since : ℤ → Option ℤ → ℤ → Type 0
Since count none n = n ≡ count
Since count (some old) n =
    (old ≤ℤ count
      → pos_part n + pos_part old + neg_part count ≡ pos_part count + neg_part n + neg_part old)
    × (ltb_ℤ count old ≡ true → n ≡ count)

-- A container's count in a state.
abbrev pub count_in {κ} : {V : Type κ} → ClusterState V → Pod → PodContainer → Option ℤ
count_in s p c = lookup (container_key p.uid c.name) (all_keyed s.pods)

module _ {κ} {V : Type κ} (prev : ClusterState V) where
  -- The restarts of a pod's containers, in their order.
  pub data ContainersSeen (p : Pod) : List PodContainer → List Restart → Type 0 where
    no_containers : ContainersSeen p [] []
    restarted :
        {c : PodContainer} {cs : List PodContainer} {rs : List Restart} (n : ℤ)
        → Since c.restarts (count_in prev p c) n
        → pos 1 ≤ℤ n
        → ContainersSeen p cs rs
        → ContainersSeen p (c ∷ cs) (
            record {
              namespace = p.namespace;
              workload = p.workload;
              pod = p.name;
              container = c.name;
              count = n;
              reason = c.last_reason;
            }
            ∷ rs)
    steady :
        {c : PodContainer} {cs : List PodContainer} {rs : List Restart} (n : ℤ)
        → Since c.restarts (count_in prev p c) n
        → n ≤ℤ pos 0
        → ContainersSeen p cs rs
        → ContainersSeen p (c ∷ cs) rs

  -- The restarts of the pods that the state before had, or that were created after it.
  pub data PodsSeen : List Pod → List Restart → Type 0 where
    no_pods : PodsSeen [] []
    compared :
        {p : Pod} {ps : List Pod} {qs rs : List Restart}
        → any (λ (o : Pod). o.uid == p.uid) prev.pods ≡ true ⊎ (prev.time < p.created)
        → ContainersSeen p p.containers qs
        → PodsSeen ps rs
        → PodsSeen (p ∷ ps) (qs ++ rs)
    history :
        {p : Pod} {ps : List Pod} {rs : List Restart}
        → any (λ (o : Pod). o.uid == p.uid) prev.pods ≡ false
        → p.created ≤ prev.time
        → PodsSeen ps rs
        → PodsSeen (p ∷ ps) rs

  since_before-Since : (count : ℤ) (o : Option ℤ) → Since count o (since_before count o)
  since_before-Since count none = refl
  since_before-Since (pos m) (some (pos n)) = (λ h. ground (arith, h), λ h. ground (arith, h))
  since_before-Since (pos m) (some (negsuc n)) = (λ h. ground (arith, h), λ h. ground (arith, h))
  since_before-Since (negsuc m) (some (pos n)) = (λ h. ground (arith, h), λ h. ground (arith, h))
  since_before-Since (negsuc m) (some (negsuc n)) = (λ h. ground (arith, h), λ h. ground (arith, h))

  contains-uids :
      (uid : String) (ps : List Pod) → contains (uids ps) uid ≡ any (λ (o : Pod). o.uid == uid) ps
  contains-uids uid [] = refl
  contains-uids uid (p ∷ ps) = ground (arith, contains-uids uid ps)

  module _ (u : Unique entry_key (all_keyed prev.pods)) where
    before : List (String × ℤ)
    before = note_pods prev.pods []

    looked_up : (k : String) → lookup k before ≡ lookup k (all_keyed prev.pods)
    unfolding before lookup
    looked_up k =
        ap (lookup k) (note_pods-all prev.pods []) ∙ noted_lookup k (all_keyed prev.pods) [] u refl

    containers-Seen :
        (p : Pod) (cs : List PodContainer) → ContainersSeen p cs (container_restarts before p cs)
    containers-Seen p [] = no_containers
    containers-Seen p (c ∷ cs) =
        elim (Bool-cases
          (is_positive (since_before c.restarts (lookup (container_key p.uid c.name) before)))) [
            | inl e ↦ rw e (restarted _ counted (ground (arith, e)) (containers-Seen p cs))
            | inr e ↦ rw e (steady _ counted (ground (arith, e)) (containers-Seen p cs))
          ]
      where
        counted :
            Since c.restarts
              (count_in prev p c)
              (since_before c.restarts (lookup (container_key p.uid c.name) before))
        counted =
            subst
              (λ o.
                Since c.restarts o
                  (since_before c.restarts (lookup (container_key p.uid c.name) before)))
              (looked_up (container_key p.uid c.name))
              (since_before-Since c.restarts (lookup (container_key p.uid c.name) before))

    pods-Seen : (ps : List Pod) → PodsSeen ps (pod_restarts (uids prev.pods) prev.time before ps)
    pods-Seen [] = no_pods
    pods-Seen (p ∷ ps) = elim (Bool-cases (contains (uids prev.pods) p.uid)) [
      | inl e ↦ rw e (
          compared (inl (sym (contains-uids p.uid prev.pods) ∙ e)) (containers-Seen p p.containers)
            (pods-Seen ps))
      | inr e ↦ elim (Bool-cases (leb p.created prev.time)) [
        | inl f ↦
            rw (e, f)
              (history (sym (contains-uids p.uid prev.pods) ∙ e) (ground (arith, f)) (pods-Seen ps))
        | inr f ↦
            rw (e, f)
              (compared (inr (ground (arith, f))) (containers-Seen p p.containers) (pods-Seen ps))
      ]
    ]

-- When each container of both states has a key of its own in its state and the state before has a
-- time, the restarts are, in order, those of the containers whose count since that state is positive,
-- in the pods that it had or that were created after it: the difference of the counts, or the whole
-- count when it went down or the container is new. Without a time there are none, and none between a
-- state and itself.
pub restarts_lem :
    {V : Type 0} (prev next : ClusterState V)
    → Unique entry_key (all_keyed prev.pods)
    → Unique entry_key (all_keyed next.pods)
    → ((prev.time == 0) ≡ false → PodsSeen prev next.pods (restarts prev next))
      × ((prev.time == 0) ≡ true → restarts prev next ≡ [])
      × (restarts next next ≡ [])
unfolding restarts
restarts_lem prev next v u =
    (λ e. rw e (unfold before in pods-Seen prev v next.pods), λ e. rw e refl, quiet)
  where
    quiet : restarts next next ≡ []
    quiet = elim (Bool-cases (next.time == 0)) [
      | inl e ↦ rw e refl
      | inr e ↦
          rw (e, note_pods-all next.pods [])
            (quiet_pods (uids next.pods) next.time _ next.pods (noted (all_keyed next.pods) [] u))
    ]
