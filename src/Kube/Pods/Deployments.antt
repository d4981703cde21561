-- ===== src/Kube/Pods/Deployments.antt =====
-- The pods of a deployment (`podWorkload` of internal/kube/objects.go).
use Prim.Native.String.{◌++◌ as append}
use text.Mathlib.TextLemmas.{nil-append, cons-append}
use sy_mon.Base.{
  String, Char, false, some, ◌==◌, string_eq, find, is_empty, ◌≡◌, refl, ap, arith, inl, inr,
  Bool-cases,
}
use sy_mon.Stored.{chars, chars-append}
use sy_mon.Kube.Objects.{OwnerReference, ObjectMeta, cut_suffix, value_of}
use sy_mon.Kube.Pods.{pod_workload}

-- A text is no proper ending of itself.
no_loop : (c : Char) (s t : String) → (String.◌∷◌ c (append s t) == t) ≡ false
unfolding chars
no_loop c s t = elim (Bool-cases (String.◌∷◌ c (append s t) == t)) [
  | inl e ↦ absurd (
      omega
        (arith, chars-append s t, ap chars ((string_eq.beq_iff (String.◌∷◌ c (append s t)) t).0 e)))
  | inr e ↦ e
]

whole_suffix : (t : String) → cut_suffix t t ≡ some ""
unfolding cut_suffix
whole_suffix String.[] = refl
whole_suffix (String.◌∷◌ c t) =
    rw ((string_eq.beq_iff (String.◌∷◌ c t) (String.◌∷◌ c t)).1 refl) refl

cut_append : (s t : String) → cut_suffix (append s t) t ≡ some s
unfolding cut_suffix
cut_append String.[] t = rw (nil-append t) (whole_suffix t)
cut_append (String.◌∷◌ c s) t = rw (cons-append c s t, no_loop c s t, cut_append s t) refl

-- A pod that a ReplicaSet controls, whose name is a deployment's and the pod's template hash joined by
-- a dash, belongs to that deployment.
pub pod_workload-deployment :
    (to_lower : String → String) (meta : ObjectMeta) (owner : OwnerReference) (deployment : String)
    → find (λ (o : OwnerReference). o.controller) meta.owner_references ≡ some owner
    → owner.kind ≡ "ReplicaSet"
    → is_empty (value_of "pod-template-hash" meta.labels) ≡ false
    → owner.name ≡ append deployment (append "-" (value_of "pod-template-hash" meta.labels))
    → pod_workload to_lower meta ≡ append "deployment/" deployment
unfolding pod_workload
pod_workload-deployment to_lower meta owner deployment f k h n =
    rw (f, k, h, n, cut_append deployment (append "-" (value_of "pod-template-hash" meta.labels)))
      refl
