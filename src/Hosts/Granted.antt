-- ===== src/Hosts/Granted.antt =====
-- What a caller is let through with (internal/api/auth.go).
use sy_mon.Base.{
  String, Bool, true, Option, none, some, List, [], ◌∷◌, ◌==◌, string_eq, contains, ◌≡◌, ◌⊎◌, refl,
  arith, inl, inr, Bool-cases, Result, ok, err, ◌∙◌, subst, sym,
}
use sy_mon.Hosts.{HostError, invalid, bad_token, host_exists, not_found, refused, nil_pointer}
use sy_mon.Hosts.Access.{
  Denied, permission_denied, authorize, shared_key, as_agent, agent_methods, enroll_method,
}

-- One key of that host, and a method that agents may call.
pub record ByKey (host_of : String → Result HostError String) (method : String) (keys : List String)
    (host : String) : Type 0 where
  pub key : String
  pub only_key : keys ≡ key ∷ []
  pub of_host : host_of key ≡ ok host
  pub is_agents : contains agent_methods method ≡ true

-- One valid token of the shared key, and no key of an agent.
pub record BySharedKey (valid_token : String → Bool) (jwts : Option (List String))
    (keys : List String) : Type 0 where
  pub jwt : String
  pub no_key : keys ≡ []
  pub only_jwt : jwts ≡ some (jwt ∷ [])
  pub valid : valid_token jwt ≡ true

-- Who may have been let through as whom.
abbrev pub Granted :
    (String → Result HostError String)
    → (String → Bool)
    → Option (List String)
    → String
    → List String
    → Option String
    → Type 0
Granted host_of valid_token jwts method keys (some host) = ByKey host_of method keys host
Granted host_of valid_token jwts method keys none =
    (method ≡ enroll_method) ⊎ BySharedKey valid_token jwts keys

as_agent-ok :
    (r : Result HostError String) {a : Option String}
    → as_agent r ≡ ok a
    → (host : String) × (r ≡ ok host) × (a ≡ some host)
as_agent-ok (ok host) e = (host, refl, ground arith)
as_agent-ok (err invalid) e = cc
as_agent-ok (err bad_token) e = cc
as_agent-ok (err host_exists) e = cc
as_agent-ok (err not_found) e = cc
as_agent-ok (err refused) e = cc
as_agent-ok (err nil_pointer) e = cc

shared_key-ok :
    (valid_token : String → Bool) (jwts : Option (List String)) {a : Option String}
    → shared_key valid_token jwts ≡ ok a
    → (a ≡ none) × BySharedKey valid_token jwts []
shared_key-ok valid_token none e = cc
shared_key-ok valid_token (some []) e = cc
shared_key-ok valid_token (some (jwt ∷ [])) {a} e = elim (Bool-cases (valid_token jwt)) [
  | inl t ↦ (ground arith, record { jwt = jwt; no_key = refl; only_jwt = refl; valid = t })
  | inr t ↦ absurd (ground arith)
]
shared_key-ok valid_token (some (jwt ∷ other ∷ rest)) e = cc

ok_same : (x y : Option String) (r : Result Denied (Option String)) → r ≡ ok x → r ≡ ok y → y ≡ x
ok_same x y r e f = ground arith

no_grant :
    (d : Denied) (x : Option String) (r : Result Denied (Option String)) → r ≡ err d → r ≡ ok x → ⊥
no_grant d x r e f = ground arith

module _ (host_of : String → Result HostError String) (valid_token : String → Bool)
    (jwts : Option (List String)) (method : String) where
  by_enroll :
      (keys : List String) (who : Option String)
      → (method == enroll_method) ≡ true
      → who ≡ none
      → Granted host_of valid_token jwts method keys who
  by_enroll keys who t n =
      subst (Granted host_of valid_token jwts method keys) (sym n)
        (inl ((string_eq.beq_iff method enroll_method).0 t))

  by_shared_key :
      (who : Option String)
      → shared_key valid_token jwts ≡ ok who
      → Granted host_of valid_token jwts method [] who
  by_shared_key who e =
      let k = shared_key-ok valid_token jwts e in
      subst (Granted host_of valid_token jwts method []) (sym k.0) (inr k.1)

  by_key :
      (key : String) (who : Option String)
      → contains agent_methods method ≡ true
      → as_agent (host_of key) ≡ ok who
      → Granted host_of valid_token jwts method (key ∷ []) who
  by_key key who m e =
      let k = as_agent-ok (host_of key) e in
      subst (Granted host_of valid_token jwts method (key ∷ [])) (sym k.2)
        (record { key = key; only_key = refl; of_host = k.1; is_agents = m })

  -- Whoever the interceptor lets through as a host sent one key, which is that host's, and calls a
  -- method that agents may call. Whoever it lets through as no host calls Enroll, or sent one valid
  -- token of the shared key and no key of an agent.
  pub authorize-Granted :
      (keys : List String) (who : Option String)
      → authorize host_of valid_token jwts method keys ≡ ok who
      → Granted host_of valid_token jwts method keys who
  unfolding authorize
  authorize-Granted [] who e = elim (Bool-cases (method == enroll_method)) [
    | inl t ↦ by_enroll [] who t (ok_same none who _ (rw t refl) e)
    | inr t ↦ by_shared_key who (sym (rw t refl) ∙ e)
  ]
  authorize-Granted (key ∷ []) who e = elim (Bool-cases (method == enroll_method)) [
    | inl t ↦ by_enroll (key ∷ []) who t (ok_same none who _ (rw t refl) e)
    | inr t ↦ elim (Bool-cases (contains agent_methods method)) [
      | inl m ↦ by_key key who m (sym (rw (t, m) refl) ∙ e)
      | inr m ↦ absurd (no_grant permission_denied who _ (rw (t, m) refl) e)
    ]
  ]
  authorize-Granted (key ∷ other ∷ rest) who e = elim (Bool-cases (method == enroll_method)) [
    | inl t ↦ by_enroll (key ∷ other ∷ rest) who t (ok_same none who _ (rw t refl) e)
    | inr t ↦ absurd (no_grant permission_denied who _ (rw t refl) e)
  ]
