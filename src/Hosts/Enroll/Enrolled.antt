-- ===== src/Hosts/Enroll/Enrolled.antt =====
-- What enrolling a host gives (`Enroll` and `HostForCredential` of internal/store/enrollment.go).
use sy_mon.Base.{
  ◌&&◌, not, Result, inl, inr, Bool-cases, false, err, succeeds_with, ℕ, String, true, false,
  Option, none, some, List, [], ◌∷◌, ◌++◌, ◌==◌, string_eq, nat_eq, any, find, change, All, ◌≡◌,
  refl, sym, ap, arith, inl, inr, Bool-cases, ◌∙◌, ok, found, find-any, any-last, All-snoc,
}
use sy_mon.Hosts.{HostError, HostRow, CredentialRow, Hosts}
use sy_mon.Hosts.Enroll.{of_host, has_secret, name_of, host_of, host_for_credential}
use sy_mon.Hosts.Laws.{elsewhere, set_secret}

-- The host of that name has that number.
pub record Placed (hs : List HostRow) (id : ℕ) (host : String) : Type 0 where
  pub only : All (λ (h : HostRow). h.name ≡ host → h.id ≡ id) hs
  pub row : HostRow
  pub row_found : find (λ (h : HostRow). h.id == id) hs ≡ some row
  pub row_name : row.name ≡ host

-- The credentials of the host with that number have that hash, and no others do.
pub record Held (cs : List CredentialRow) (id : ℕ) (hash : String) : Type 0 where
  pub only_hash : All (λ (c : CredentialRow). c.host_id ≡ id → c.secret_hash ≡ hash) cs
  pub only_host : All (λ (c : CredentialRow). c.secret_hash ≡ hash → c.host_id ≡ id) cs
  pub there : any (has_secret hash) cs ≡ true

-- The new secret is the host's, and no other is.
pub record NewKey (sum256 : String → String) (secret host : String) (s : Hosts) : Type 0 where
  pub own : host_for_credential sum256 s secret ≡ ok host
  pub replaced :
      (other : String)
      → (succeeds_with (λ name. name == host) (host_for_credential sum256 s other)
          && not (sum256 other == sum256 secret))
        ≡ false

void :
    (host x y : String) (r : Result HostError String)
    → (r ≡ ok host → x ≡ y)
    → (succeeds_with (λ name. name == host) r && not (x == y)) ≡ false
void host x y (err e) h = refl
void host x y (ok name) h = elim (Bool-cases (name == host)) [
  | inl e ↦ rw (e, (string_eq.beq_iff x y).1 (h (ap ok ((string_eq.beq_iff name host).0 e)))) refl
  | inr e ↦ rw e refl
]

pub Placed-NewKey :
    (sum256 : String → String) (s : Hosts) (id : ℕ) (secret host : String)
    → Placed s.hosts id host
    → Held s.credentials id (sum256 secret)
    → NewKey sum256 secret host s
unfolding host_for_credential
Placed-NewKey sum256 s id secret host p k = record {
  own = own';
  replaced = λ other.
      void host (sum256 other) (sum256 secret) _
        (λ e. go other (find (has_secret (sum256 other)) s.credentials) refl e);
}
  where
    hit : (c : CredentialRow) × (find (has_secret (sum256 secret)) s.credentials ≡ some c)
    hit = find-any (has_secret (sum256 secret)) s.credentials k.there

    hit_id : hit.0.host_id ≡ id
    hit_id =
        let c =
          found (λ (c : CredentialRow). c.secret_hash ≡ sum256 secret → c.host_id ≡ id) _
            s.credentials hit.1 k.only_host in
        c.0 ((string_eq.beq_iff hit.0.secret_hash (sum256 secret)).0 c.1)

    own' : host_of s (find (has_secret (sum256 secret)) s.credentials) ≡ ok host
    own' = rw (hit.1, hit_id, p.row_found) (ap ok p.row_name)

    join :
        (other : String) (c : CredentialRow) (o : Option HostRow)
        → find (has_secret (sum256 other)) s.credentials ≡ some c
        → find (λ (h : HostRow). h.id == c.host_id) s.hosts ≡ o
        → name_of o ≡ ok host
        → sum256 other ≡ sum256 secret
    join other c none f g e = cc
    join other c (some h) f g e =
        let owner = found (λ (h : HostRow). h.name ≡ host → h.id ≡ id) _ s.hosts g p.only in
        let held =
          found (λ (c : CredentialRow). c.host_id ≡ id → c.secret_hash ≡ sum256 secret) _
            s.credentials f k.only_hash in
        sym ((string_eq.beq_iff c.secret_hash (sum256 other)).0 held.1)
        ∙ held.0 (sym ((nat_eq.beq_iff h.id c.host_id).0 owner.1) ∙ owner.0 (named h e))
      where
        named : (h : HostRow) → name_of (some h) ≡ ok host → h.name ≡ host
        named h e = ground arith

    go :
        (other : String) (o : Option CredentialRow)
        → find (has_secret (sum256 other)) s.credentials ≡ o
        → host_of s o ≡ ok host
        → sum256 other ≡ sum256 secret
    go other none f e = cc
    go other (some c) f e =
        join other c (find (λ (h : HostRow). h.id == c.host_id) s.hosts) f refl e

pub set-Held :
    (id : ℕ) (hash : String) (cs : List CredentialRow)
    → any (elsewhere id hash) cs ≡ false
    → any (of_host id) cs ≡ true
    → Held (change (of_host id) (set_secret hash) cs) id hash
set-Held id hash cs e f = record {
  only_hash = mine cs;
  only_host = theirs cs e;
  there = some_there cs f;
}
  where
    mine :
        (cs : List CredentialRow)
        → All
            (λ (c : CredentialRow). c.host_id ≡ id → c.secret_hash ≡ hash)
            (change (of_host id) (set_secret hash) cs)
    mine [] = tt
    mine (c ∷ cs) = elim (Bool-cases (of_host id c)) [
      | inl t ↦ rw t ((λ h. refl), mine cs)
      | inr t ↦ rw t ((λ h. ground (arith, nat_eq.beq_iff c.host_id id)), mine cs)
    ]

    theirs :
        (cs : List CredentialRow)
        → any (elsewhere id hash) cs ≡ false
        → All
            (λ (c : CredentialRow). c.secret_hash ≡ hash → c.host_id ≡ id)
            (change (of_host id) (set_secret hash) cs)
    theirs [] e = tt
    theirs (c ∷ cs) e = elim (Bool-cases (of_host id c)) [
      | inl t ↦ rw t ((λ h. (nat_eq.beq_iff c.host_id id).0 t), theirs cs (ground arith))
      | inr t ↦
          rw t
            ((λ h. ground (arith, string_eq.beq_iff c.secret_hash hash)), theirs cs (ground arith))
    ]

    some_there :
        (cs : List CredentialRow)
        → any (of_host id) cs ≡ true
        → any (has_secret hash) (change (of_host id) (set_secret hash) cs) ≡ true
    some_there [] f = cc
    some_there (c ∷ cs) f = ground (arith, some_there cs, string_eq.beq_iff hash hash)

pub add-Held :
    (id : ℕ) (hash : String) (cs : List CredentialRow)
    → any (elsewhere id hash) cs ≡ false
    → any (of_host id) cs ≡ false
    → Held (cs ++ record { host_id = id; secret_hash = hash } ∷ []) id hash
add-Held id hash cs e f = record {
  only_hash = All-snoc _ cs _ (none_of cs f) (λ h. refl);
  only_host = All-snoc _ cs _ (none_has cs e f) (λ h. refl);
  there = any-last (has_secret hash) cs _ ((string_eq.beq_iff hash hash).1 refl);
}
  where
    none_of :
        (cs : List CredentialRow)
        → any (of_host id) cs ≡ false
        → All (λ (c : CredentialRow). c.host_id ≡ id → c.secret_hash ≡ hash) cs
    none_of [] f = tt
    none_of (c ∷ cs) f =
        ((λ h. ground (arith, nat_eq.beq_iff c.host_id id)), none_of cs (ground arith))

    none_has :
        (cs : List CredentialRow)
        → any (elsewhere id hash) cs ≡ false
        → any (of_host id) cs ≡ false
        → All (λ (c : CredentialRow). c.secret_hash ≡ hash → c.host_id ≡ id) cs
    none_has [] e f = tt
    none_has (c ∷ cs) e f = (
      (λ h. ground (arith, string_eq.beq_iff c.secret_hash hash)),
      none_has cs (ground arith) (ground arith),
    )
