-- ===== src/Hosts/Laws.antt =====
-- The invariant of the hosts table, the enrollment tokens and the agents' credentials, and what the
-- statements of internal/store/hosts.go, enrollment.go and agents.go do to it.
use sy_mon.Base.{
  ℕ, suc, String, Bool, true, false, ◌&&◌, not, Option, none, some, List, [], ◌∷◌, ◌++◌, ◌==◌,
  string_eq, nat_eq, All, any, select, find, change, Unique, Keyed, ◌≡◌, refl, arith, inl, inr,
  Bool-cases, ◌∙◌, All-select, selected, All-both, All-change, All-map, All-snoc, any-snoc,
  any-change, Unique-select, Unique-snoc, Unique-change, Keyed-draw, Keyed-snoc, Keyed-change,
  Keyed-select, only_found,
}
use sy_mon.Hosts.{HostRow, TokenRow, CredentialRow, Hosts, is_called, new_host, with_host}
use sy_mon.Hosts.Enroll.{of_host, has_secret}

abbrev pub host_key : HostRow → ℕ
host_key h = h.id

abbrev pub host_name : HostRow → String
host_name h = h.name

abbrev pub token_key : TokenRow → ℕ
token_key t = t.id

abbrev pub token_hash : TokenRow → String
token_hash t = t.token_hash

abbrev pub credential_host : CredentialRow → ℕ
credential_host c = c.host_id

abbrev pub secret_hash : CredentialRow → String
secret_hash c = c.secret_hash

abbrev pub Owned : List HostRow → CredentialRow → Type 0
Owned hosts c = any (λ h. host_key h == c.host_id) hosts ≡ true

-- A version that is asked for has a URL.
abbrev pub has_url : Option String → Option String → Bool
has_url none url = true
has_url (some version) none = false
has_url (some version) (some url) = true

abbrev pub UpdateOk : HostRow → Type 0
UpdateOk h = has_url h.update_version h.update_url ≡ true

pub record CredentialsOk (hosts : List HostRow) (cs : List CredentialRow) : Type 0 where
  pub one_each : Unique credential_host cs
  pub unique_secrets : Unique secret_hash cs
  pub owned : All (Owned hosts) cs

pub record IsValid (s : Hosts) : Type 0 where
  pub hosts_keyed : Keyed host_key host_name s.next_host s.hosts
  pub updates_ok : All UpdateOk s.hosts
  pub tokens_keyed : Keyed token_key token_hash s.next_token s.tokens
  pub credentials_ok : CredentialsOk s.hosts s.credentials

-- UPDATE hosts, of other columns than the key and the name.
pub record Update (p : HostRow → Bool) (g : HostRow → HostRow) : Type 0 where
  pub same_id : (h : HostRow) → (g h).id ≡ h.id
  pub same_name : (h : HostRow) → (g h).name ≡ h.name
  pub keeps_url : (h : HostRow) → UpdateOk h → UpdateOk (g h)

owned_by :
    (hs hs' : List HostRow) (cs : List CredentialRow)
    → ((id : ℕ) → any (λ h. host_key h == id) hs ≡ true → any (λ h. host_key h == id) hs' ≡ true)
    → CredentialsOk hs cs
    → CredentialsOk hs' cs
owned_by hs hs' cs k c = record {
  one_each = c.one_each;
  unique_secrets = c.unique_secrets;
  owned = All-map (Owned hs) (Owned hs') cs (λ r. k r.host_id) c.owned;
}

pub changed-IsValid :
    (s : Hosts) (p : HostRow → Bool) (g : HostRow → HostRow)
    → Update p g
    → IsValid s
    → IsValid (record s { hosts = change p g s.hosts })
changed-IsValid s p g u v = record {
  hosts_keyed =
      Keyed-change host_key host_name s.next_host p g s.hosts u.same_id u.same_name v.hosts_keyed;
  updates_ok =
      All-change UpdateOk UpdateOk p g s.hosts (λ h o t. u.keeps_url h o) (λ h o t. o) v.updates_ok;
  tokens_keyed = v.tokens_keyed;
  credentials_ok =
      owned_by s.hosts (change p g s.hosts) s.credentials
        (λ id e. any-change p (λ h. host_key h == id) g s.hosts (λ h. rw (u.same_id h) refl) ∙ e)
        v.credentials_ok;
}

pub drawn-IsValid : (s : Hosts) → IsValid s → IsValid (record s { next_host = suc s.next_host })
drawn-IsValid s v = record {
  hosts_keyed = Keyed-draw host_key host_name s.next_host s.hosts v.hosts_keyed;
  updates_ok = v.updates_ok;
  tokens_keyed = v.tokens_keyed;
  credentials_ok = v.credentials_ok;
}

pub with_host-IsValid :
    (s : Hosts) (name timezone : String)
    → any (is_called name) s.hosts ≡ false
    → IsValid s
    → IsValid (with_host s name timezone)
with_host-IsValid s name timezone free v = record {
  hosts_keyed =
      Keyed-snoc host_key host_name s.next_host s.hosts (new_host s.next_host name timezone) refl
        free v.hosts_keyed;
  updates_ok = All-snoc UpdateOk s.hosts (new_host s.next_host name timezone) v.updates_ok refl;
  tokens_keyed = v.tokens_keyed;
  credentials_ok =
      owned_by s.hosts (with_host s name timezone).hosts s.credentials
        (λ id. any-snoc (λ h. host_key h == id) s.hosts (new_host s.next_host name timezone))
        v.credentials_ok;
}

-- Another host stays when those of a name go.
stays :
    (i j : ℕ) (name : String) (hs : List HostRow)
    → All (λ h. h.name ≡ name → h.id ≡ i) hs
    → (j == i) ≡ false
    → any (λ h. host_key h == j) hs ≡ true
    → any (λ h. host_key h == j) (select (λ h. not (is_called name h)) hs) ≡ true
stays i j name [] a n e = cc
stays i j name (h ∷ hs) a n e =
    ground (arith, a.0, stays i j name hs a.1 n, string_eq.beq_iff h.name name)

pub only_id :
    (s : Hosts) (name : String) {r : HostRow}
    → IsValid s
    → find (is_called name) s.hosts ≡ some r
    → All (λ h. h.name ≡ name → h.id ≡ r.id) s.hosts
only_id s name {r} v e =
    All-map (λ h. h.name ≡ name → h ≡ r) (λ h. h.name ≡ name → h.id ≡ r.id) s.hosts
      (λ h k n. rw (k n) refl) (only_found host_name name s.hosts v.hosts_keyed.unique_keys e)

pub delete_host-IsValid :
    (s : Hosts) (name : String) {r : HostRow}
    → find (is_called name) s.hosts ≡ some r
    → IsValid s
    → IsValid (record s {
      hosts = select (λ h. not (is_called name h)) s.hosts;
      credentials = select (λ (c : CredentialRow). not (c.host_id == r.id)) s.credentials;
    })
delete_host-IsValid s name {r} e v = record {
  hosts_keyed = Keyed-select host_key host_name s.next_host _ s.hosts v.hosts_keyed;
  updates_ok = All-select UpdateOk _ s.hosts v.updates_ok;
  tokens_keyed = v.tokens_keyed;
  credentials_ok = record {
    one_each = Unique-select credential_host _ s.credentials v.credentials_ok.one_each;
    unique_secrets = Unique-select secret_hash _ s.credentials v.credentials_ok.unique_secrets;
    owned =
        All-map (λ c. Owned s.hosts c × (not (c.host_id == r.id) ≡ true))
          (Owned (select (λ h. not (is_called name h)) s.hosts))
          (select (λ c. not (c.host_id == r.id)) s.credentials)
          (λ c o. stays r.id c.host_id name s.hosts (only_id s name v e) (ground arith) o.0)
          (All-both (Owned s.hosts) (λ c. not (c.host_id == r.id) ≡ true) _
            (All-select (Owned s.hosts) _ s.credentials v.credentials_ok.owned)
            (selected (λ c. not (c.host_id == r.id)) s.credentials));
  };
}

-- Statements on the tokens alone.
pub tokens-IsValid :
    (s : Hosts) (ts : List TokenRow) (next : ℕ)
    → Keyed token_key token_hash next ts
    → IsValid s
    → IsValid (record s { tokens = ts; next_token = next })
tokens-IsValid s ts next k v = record {
  hosts_keyed = v.hosts_keyed;
  updates_ok = v.updates_ok;
  tokens_keyed = k;
  credentials_ok = v.credentials_ok;
}

-- Setting the credential of one host, to a secret that no other host has.
abbrev pub set_secret : String → CredentialRow → CredentialRow
set_secret hash c = record c { secret_hash = hash }

abbrev pub elsewhere : ℕ → String → CredentialRow → Bool
elsewhere id hash c = has_secret hash c && not (of_host id c)

not_set :
    (id : ℕ) (hash : String) (cs : List CredentialRow)
    → any (of_host id) cs ≡ false
    → any (elsewhere id hash) cs ≡ false
    → any (has_secret hash) (change (of_host id) (set_secret hash) cs) ≡ false
not_set id hash [] e f = refl
not_set id hash (c ∷ cs) e f = ground (arith, not_set id hash cs)

still_other :
    (id : ℕ) (hash k : String) (cs : List CredentialRow)
    → any (has_secret k) cs ≡ false
    → (hash == k) ≡ false
    → any (has_secret k) (change (of_host id) (set_secret hash) cs) ≡ false
still_other id hash k [] e f = refl
still_other id hash k (c ∷ cs) e f = ground (arith, still_other id hash k cs)

set-Unique :
    (id : ℕ) (hash : String) (cs : List CredentialRow)
    → Unique credential_host cs
    → Unique secret_hash cs
    → any (elsewhere id hash) cs ≡ false
    → Unique secret_hash (change (of_host id) (set_secret hash) cs)
set-Unique id hash [] u w e = tt
set-Unique id hash (c ∷ cs) u w e = elim (Bool-cases (of_host id c)) [
  | inl t ↦ rw t (
    not_set id hash cs (ground (arith, nat_eq.beq_iff c.host_id id, u.0)) (ground arith),
    set-Unique id hash cs u.1 w.1 (ground arith),
  )
  | inr t ↦ rw t (
    still_other id hash c.secret_hash cs w.0 (
        ground (arith, string_eq.beq_iff hash c.secret_hash, string_eq.beq_iff c.secret_hash hash)),
    set-Unique id hash cs u.1 w.1 (ground arith),
  )
]

pub set_secret-CredentialsOk :
    (hs : List HostRow) (id : ℕ) (hash : String) (cs : List CredentialRow)
    → any (elsewhere id hash) cs ≡ false
    → CredentialsOk hs cs
    → CredentialsOk hs (change (of_host id) (set_secret hash) cs)
set_secret-CredentialsOk hs id hash cs e c = record {
  one_each = Unique-change credential_host (of_host id) (set_secret hash) cs (λ r. refl) c.one_each;
  unique_secrets = set-Unique id hash cs c.one_each c.unique_secrets e;
  owned =
      All-change (Owned hs) (Owned hs) (of_host id) (set_secret hash) cs (λ r o t. o) (λ r o t. o)
        c.owned;
}

none_there :
    (id : ℕ) (hash : String) (cs : List CredentialRow)
    → any (elsewhere id hash) cs ≡ false
    → any (of_host id) cs ≡ false
    → any (has_secret hash) cs ≡ false
none_there id hash [] e f = refl
none_there id hash (c ∷ cs) e f = ground (arith, none_there id hash cs)

pub add_secret-CredentialsOk :
    (hs : List HostRow) (id : ℕ) (hash : String) (cs : List CredentialRow)
    → any (elsewhere id hash) cs ≡ false
    → any (of_host id) cs ≡ false
    → any (λ h. host_key h == id) hs ≡ true
    → CredentialsOk hs cs
    → CredentialsOk hs (cs ++ record { host_id = id; secret_hash = hash } ∷ [])
add_secret-CredentialsOk hs id hash cs e f o c = record {
  one_each = Unique-snoc credential_host cs _ f c.one_each;
  unique_secrets = Unique-snoc secret_hash cs _ (none_there id hash cs e f) c.unique_secrets;
  owned = All-snoc (Owned hs) cs _ c.owned o;
}
