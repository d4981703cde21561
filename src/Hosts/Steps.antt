-- ===== src/Hosts/Steps.antt =====
-- What agents, admins and the collector can do to hosts, tokens and credentials, one call at a time,
-- and the tables that this leads to (internal/store/hosts.go, enrollment.go and agents.go).
use sy_mon.Base.{
  ℕ, suc, String, Bool, true, false, ◌||◌, not, Option, none, some, List, [], ◌==◌, string_eq,
  nat_eq, any, find, ◌≡◌, refl, arith, inl, inr, Bool-cases, ℤ, pos, negsuc, if◌then◌else◌, ltb,
  Keyed-draw, Keyed-snoc, Keyed-change, Keyed-select, none_found, found-any, any-last, any-change,
  is_empty, ◌∙◌,
}
use sy_mon.Hosts.{
  HostRow, TokenRow, CredentialRow, Hosts, is_called, with_host, add_host, delete_host, remove_host,
  heard, heartbeat,
}
use sy_mon.Hosts.Enroll.{
  insert_token, create_enrollment_token, fits_host, is_usable, upsert_host, finish_enroll,
  use_token, use_once, enroll, of_host, purge_enrollment_tokens, is_spent, bound_name, max_uses,
}
use sy_mon.Hosts.Agents.{
  agent_check_in, checked_in, request_agent_update, is_asked, asked, is_version,
}
use sy_mon.Hosts.Laws.{
  IsValid, Update, CredentialsOk, host_key, token_key, token_hash, has_url, changed-IsValid,
  drawn-IsValid, with_host-IsValid, delete_host-IsValid, tokens-IsValid, elsewhere,
  set_secret-CredentialsOk, add_secret-CredentialsOk,
}

pub data Step (sum256 : String → String) (s : Hosts) : Hosts → Type 0 where
  created :
      (host : String) (uses ttl : ℤ) (token : String) (now : ℕ)
      → Step sum256 s (create_enrollment_token sum256 s host uses ttl token now).1
  enrolled :
      (token host timezone secret : String) (now : ℕ)
      → Step sum256 s (enroll sum256 s token host timezone secret now).1
  purged : (now : ℕ) → Step sum256 s (purge_enrollment_tokens s now).1
  added : (host timezone : String) → Step sum256 s (add_host s host timezone).1
  removed : (host : String) → Step sum256 s (remove_host s host).1
  beaten : (host : String) (at : ℕ) → Step sum256 s (heartbeat s host at).1
  pinged :
      (host : String) (at : ℕ) (version arch error : String)
      → Step sum256 s (agent_check_in s host at version arch error).1
  requested :
      (hosts : List String) (version url : String) (now : ℕ)
      → Step sum256 s (request_agent_update s hosts version url now).1

abbrev pub no_hosts : Hosts
no_hosts = record { hosts = []; tokens = []; credentials = []; next_host = 1; next_token = 1 }

-- The tables that the calls lead to, from empty ones.
pub data Reachable (sum256 : String → String) : Hosts → Type 0 where
  start : Reachable sum256 no_hosts
  then' : {s t : Hosts} → Reachable sum256 s → Step sum256 s t → Reachable sum256 t

insert_token-IsValid :
    (s : Hosts) (hash : String) (name : Option String) (uses expires : ℕ)
    → IsValid s
    → IsValid (insert_token s hash name uses expires).1
insert_token-IsValid s hash name uses expires v =
    elim (Bool-cases (ltb max_uses uses || any (λ (t : TokenRow). t.token_hash == hash) s.tokens)) [
      | inl e ↦ rw e (
          tokens-IsValid s s.tokens (suc s.next_token)
            (Keyed-draw token_key token_hash s.next_token s.tokens v.tokens_keyed) v)
      | inr e ↦ rw e (
          tokens-IsValid s _ (suc s.next_token)
            (Keyed-snoc token_key token_hash s.next_token s.tokens _ refl (ground arith)
              v.tokens_keyed)
            v)
    ]

create-IsValid :
    (sum256 : String → String) (s : Hosts) (host : String) (uses ttl : ℤ) (token : String) (now : ℕ)
    → IsValid s
    → IsValid (create_enrollment_token sum256 s host uses ttl token now).1
unfolding create_enrollment_token
create-IsValid sum256 s host (pos (suc uses)) (pos (suc ttl)) token now v =
    insert_token-IsValid s (sum256 token) (bound_name host) (suc uses) _ v
create-IsValid sum256 s host (pos (suc uses)) (pos ℕ.zero) token now v = v
create-IsValid sum256 s host (pos (suc uses)) (negsuc ttl) token now v = v
create-IsValid sum256 s host (pos ℕ.zero) ttl token now v = v
create-IsValid sum256 s host (negsuc uses) ttl token now v = v

finish-IsValid :
    (s : Hosts) (id : ℕ) (hs : List HostRow) (t : TokenRow) (secret hash : String)
    → IsValid s
    → IsValid (record s { hosts = hs; next_host = suc s.next_host })
    → any (λ h. host_key h == id) hs ≡ true
    → IsValid
        (finish_enroll s (id, record s { hosts = hs; next_host = suc s.next_host }) t secret hash).1
finish-IsValid s id hs t secret hash v w o =
    elim (Bool-cases (any (elsewhere id hash) s.credentials)) [
      | inl e ↦ rw e (drawn-IsValid s v)
      | inr e ↦ elim (Bool-cases (any (of_host id) s.credentials)) [
        | inl f ↦
            rw (e, f)
              (finished _ (set_secret-CredentialsOk hs id hash s.credentials e w.credentials_ok))
        | inr f ↦
            rw (e, f)
              (finished _
                (add_secret-CredentialsOk hs id hash s.credentials e f o w.credentials_ok))
      ]
    ]
  where
    finished :
        (cs : List CredentialRow)
        → CredentialsOk hs cs
        → IsValid (record s {
          hosts = hs;
          next_host = suc s.next_host;
          credentials = cs;
          tokens = use_once t.id s.tokens;
        })
    finished cs c = record {
      hosts_keyed = w.hosts_keyed;
      updates_ok = w.updates_ok;
      tokens_keyed =
          Keyed-change token_key token_hash s.next_token _ _ s.tokens (λ x. refl) (λ x. refl)
            v.tokens_keyed;
      credentials_ok = c;
    }

zone-Update :
    (p : HostRow → Bool) (timezone : String) → Update p (λ h. record h { timezone = timezone })
zone-Update p timezone = record { same_id = λ h. refl; same_name = λ h. refl; keeps_url = λ h o. o }

upserted-IsValid :
    (s : Hosts) (o : Option HostRow) (host timezone : String) (t : TokenRow) (secret hash : String)
    → find (is_called host) s.hosts ≡ o
    → IsValid s
    → IsValid (finish_enroll s (upsert_host s o host timezone) t secret hash).1
upserted-IsValid s none host timezone t secret hash e v =
    finish-IsValid s s.next_host (with_host s host timezone).hosts t secret hash v
      (with_host-IsValid s host timezone (none_found (is_called host) s.hosts e) v)
      (any-last (λ h. host_key h == s.next_host) s.hosts _
        (ground (arith, nat_eq.beq_iff s.next_host s.next_host)))
upserted-IsValid s (some r) host timezone t secret hash e v =
    finish-IsValid s r.id _ t secret hash v
      (drawn-IsValid _ (
        changed-IsValid s (is_called host) (λ h. record h { timezone = timezone })
          (zone-Update _ timezone) v))
      (any-change (is_called host) (λ h. host_key h == r.id) (λ h. record h { timezone = timezone })
          s.hosts (λ h. refl)
        ∙ found-any host_key (is_called host) s.hosts e)

use_token-IsValid :
    (s : Hosts) (o : Option TokenRow) (host timezone secret hash : String)
    → IsValid s
    → IsValid (use_token s o host timezone secret hash).1
use_token-IsValid s none host timezone secret hash v = v
use_token-IsValid s (some t) host timezone secret hash v =
    elim (Bool-cases (fits_host t.host_name host)) [
      | inl e ↦
          rw e
            (upserted-IsValid s (find (is_called host) s.hosts) host timezone t secret hash refl v)
      | inr e ↦ rw e v
    ]

enroll-IsValid :
    (sum256 : String → String) (s : Hosts) (token host timezone secret : String) (now : ℕ)
    → IsValid s
    → IsValid (enroll sum256 s token host timezone secret now).1
unfolding enroll
enroll-IsValid sum256 s token host timezone secret now v = elim (Bool-cases (is_empty host)) [
  | inl e ↦ rw e v
  | inr e ↦
      rw e (
        use_token-IsValid s (find (is_usable (sum256 token) now) s.tokens) host timezone secret _ v)
]

add_host-IsValid :
    (s : Hosts) (host timezone : String) → IsValid s → IsValid (add_host s host timezone).1
unfolding add_host
add_host-IsValid s host timezone v = elim (Bool-cases (any (is_called host) s.hosts)) [
  | inl e ↦ rw e (drawn-IsValid s v)
  | inr e ↦ rw e (with_host-IsValid s host timezone e v)
]

remove-IsValid :
    (s : Hosts) (o : Option HostRow) (host : String)
    → find (is_called host) s.hosts ≡ o
    → IsValid s
    → IsValid (delete_host s o host).1
remove-IsValid s none host e v = v
remove-IsValid s (some r) host e v = delete_host-IsValid s host e v

heartbeat-IsValid :
    (s : Hosts) (host : String) (at : ℕ) → IsValid s → IsValid (heartbeat s host at).1
unfolding heartbeat
heartbeat-IsValid s host at v = elim (Bool-cases (any (is_called host) s.hosts)) [
  | inl e ↦ rw e (
      changed-IsValid s (is_called host) (heard at)
        (record { same_id = λ h. refl; same_name = λ h. refl; keeps_url = λ h o. o }) v)
  | inr e ↦ rw e v
]

cleared_url :
    (matches : Bool) (version url : Option String)
    → has_url version url ≡ true
    → has_url (if matches then none else version) (if matches then none else url) ≡ true
cleared_url true version url h = refl
cleared_url false version url h = h

pub checked_in-Update :
    (p : HostRow → Bool) (at : ℕ) (version arch error : String)
    → Update p (checked_in at version arch error)
checked_in-Update p at version arch error = record {
  same_id = λ h. refl;
  same_name = λ h. refl;
  keeps_url =
      λ h o. cleared_url (is_version version h.update_version) h.update_version h.update_url o;
}

-- Every call keeps the tables valid.
pub Step-IsValid :
    {sum256 : String → String} {s t : Hosts} → IsValid s → Step sum256 s t → IsValid t
unfolding purge_enrollment_tokens remove_host agent_check_in request_agent_update
Step-IsValid {sum256} {s} v (created host uses ttl token now) =
    create-IsValid sum256 s host uses ttl token now v
Step-IsValid {sum256} {s} v (enrolled token host timezone secret now) =
    enroll-IsValid sum256 s token host timezone secret now v
Step-IsValid {sum256} {s} v (purged now) =
    tokens-IsValid s _ s.next_token
      (Keyed-select token_key token_hash s.next_token (λ t. not (is_spent now t)) s.tokens
        v.tokens_keyed)
      v
Step-IsValid {sum256} {s} v (added host timezone) = add_host-IsValid s host timezone v
Step-IsValid {sum256} {s} v (removed host) =
    remove-IsValid s (find (is_called host) s.hosts) host refl v
Step-IsValid {sum256} {s} v (beaten host at) = heartbeat-IsValid s host at v
Step-IsValid {sum256} {s} v (pinged host at version arch error) =
    changed-IsValid s (is_called host) (checked_in at version arch error)
      (checked_in-Update _ at version arch error) v
Step-IsValid {sum256} {s} v (requested hosts version url now) =
    changed-IsValid s (is_asked hosts version) (asked version url now)
      (record { same_id = λ h. refl; same_name = λ h. refl; keeps_url = λ h o. refl }) v

-- However the calls are interleaved, the names and numbers of hosts, the hashes and numbers of
-- tokens and the secrets' hashes are unique, a host has at most one credential, every credential
-- belongs to a host of the table, and an update that is asked for has a URL.
pub Reachable-hosts : {sum256 : String → String} {s : Hosts} → Reachable sum256 s → IsValid s
Reachable-hosts start = record {
  hosts_keyed = record { unique_ids = tt; unique_keys = tt; drawn = tt };
  updates_ok = tt;
  tokens_keyed = record { unique_ids = tt; unique_keys = tt; drawn = tt };
  credentials_ok = record { one_each = tt; unique_secrets = tt; owned = tt };
}
Reachable-hosts (then' r s) = Step-IsValid (Reachable-hosts r) s
