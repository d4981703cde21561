-- ===== src/Hosts/Enroll/Key.antt =====
-- What a call of `Enroll` that succeeds leaves (internal/store/enrollment.go).
use sy_mon.Base.{
  ℕ, String, true, false, Option, none, some, List, [], ◌∷◌, ◌==◌, string_eq, nat_eq, any, find,
  All, ◌≡◌, refl, ap, subst, arith, inl, inr, Bool-cases, ◌∙◌, if◌then◌else◌, ok, err, none_found,
  find-snoc, find-change, change_found, found_by_key, found_test, Keyed-fresh, All-snoc, All-change,
  is_empty,
}
use sy_mon.Hosts.{bad_token, invalid, HostRow, TokenRow, Hosts, is_called, new_host}
use sy_mon.Hosts.Enroll.{
  fits_host, is_usable, upsert_host, finish_enroll, use_token, enroll, of_host,
}
use sy_mon.Hosts.Laws.{IsValid, host_key, host_name, elsewhere, only_id}
use sy_mon.Hosts.Enroll.Enrolled.{Placed, NewKey, Placed-NewKey, set-Held, add-Held}

unnamed :
    (host : String) (id : ℕ) (hs : List HostRow)
    → any (is_called host) hs ≡ false
    → All (λ (h : HostRow). h.name ≡ host → h.id ≡ id) hs
unnamed host id [] e = tt
unnamed host id (h ∷ hs) e =
    ((λ n. ground (arith, string_eq.beq_iff h.name host)), unnamed host id hs (ground arith))

upsert-Placed :
    (s : Hosts) (o : Option HostRow) (host timezone : String)
    → find (is_called host) s.hosts ≡ o
    → IsValid s
    → Placed (upsert_host s o host timezone).1.hosts (upsert_host s o host timezone).0 host
upsert-Placed s none host timezone e v = record {
  only =
      All-snoc _ s.hosts _
        (unnamed host s.next_host s.hosts (none_found (is_called host) s.hosts e)) (λ n. refl);
  row = new_host s.next_host host timezone;
  row_found =
      find-snoc (λ h. h.id == s.next_host) s.hosts (new_host s.next_host host timezone)
        (Keyed-fresh host_key host_name s.next_host s.hosts v.hosts_keyed.drawn)
        ((nat_eq.beq_iff s.next_host s.next_host).1 refl);
  row_name = refl;
}
upsert-Placed s (some r) host timezone e v = record {
  only =
      All-change (λ h. h.name ≡ host → h.id ≡ r.id) (λ h. h.name ≡ host → h.id ≡ r.id)
        (is_called host) zone s.hosts (λ h k t. k) (λ h k t. k) (only_id s host v e);
  row = zone r;
  row_found =
      find-change (is_called host) (λ h. h.id == r.id) zone s.hosts (λ h. refl)
      ∙ ap (change_found (is_called host) zone)
          (found_by_key host_key (is_called host) s.hosts v.hosts_keyed.unique_ids e)
      ∙ rw named refl;
  row_name = (string_eq.beq_iff r.name host).0 named;
}
  where
    zone : HostRow → HostRow
    zone h = record h { timezone = timezone }

    named : is_called host r ≡ true
    named = found_test (is_called host) s.hosts e

-- What the tables are after the batch.
pub record Finished (sum256 : String → String) (secret host key : String) (t : Hosts) : Type 0 where
  pub same_key : key ≡ secret
  pub new_key : NewKey sum256 secret host t

finish-Finished :
    (sum256 : String → String) (s : Hosts) (id : ℕ) (after : Hosts) (t : TokenRow)
    (secret host : String) {key : String}
    → Placed after.hosts id host
    → (finish_enroll s (id, after) t secret (sum256 secret)).0 ≡ ok key
    → Finished sum256 secret host key (finish_enroll s (id, after) t secret (sum256 secret)).1
finish-Finished sum256 s id after t secret host {key} p k =
    elim (Bool-cases (any (elsewhere id (sum256 secret)) s.credentials)) [
      | inl e ↦ absurd (taken e)
      | inr e ↦ elim (Bool-cases (any (of_host id) s.credentials)) [
        | inl f ↦
            rw (e, f)
              (record {
                same_key = same e;
                new_key =
                    Placed-NewKey sum256 _ id secret host p
                      (set-Held id (sum256 secret) s.credentials e f);
              })
        | inr f ↦
            rw (e, f)
              (record {
                same_key = same e;
                new_key =
                    Placed-NewKey sum256 _ id secret host p
                      (add-Held id (sum256 secret) s.credentials e f);
              })
      ]
    ]
  where
    taken : any (elsewhere id (sum256 secret)) s.credentials ≡ true → ⊥
    taken e = ground arith

    same : any (elsewhere id (sum256 secret)) s.credentials ≡ false → key ≡ secret
    same e = ground arith

-- A token that was usable, and the host's new key.
pub record Enrolled (sum256 : String → String) (s : Hosts) (token host secret : String) (now : ℕ)
    (key : String) (t : Hosts) : Type 0 where
  pub used : TokenRow
  pub used_found : find (is_usable (sum256 token) now) s.tokens ≡ some used
  pub used_fits : fits_host used.host_name host ≡ true
  pub finished : Finished sum256 secret host key t

use_token-Enrolled :
    (sum256 : String → String) (s : Hosts) (token host timezone secret : String) (now : ℕ)
    (o : Option TokenRow) {key : String}
    → find (is_usable (sum256 token) now) s.tokens ≡ o
    → IsValid s
    → (use_token s o host timezone secret (sum256 secret)).0 ≡ ok key
    → Enrolled sum256 s token host secret now key
        (use_token s o host timezone secret (sum256 secret)).1
use_token-Enrolled sum256 s token host timezone secret now none e v k = cc
use_token-Enrolled sum256 s token host timezone secret now (some t) {key} e v k =
    elim (Bool-cases (fits_host t.host_name host)) [
      | inl f ↦ rw f (record {
        used = t;
        used_found = e;
        used_fits = f;
        finished =
            finish-Finished sum256 s (upsert_host s (find (is_called host) s.hosts) host timezone).0
              (upsert_host s (find (is_called host) s.hosts) host timezone).1 t secret host
              (upsert-Placed s (find (is_called host) s.hosts) host timezone refl v) (goes f);
      })
      | inr f ↦ absurd (stops f)
    ]
  where
    goes :
        fits_host t.host_name host ≡ true
        → (finish_enroll s
            (upsert_host s (find (is_called host) s.hosts) host timezone)
            t
            secret
            (sum256 secret)).0
          ≡ ok key
    goes f =
        subst
          (λ b.
            (if b
              then finish_enroll s (upsert_host s (find (is_called host) s.hosts) host timezone) t
                  secret (sum256 secret)
              else (err bad_token, s)).0
            ≡ ok key)
          f k

    stops : fits_host t.host_name host ≡ false → ⊥
    stops f = ground arith

-- When Enroll succeeds in valid tables, the token was there, not used up, not expired and not meant
-- for another host; the key it gives is the new secret; and HostForCredential then gives the host for
-- that secret and for no other, so that an earlier key of the host is void.
pub enroll-Enrolled :
    (sum256 : String → String) (s : Hosts) (token host timezone secret : String) (now : ℕ)
    (key : String)
    → IsValid s
    → (enroll sum256 s token host timezone secret now).0 ≡ ok key
    → Enrolled sum256 s token host secret now key (enroll sum256 s token host timezone secret now).1
unfolding enroll
enroll-Enrolled sum256 s token host timezone secret now key v k =
    elim (Bool-cases (is_empty host)) [
      | inl e ↦ absurd (nameless e)
      | inr e ↦ rw e (
          use_token-Enrolled sum256 s token host timezone secret now
            (find (is_usable (sum256 token) now) s.tokens) refl v (named e))
    ]
  where
    nameless : is_empty host ≡ true → ⊥
    nameless e = ground arith

    named :
        is_empty host ≡ false
        → (use_token s
            (find (is_usable (sum256 token) now) s.tokens)
            host
            timezone
            secret
            (sum256 secret)).0
          ≡ ok key
    named e =
        subst
          (λ b.
            (if b
              then (err invalid, s)
              else use_token s (find (is_usable (sum256 token) now) s.tokens) host timezone secret
                  (sum256 secret)).0
            ≡ ok key)
          e k
