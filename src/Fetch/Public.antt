-- ===== src/Fetch/Public.antt =====
-- A fetch contacts public addresses only.
use ahmed_agent.Base.{
  ℕ, zero, suc, ◌≡◌, refl, Bool, true, false, ◌&&◌, Option, none, some, List, [], ◌∷◌, All,
  All-append, arith, if◌then◌else◌,
}
use ahmed_agent.Files.{Text}
use ahmed_agent.Fetch.{
  location_of, Follow, follow_to, after_response, after_request, fetch_hops, fetch_page_sync,
  fetch_if, fetch_url, result_of, fetch_page, PageResult, max_redirects,
}
use ahmed_agent.Fetch.Pinned.{
  Outside, Url, Contact, Response, Fetched, fetched, unsafe_target, failed, is_public_ip,
  is_public_name, all_public, validate_host, validate_url_parts, public_or_none,
  resolve_public_addresses, host_of, addresses_at, effective_port, safe_addresses, after_connect,
  connect_pinned_socket, respond_pinned, request_to, request_url, pinned_request,
}

both : (b c : Bool) → (b && c) ≡ true → (b ≡ true) × (c ≡ true)
both b c e = ground arith

module _ (o : Outside) where
  -- The address is public, and the host is no local name.
  pub record IsAllowed (c : Contact) : Type 0 where
    pub public : is_public_ip o c.address ≡ true
    pub named : is_public_name o (o.strings.lower c.hostname) ≡ true

  -- What the checks of a URL let through.
  abbrev AreChecked : Text → Option (List Text) → Type 0
  AreChecked host none = Unit
  AreChecked host (some addresses) =
      (is_public_name o (o.strings.lower host) ≡ true) × (all_public o addresses ≡ true)

  public_or_none-public :
      (answer : Option (List Text)) (host : Text)
      → is_public_name o (o.strings.lower host) ≡ true
      → AreChecked host (public_or_none o answer)
  public_or_none-public none host named = tt
  public_or_none-public (some []) host named = tt
  public_or_none-public (some (a ∷ rest)) host named = checked (all_public o (a ∷ rest)) refl
    where
      checked :
          (b : Bool)
          → all_public o (a ∷ rest) ≡ b
          → AreChecked host (if b then some (a ∷ rest) else none)
      checked true e = (named, e)
      checked false e = tt

  safe_addresses-AreChecked : (k : ℕ) (u : Url) → AreChecked (host_of o u) (safe_addresses o k u)
  unfolding safe_addresses validate_url_parts resolve_public_addresses effective_port
  safe_addresses-AreChecked k u = checked (validate_host o u u.hostname) refl (effective_port o u)
    where
      named :
          (h : Option Text)
          → validate_host o u h ≡ true
          → is_public_name o (o.strings.lower (elim h [ none ↦ [] | some hostname ↦ hostname ]))
            ≡ true
      named none e = absurd (cc e)
      named (some hostname) e = ground arith

      checked :
          (b : Bool)
          → validate_host o u u.hostname ≡ b
          → (port : Option ℕ)
          → AreChecked (host_of o u) (if b then addresses_at o k u port else none)
      checked false e port = tt
      checked true e none = tt
      checked true e (some port) =
          public_or_none-public (o.getaddrinfo k (host_of o u) port) (host_of o u)
            (named u.hostname e)

  contact_all :
      (k : ℕ) (host : Text) (addresses : List Text)
      → is_public_name o (o.strings.lower host) ≡ true
      → all_public o addresses ≡ true
      → All IsAllowed (connect_pinned_socket o k host addresses).1
  unfolding connect_pinned_socket
  contact_all k host [] named public = tt
  contact_all k host (a ∷ rest) named public =
      tried (o.connects k a) (connect_pinned_socket o k host rest)
        (record { public = (both _ _ public).0; named = named })
        (contact_all k host rest named (both _ _ public).1)
    where
      tried :
          (reached : Bool) (rest : Bool × List Contact)
          → IsAllowed (record { hostname = host; address = a })
          → All IsAllowed rest.1
          → All IsAllowed (after_connect o reached (record { hostname = host; address = a }) rest).1
      tried true rest allowed more = (allowed, tt)
      tried false rest allowed more = (allowed, more)

  request-IsAllowed :
      (k : ℕ) (url host : Text) (addresses : Option (List Text))
      → AreChecked host addresses
      → All IsAllowed (request_to o k url host addresses).1
  request-IsAllowed k url host none checked = tt
  request-IsAllowed k url host (some addresses) (named, public) =
      responded (connect_pinned_socket o k host addresses)
        (contact_all k host addresses named public)
    where
      responded :
          (tried : Bool × List Contact)
          → All IsAllowed tried.1
          → All IsAllowed (respond_pinned o k url tried).1
      responded (false, tried) h = h
      responded (true, tried) h = h

  pinned_request-IsAllowed : (k : ℕ) (url : Text) → All IsAllowed (pinned_request o k url).1
  unfolding pinned_request
  pinned_request-IsAllowed k url = requested (o.urlparse url)
    where
      requested : (u : Option Url) → All IsAllowed (request_url o k url u).1
      requested none = tt
      requested (some u) =
          request-IsAllowed k url (host_of o u) (safe_addresses o k u)
            (safe_addresses-AreChecked k u)

  -- The rest of the loop adds what it contacts.
  followed :
      (url : Text) (result : Fetched Response × List Contact) (follow : Follow o)
      → ((target : Text) → All IsAllowed (follow target).1)
      → All IsAllowed result.1
      → All IsAllowed (after_request o url result follow).1
  followed url (unsafe_target, tried) follow rest h = h
  followed url (failed, tried) follow rest h = h
  followed url (fetched r, tried) follow rest h = redirected (location_of o r)
    where
      joined : (target : Option Text) → All IsAllowed (follow_to o target tried follow).1
      joined none = h
      joined (some target) = All-append IsAllowed tried (follow target).1 h (rest target)

      redirected :
          (location : Option Text) → All IsAllowed (after_response o url r location tried follow).1
      redirected none = h
      redirected (some location) = joined (o.urljoin url location)

  fetch_hops-IsAllowed : (hops k : ℕ) (url : Text) → All IsAllowed (fetch_hops o hops k url).1
  unfolding fetch_hops
  fetch_hops-IsAllowed zero k url = tt
  fetch_hops-IsAllowed (suc hops) k url =
      followed url (pinned_request o k url) (λ target. fetch_hops o hops (suc k) target)
        (λ target. fetch_hops-IsAllowed hops (suc k) target) (pinned_request-IsAllowed k url)

  -- The connections of a fetch, none where parsing the URL raises.
  abbrev pub contacts : Fetched (Option PageResult × List Contact) → List Contact
  contacts (fetched (page, tried)) = tried
  contacts _ = []

  -- Whatever the network answers to each lookup, connection and request, and wherever pages redirect
  -- to: every connection that a fetch tries is to a public address, for a host that is no local name.
  pub fetch_page-IsAllowed :
      (url : Text) (fallback : Option Text) → All IsAllowed (contacts (fetch_page o url fallback))
  unfolding fetch_page fetch_page_sync
  fetch_page-IsAllowed url fallback = parsed (o.urlparse url)
    where
      resulted :
          (r : Fetched Response × List Contact)
          → All IsAllowed r.1
          → All IsAllowed (result_of o url fallback r).1
      resulted (fetched r, tried) h = h
      resulted (unsafe_target, tried) h = h
      resulted (failed, tried) h = h

      guarded :
          (addresses : Option (List Text)) → All IsAllowed (fetch_if o url fallback addresses).1
      guarded none = tt
      guarded (some addresses) =
          resulted (fetch_page_sync o url) (fetch_hops-IsAllowed (suc max_redirects) 1 url)

      parsed : (u : Option Url) → All IsAllowed (contacts (fetch_url o url fallback u))
      parsed none = tt
      parsed (some u) = guarded (safe_addresses o 0 u)
