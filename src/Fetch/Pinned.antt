-- ===== src/Fetch/Pinned.antt =====
-- skill_tools.py: the checks of a URL, and a request whose connection is made to an address that was
-- checked. The network is a parameter that may answer each request otherwise.
use mathlib.Core.List.{reverse}
use ahmed_agent.Base.{
  ℕ, ◌*◌, Bool, true, false, ◌&&◌, ◌||◌, not, Option, none, some, List, [], ◌∷◌, take, ◌==◌,
  list_eq, if◌then◌else◌,
}
use ahmed_agent.Files.{Text, codes}
use ahmed_agent.Files.Content.{starts_with}
use ahmed_agent.Fetch.Page.{Strings, Event, is_empty}

-- `port` of a parsed URL; `invalid` where it raises.
pub data Port : Type 0 where
  absent : Port
  number : ℕ → Port
  invalid : Port

-- A parsed URL; a user name or a password that is missing is empty here.
pub record Url : Type 0 where
  pub scheme : Text
  pub hostname : Option Text
  pub username : Text
  pub password : Text
  pub port : Port
  pub netloc : Text

pub record Response : Type 0 where
  pub status : ℕ
  pub location : Option Text
  pub content_type : Text
  pub body : Text

-- A connection that was tried: for which host name, and to which address.
pub record Contact : Type 0 where
  pub hostname : Text
  pub address : Text

-- What is outside: `urlparse` and `urljoin`, `none` where they raise; `ip_address(…).is_global`, `none`
-- where the text is no address; the network, with the number of the request; and the decoding of a
-- body, `none` for an unknown charset, with the events of its tags.
pub record Outside : Type 0 where
  pub strings : Strings
  pub urlparse : Text → Option Url
  pub urljoin : Text → Text → Option Text
  pub is_global : Text → Option Bool
  pub getaddrinfo : ℕ → Text → ℕ → Option (List Text)
  pub connects : ℕ → Text → Bool
  pub respond : ℕ → Text → Option Response
  pub decode : Response → Option Text
  pub events : Text → List Event

abbrev pub max_page_bytes : ℕ
max_page_bytes = 2 * 1024 * 1024

-- How a request of a page ends.
pub data Fetched {ℓ} (A : Type ℓ) : Type ℓ where
  fetched : A → Fetched A
  unsafe_target : Fetched A
  failed : Fetched A

abbrev pub ends_with : Text → Text → Bool
ends_with suffix text = starts_with (reverse suffix) (reverse text)

module _ (o : Outside) where
  abbrev pub is_public : Option Bool → Bool
  is_public none = false
  is_public (some global) = global

  -- `_is_public_ip`
  abbrev pub is_public_ip : Text → Bool
  is_public_ip address = is_public (o.is_global address)

  abbrev pub is_public_name : Text → Bool
  is_public_name name =
      not (list_eq name (codes "localhost") || list_eq name (codes "localhost.localdomain"))
      && not (ends_with (codes ".local") name)

  abbrev pub validate_host : Url → Option Text → Bool
  validate_host u none = false
  validate_host u (some hostname) =
      (list_eq u.scheme (codes "http") || list_eq u.scheme (codes "https"))
      && not (is_empty hostname)
      && is_empty u.username
      && is_empty u.password
      && is_public_name (o.strings.lower hostname)

  unfoldable pub validate_url_parts : Url → Bool
  validate_url_parts u = validate_host u u.hostname

  abbrev pub all_public : List Text → Bool
  all_public [] = true
  all_public (a ∷ as') = is_public_ip a && all_public as'

  abbrev pub public_or_none : Option (List Text) → Option (List Text)
  public_or_none none = none
  public_or_none (some []) = none
  public_or_none (some (a ∷ as')) = if all_public (a ∷ as') then some (a ∷ as') else none

  unfoldable pub resolve_public_addresses : ℕ → Text → ℕ → Option (List Text)
  resolve_public_addresses k hostname port = public_or_none (o.getaddrinfo k hostname port)

  abbrev pub default_port : Text → ℕ
  default_port scheme = if list_eq scheme (codes "https") then 443 else 80

  -- `none` is -1.
  abbrev pub port_or_default : Text → Port → Option ℕ
  port_or_default scheme absent = some (default_port scheme)
  port_or_default scheme (number n) = some (if n == 0 then default_port scheme else n)
  port_or_default scheme invalid = none

  unfoldable pub effective_port : Url → Option ℕ
  effective_port u = port_or_default u.scheme u.port

  abbrev pub host_of : Url → Text
  host_of u = elim u.hostname [ none ↦ [] | some hostname ↦ hostname ]

  -- The checked addresses of a URL, or that it is not safe.
  abbrev pub addresses_at : ℕ → Url → Option ℕ → Option (List Text)
  addresses_at k u none = none
  addresses_at k u (some port) = resolve_public_addresses k (host_of u) port

  unfoldable pub safe_addresses : ℕ → Url → Option (List Text)
  unfolding validate_url_parts resolve_public_addresses effective_port
  safe_addresses k u = if validate_url_parts u then addresses_at k u (effective_port u) else none

  abbrev pub after_connect : Bool → Contact → Bool × List Contact → Bool × List Contact
  after_connect true contact rest = (true, contact ∷ [])
  after_connect false contact (reached, tried) = (reached, contact ∷ tried)

  -- The loop of `_connect_pinned_socket`: whether an address was reached, and what was tried.
  unfoldable pub connect_pinned_socket : ℕ → Text → List Text → Bool × List Contact
  connect_pinned_socket k hostname [] = (false, [])
  connect_pinned_socket k hostname (a ∷ as') =
      after_connect (o.connects k a) (record { hostname = hostname; address = a })
        (connect_pinned_socket k hostname as')

  abbrev pub truncated : Option Response → Fetched Response
  truncated none = failed
  truncated (some r) = fetched (record r { body = take max_page_bytes r.body })

  abbrev pub respond_pinned : ℕ → Text → Bool × List Contact → Fetched Response × List Contact
  respond_pinned k url (false, tried) = (failed, tried)
  respond_pinned k url (true, tried) = (truncated (o.respond k url), tried)

  abbrev pub request_to : ℕ → Text → Text → Option (List Text) → Fetched Response × List Contact
  request_to k url hostname none = (unsafe_target, [])
  request_to k url hostname (some addresses) =
      respond_pinned k url (connect_pinned_socket k hostname addresses)

  abbrev pub request_url : ℕ → Text → Option Url → Fetched Response × List Contact
  request_url k url none = (failed, [])
  request_url k url (some u) = request_to k url (host_of u) (safe_addresses k u)

  -- The name is looked up once, and the connection is made to what was checked.
  unfoldable pub pinned_request : ℕ → Text → Fetched Response × List Contact
  unfolding safe_addresses connect_pinned_socket
  pinned_request k url = request_url k url (o.urlparse url)
