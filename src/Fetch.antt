-- ===== src/Fetch.antt =====
-- skill_tools.py: how a page is fetched without reaching a private address. The network is a
-- parameter that may answer each request otherwise: the k-th lookup of a name, the k-th connection to
-- an address and the k-th response are given. What is kept of a fetch is the list of the connections
-- that were tried.
pub mod Page
pub mod Pinned
pub mod Public
pub mod Hidden
mod Examples
use ahmed_agent.Base.{
  ℕ, zero, suc, Bool, ◌||◌, not, Option, none, some, List, [], ◌∷◌, ◌++◌, length, take, ltb, leb,
  ◌==◌, list_eq, if◌then◌else◌,
}
use ahmed_agent.Files.{Text, codes}
use ahmed_agent.Fetch.Page.{new_parser, feed, PageContent, page_content, join, valid_date_value}
use ahmed_agent.Fetch.Pinned.{
  Url, Response, Contact, Outside, Fetched, safe_addresses, pinned_request, fetched, unsafe_target,
  failed,
}

-- What `_fetch_page` returns.
pub record PageResult : Type 0 where
  pub title : Text
  pub url : Text
  pub date : Option Text
  pub snippet : Text

abbrev pub max_redirects : ℕ
max_redirects = 5

abbrev pub is_redirect : ℕ → Bool
is_redirect status =
    status == 301 || status == 302 || status == 303 || status == 307 || status == 308

module _ (o : Outside) where
  -- Where a redirect leads: a `Location` that is not empty.
  abbrev pub target_of : Option Text → Option Text
  target_of none = none
  target_of (some []) = none
  target_of (some (c ∷ cs)) = some (c ∷ cs)

  abbrev pub location_of : Response → Option Text
  location_of r = if is_redirect r.status then target_of r.location else none

  abbrev pub page_of : Response → Fetched Response
  page_of r = if ltb r.status 200 || leb 300 r.status then failed else fetched r

  -- The rest of the loop, from the URL that a redirect leads to.
  abbrev pub Follow : Type 0
  Follow = Text → Fetched Response × List Contact

  abbrev pub also_tried :
      List Contact → Fetched Response × List Contact → Fetched Response × List Contact
  also_tried tried (result, more) = (result, tried ++ more)

  abbrev pub follow_to : Option Text → List Contact → Follow → Fetched Response × List Contact
  follow_to none tried follow = (failed, tried)
  follow_to (some target) tried follow = also_tried tried (follow target)

  abbrev pub after_response :
      Text → Response → Option Text → List Contact → Follow → Fetched Response × List Contact
  after_response url r none tried follow = (page_of r, tried)
  after_response url r (some location) tried follow =
      follow_to (o.urljoin url location) tried follow

  abbrev pub after_request :
      Text → Fetched Response × List Contact → Follow → Fetched Response × List Contact
  after_request url (fetched r, tried) follow = after_response url r (location_of r) tried follow
  after_request url (unsafe_target, tried) follow = (unsafe_target, tried)
  after_request url (failed, tried) follow = (failed, tried)

  -- The loop of `_fetch_page_sync` with the hops that are left; `k` counts the requests.
  unfoldable pub fetch_hops : ℕ → ℕ → Text → Fetched Response × List Contact
  unfolding pinned_request
  fetch_hops zero k url = (unsafe_target, [])
  fetch_hops (suc hops) k url =
      after_request url (pinned_request o k url) (λ target. fetch_hops hops (suc k) target)

  unfoldable pub fetch_page_sync : Text → Fetched Response × List Contact
  unfolding fetch_hops
  fetch_page_sync url = fetch_hops (suc max_redirects) 1 url

  abbrev pub is_html : Text → Bool
  is_html content_type =
      list_eq content_type (codes "text/html")
      || list_eq content_type (codes "application/xhtml+xml")

  -- A page that is no HTML is its words.
  unfoldable pub content_of : Text → Text → PageContent
  unfolding feed
  content_of content_type html =
      if is_html content_type
      then page_content o.strings (feed o.strings (o.events html) new_parser)
      else record { title = []; text = join (o.strings.split html); date = none }

  abbrev pub or_date : Option Text → Option Text → Option Text
  or_date none other = other
  or_date (some date) other = some date

  abbrev pub netloc_of : Option Url → Option Text
  netloc_of none = none
  netloc_of (some u) = some u.netloc

  -- `title or urlparse(url).netloc`
  abbrev pub title_or : Text → Option Text → Option Text
  title_or [] netloc = netloc
  title_or (c ∷ cs) netloc = some (c ∷ cs)

  abbrev pub with_title :
      Text → Option Text → List Text → PageContent → Option Text → Option PageResult
  with_title url fallback words page none = none
  with_title url fallback words page (some title) = some (record {
    title = title;
    url = url;
    date = or_date (valid_date_value o.strings page.date) (valid_date_value o.strings fallback);
    snippet = join (take 350 words);
  })

  unfoldable pub page_result : Text → Option Text → PageContent → Option PageResult
  page_result url fallback page =
      let words = o.strings.split page.text in
      if ltb (length words) 200
      then none
      else with_title url fallback words page (title_or page.title (netloc_of (o.urlparse url)))

  abbrev pub read_page : Text → Option Text → Text → Option Text → Option PageResult
  read_page url fallback content_type none = none
  read_page url fallback content_type (some html) =
      page_result url fallback (content_of content_type html)

  abbrev pub result_of :
      Text → Option Text → Fetched Response × List Contact → Option PageResult × List Contact
  result_of url fallback (fetched r, tried) =
      (read_page url fallback r.content_type (o.decode r), tried)
  result_of url fallback (unsafe_target, tried) = (none, tried)
  result_of url fallback (failed, tried) = (none, tried)

  abbrev pub fetch_if : Text → Option Text → Option (List Text) → Option PageResult × List Contact
  fetch_if url fallback none = (none, [])
  fetch_if url fallback (some addresses) = result_of url fallback (fetch_page_sync url)

  abbrev pub fetch_url :
      Text → Option Text → Option Url → Fetched (Option PageResult × List Contact)
  fetch_url url fallback none = failed
  fetch_url url fallback (some u) = fetched (fetch_if url fallback (safe_addresses o 0 u))

  -- The first check looks the name up for itself; `failed` where parsing the URL raises.
  unfoldable pub fetch_page : Text → Option Text → Fetched (Option PageResult × List Contact)
  unfolding fetch_page_sync page_result content_of safe_addresses
  fetch_page url fallback = fetch_url url fallback (o.urlparse url)
