-- ===== src/Fetch/Examples.antt =====
-- A network of two hosts: the page of the first, public one redirects to the second, which is private.
use ahmed_agent.Base.{
  ◌≡◌, refl, true, none, some, List, [], ◌∷◌, All, ◌==◌, list_eq, arith, if◌then◌else◌,
}
use ahmed_agent.Files.{Text, codes}
use ahmed_agent.Fetch.{fetch_page, fetch_page_sync}
use ahmed_agent.Fetch.Pinned.{Url, absent, Response, Outside, unsafe_target}
use ahmed_agent.Fetch.Page.{Strings, Event, start_tag, end_tag, page_data, Parser, new_parser, feed}
use ahmed_agent.Fetch.Public.{IsAllowed, contacts, fetch_page-IsAllowed}
use ahmed_agent.Fetch.Hidden.{Reads, depth_after_all, hidden_text_unread}

abbrev strings : Strings
strings = record {
  is_space = λ c. c == b' ';
  lower = λ text. text;
  split = λ text. text ∷ [];
  is_in = λ part text. list_eq part text;
  has_year = λ text. true;
}

-- A URL is its host.
abbrev url_of : Text → Url
url_of text = record {
  scheme = codes "http";
  hostname = some text;
  username = [];
  password = [];
  port = absent;
  netloc = text;
}

abbrev redirect : Response
redirect = record { status = 302; location = some (codes "in"); content_type = []; body = [] }

abbrev outside : Outside
outside = record {
  strings = strings;
  urlparse = λ text. some (url_of text);
  urljoin = λ base target. some target;
  is_global = λ address. some (list_eq address (codes "8"));
  getaddrinfo =
      λ k host port. some ((if list_eq host (codes "in") then codes "10" else codes "8") ∷ []);
  connects = λ k address. true;
  respond = λ k url. some redirect;
  decode = λ r. some r.body;
  events = λ html. [];
}

-- The redirect is refused before a second connection.
private_redirect_refused :
    fetch_page_sync outside (codes "out")
    ≡ (unsafe_target, record { hostname = codes "out"; address = codes "8" } ∷ [])
unfolding fetch_page_sync list_eq
private_redirect_refused = refl

fetch_page-IsAllowed_example :
    All (IsAllowed outside) (contacts outside (fetch_page outside (codes "out") none))
fetch_page-IsAllowed_example = fetch_page-IsAllowed outside (codes "out") none

abbrev in_script : Parser
in_script = record new_parser { skip_depth = 1 }

abbrev events : List Event
events = page_data (codes "x") ∷ start_tag (codes "p") [] ∷ end_tag (codes "script") ∷ []

hidden_text_unread_example :
    Reads strings in_script (feed strings events in_script) (depth_after_all strings 1 events)
unfolding list_eq
hidden_text_unread_example =
    hidden_text_unread strings events in_script (omega arith, (omega arith, (omega arith, tt)))
