-- ===== src/Fetch/Page.antt =====
-- `_PageTextParser` of skill_tools.py. HTMLParser, which is not part of the repository, gives the
-- tags and the data of a document as a list of events.
use ahmed_agent.Base.{
  ℕ, suc, ◌-◌, Bool, true, false, ◌||◌, Option, none, some, String, List, [], ◌∷◌, ◌++◌, list_eq,
  ◌==◌, if◌then◌else◌,
}
use ahmed_agent.Files.{Text, codes, strip}

pub data Event : Type 0 where
  start_tag : Text → List (Text × Option Text) → Event
  end_tag : Text → Event
  page_data : Text → Event

-- What the source uses of Python's texts: `has_year` is the regular expression of a year.
pub record Strings : Type 0 where
  pub is_space : ℕ → Bool
  pub lower : Text → Text
  pub split : Text → List Text
  pub is_in : Text → Text → Bool
  pub has_year : Text → Bool

pub record Parser : Type 0 where
  pub skip_depth : ℕ
  pub in_title : Bool
  pub title_parts : List Text
  pub text_parts : List Text
  pub published_dates : List Text
  pub other_dates : List Text

abbrev pub new_parser : Parser
new_parser = record {
  skip_depth = 0;
  in_title = false;
  title_parts = [];
  text_parts = [];
  published_dates = [];
  other_dates = [];
}

abbrev pub is_empty : Text → Bool
is_empty [] = true
is_empty (c ∷ cs) = false

-- `" ".join(parts)`
abbrev pub join : List Text → Text
join [] = []
join (p ∷ []) = p
join (p ∷ q ∷ ps) = p ++ (b' ' ∷ join (q ∷ ps))

-- `value or ""`
abbrev pub or_empty : Option Text → Text
or_empty none = []
or_empty (some value) = value

abbrev pub first_of : List Text → Option Text
first_of [] = none
first_of (t ∷ ts) = some t

abbrev pub any_in : (Text → Text → Bool) → List Text → Text → Bool
any_in is_in [] key = false
any_in is_in (m ∷ ms) key = is_in m key || any_in is_in ms key

-- `a or b`
abbrev pub or_text : Text → Text → Text
or_text [] b = b
or_text (c ∷ cs) b = c ∷ cs

pub record PageContent : Type 0 where
  pub title : Text
  pub text : Text
  pub date : Option Text

module _ (s : Strings) where
  -- The value of a key in the dictionary of the attributes: the last one counts.
  unfoldable pub attribute : Text → Text → List (Text × Option Text) → Text
  attribute key found [] = found
  attribute key found ((k, value) ∷ more) =
      attribute key (if list_eq (s.lower k) key then or_empty value else found) more

  abbrev pub get : String → List (Text × Option Text) → Text
  get key attrs = attribute (codes key) [] attrs

  abbrev pub is_hidden : Text → Bool
  is_hidden tag =
      list_eq tag (codes "script")
      || list_eq tag (codes "style")
      || list_eq tag (codes "noscript")
      || list_eq tag (codes "template")
      || list_eq tag (codes "svg")

  abbrev pub add_date : Text → Text → Parser → Parser
  add_date key [] p = p
  add_date key (c ∷ cs) p =
      if s.is_in (codes "published") key || s.is_in (codes "datepublished") key
      then record p { published_dates = p.published_dates ++ ((c ∷ cs) ∷ []) }
      else record p { other_dates = p.other_dates ++ ((c ∷ cs) ∷ []) }

  abbrev pub add_published : Text → Parser → Parser
  add_published [] p = p
  add_published (c ∷ cs) p = record p { published_dates = p.published_dates ++ ((c ∷ cs) ∷ []) }

  unfoldable pub on_meta : List (Text × Option Text) → Parser → Parser
  unfolding attribute
  on_meta attrs p =
      let key =
        s.lower
          (or_text (get "property" attrs) (or_text (get "name" attrs) (get "itemprop" attrs))) in
      if any_in s.is_in (codes "date" ∷ codes "published" ∷ codes "modified" ∷ codes "created" ∷ [])
        key
      then add_date key (strip s.is_space (get "content" attrs)) p
      else p

  unfoldable pub handle_starttag : Text → List (Text × Option Text) → Parser → Parser
  unfolding on_meta attribute
  handle_starttag tag attrs p =
      let lowered_tag = s.lower tag in
      let skipping =
        if is_hidden lowered_tag then record p { skip_depth = suc p.skip_depth } else p in
      let titled =
        if list_eq lowered_tag (codes "title")
        then record skipping { in_title = true }
        else skipping in
      let dated = if list_eq lowered_tag (codes "meta") then on_meta attrs titled else titled in
      if list_eq lowered_tag (codes "time")
      then add_published (strip s.is_space (get "datetime" attrs)) dated
      else dated

  unfoldable pub handle_endtag : Text → Parser → Parser
  handle_endtag tag p =
      let lowered_tag = s.lower tag in
      let titled =
        if list_eq lowered_tag (codes "title") then record p { in_title = false } else p in
      if is_hidden lowered_tag then record titled { skip_depth = titled.skip_depth - 1 } else titled

  abbrev pub add_text : Text → Parser → Parser
  add_text [] p = p
  add_text (c ∷ cs) p = record p {
    title_parts = if p.in_title then p.title_parts ++ ((c ∷ cs) ∷ []) else p.title_parts;
    text_parts = p.text_parts ++ ((c ∷ cs) ∷ []);
  }

  unfoldable pub handle_data : Text → Parser → Parser
  handle_data text p = if p.skip_depth == 0 then add_text (join (s.split text)) p else p

  unfoldable pub handle : Event → Parser → Parser
  unfolding handle_starttag handle_endtag handle_data
  handle (start_tag tag attrs) p = handle_starttag tag attrs p
  handle (end_tag tag) p = handle_endtag tag p
  handle (page_data text) p = handle_data text p

  unfoldable pub feed : List Event → Parser → Parser
  unfolding handle
  feed [] p = p
  feed (e ∷ es) p = feed es (handle e p)

  abbrev pub valid_date_value : Option Text → Option Text
  valid_date_value none = none
  valid_date_value (some value) =
      if is_empty value then none else if s.has_year value then some value else none

  abbrev pub first_date : List Text → List Text → Option Text
  first_date [] others = first_of others
  first_date (d ∷ ds) others = some d

  abbrev pub published_at : Parser → Option Text
  published_at p = valid_date_value (first_date p.published_dates p.other_dates)

  abbrev pub page_content : Parser → PageContent
  page_content p = record {
    title = strip s.is_space (join p.title_parts);
    text = strip s.is_space (join p.text_parts);
    date = published_at p;
  }
