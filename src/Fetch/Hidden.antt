-- ===== src/Fetch/Hidden.antt =====
-- What a page says inside of scripts, styles and the like is not read.
use ahmed_agent.Base.{
  ℕ, suc, ◌-◌, ◌<◌, ◌≡◌, refl, ◌∙◌, Bool, true, false, List, [], ◌∷◌, Option, arith, ◌==◌, list_eq,
  if◌then◌else◌, Bool-cases, inl, inr,
}
use ahmed_agent.Files.{Text, codes}
use ahmed_agent.Fetch.Page.{
  Strings, Event, start_tag, end_tag, page_data, Parser, is_hidden, add_date, add_published,
  on_meta, handle_starttag, handle_endtag, handle_data, handle, feed,
}

module _ (s : Strings) where
  -- How deep in hidden elements a page is after an event.
  abbrev pub depth_after : ℕ → Event → ℕ
  depth_after d (start_tag tag attrs) = if is_hidden s (s.lower tag) then suc d else d
  depth_after d (end_tag tag) = if is_hidden s (s.lower tag) then d - 1 else d
  depth_after d (page_data text) = d

  -- No hidden element that is open at the start is left by the events, but perhaps by the last one.
  abbrev pub StaysHidden : ℕ → List Event → Type 0
  StaysHidden d [] = Unit
  StaysHidden d (e ∷ es) = (0 < d) × StaysHidden (depth_after d e) es

  abbrev pub depth_after_all : ℕ → List Event → ℕ
  depth_after_all d [] = d
  depth_after_all d (e ∷ es) = depth_after_all (depth_after d e) es

  -- The parser has the same texts, and stands at a depth.
  pub record Reads (p p' : Parser) (d : ℕ) : Type 0 where
    pub title : p'.title_parts ≡ p.title_parts
    pub text : p'.text_parts ≡ p.text_parts
    pub depth : p'.skip_depth ≡ d

  add_date-Reads :
      (key content : Text) (p : Parser) → Reads p (add_date s key content p) p.skip_depth
  add_date-Reads key [] p = record { title = refl; text = refl; depth = refl }
  add_date-Reads key (c ∷ cs) p = record {
    title = ground arith;
    text = ground arith;
    depth = ground arith;
  }

  add_published-Reads :
      (content : Text) (p : Parser) → Reads p (add_published s content p) p.skip_depth
  add_published-Reads [] p = record { title = refl; text = refl; depth = refl }
  add_published-Reads (c ∷ cs) p = record { title = refl; text = refl; depth = refl }

  Reads-if :
      (p q q' : Parser) (d : ℕ) (b : Bool)
      → Reads p q d
      → Reads p q' d
      → Reads p (if b then q else q') d
  Reads-if p q q' d true h h' = h
  Reads-if p q q' d false h h' = h'

  Reads-trans : (p q q' : Parser) (d : ℕ) → Reads p q d → Reads q q' q.skip_depth → Reads p q' d
  Reads-trans p q q' d h h' = record {
    title = h'.title ∙ h.title;
    text = h'.text ∙ h.text;
    depth = h'.depth ∙ h.depth;
  }

  unread : (p : Parser) → Reads p p p.skip_depth
  unread p = record { title = refl; text = refl; depth = refl }

  on_meta-Reads :
      (attrs : List (Text × Option Text)) (p : Parser) → Reads p (on_meta s attrs p) p.skip_depth
  unfolding on_meta
  on_meta-Reads attrs p = Reads-if p _ p p.skip_depth _ (add_date-Reads _ _ p) (unread p)

  opened :
      (p : Parser) (b : Bool)
      → Reads p
          (if b then record p { skip_depth = suc p.skip_depth } else p)
          (if b then suc p.skip_depth else p.skip_depth)
  opened p true = record { title = refl; text = refl; depth = refl }
  opened p false = unread p

  starttag-Reads :
      (tag : Text) (attrs : List (Text × Option Text)) (p : Parser)
      → Reads p (handle_starttag s tag attrs p) (depth_after p.skip_depth (start_tag tag attrs))
  unfolding handle_starttag
  starttag-Reads tag attrs p =
      let d = depth_after p.skip_depth (start_tag tag attrs) in
      let h = opened p (is_hidden s (s.lower tag)) in
      let titled =
        Reads-if p _ _ d (list_eq (s.lower tag) (codes "title"))
          (record { title = h.title; text = h.text; depth = h.depth }) h in
      let dated =
        Reads-if p _ _ d (list_eq (s.lower tag) (codes "meta"))
          (Reads-trans p _ _ d titled (on_meta-Reads attrs _)) titled in
      Reads-if p _ _ d (list_eq (s.lower tag) (codes "time"))
        (Reads-trans p _ _ d dated (add_published-Reads _ _)) dated

  endtag-Reads :
      (tag : Text) (p : Parser)
      → Reads p (handle_endtag s tag p) (depth_after p.skip_depth (end_tag tag))
  unfolding handle_endtag
  endtag-Reads tag p = record { title = ground arith; text = ground arith; depth = ground arith }

  data-Reads :
      (text : Text) (p : Parser) → 0 < p.skip_depth → Reads p (handle_data s text p) p.skip_depth
  unfolding handle_data
  data-Reads text p inside = elim (Bool-cases (p.skip_depth == 0)) [
    | inl out ↦ absurd (ground arith)
    | inr hidden ↦ simp hidden (unread p)
  ]

  handle-Reads :
      (e : Event) (p : Parser)
      → 0 < p.skip_depth
      → Reads p (handle s e p) (depth_after p.skip_depth e)
  unfolding handle
  handle-Reads (start_tag tag attrs) p inside = starttag-Reads tag attrs p
  handle-Reads (end_tag tag) p inside = endtag-Reads tag p
  handle-Reads (page_data text) p inside = data-Reads text p inside

  -- Nothing is read between the start of a script, a style or the like and its end: as long as the
  -- tags leave an element of these open, a page adds neither to the title nor to the text, and the
  -- parser knows how many of them are open.
  pub hidden_text_unread :
      (es : List Event) (p : Parser)
      → StaysHidden p.skip_depth es
      → Reads p (feed s es p) (depth_after_all p.skip_depth es)
  unfolding feed
  hidden_text_unread [] p hidden = unread p
  hidden_text_unread (e ∷ es) p (inside, hidden) =
      let h = handle-Reads e p inside in
      let rest = hidden_text_unread es (handle s e p) (rw h.depth hidden) in
      record {
        title = rest.title ∙ h.title;
        text = rest.text ∙ h.text;
        depth = rest.depth ∙ rw h.depth refl;
      }
