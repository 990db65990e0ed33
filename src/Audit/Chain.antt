-- ===== src/Audit/Chain.antt =====
-- The hash chain: what an append keeps, and what the verifier accepts.
use mathlib.Core.List.{reverse, reverse-cons}
use ahmed_agent.Base.Json.{or_object_idem}
use ahmed_agent.Base.{
  All, ap, ℕ, String, zero, suc, ◌≡◌, refl, sym, ◌∙◌, ◌↔◌, true, Option, none, some, List, [], ◌∷◌,
  ◌++◌, arith, length, take, min, length-take, length-append, eq_iff, str_eq, ◌&&◌,
}
use ahmed_agent.Schema.{Db, Payload, AuditEvent}
use ahmed_agent.Audit.{
  Hashing, NewEvent, with_previous, head_hash, event_digest, append_audit_event, same_hash, linked,
  verify_from, verify_window, verify_rows,
}

length-reverse {ℓ} : {A : Type ℓ} (xs : List A) → length (reverse xs) ≡ length xs
length-reverse [] = refl
length-reverse (x ∷ xs) =
    rw reverse-cons (omega (arith, length-append (reverse xs) (x ∷ []), length-reverse xs))

same_hash_iff : (a b : Option String) → (same_hash a b ≡ true) ↔ (a ≡ b)
same_hash_iff none none = (λ _. refl, λ _. refl)
same_hash_iff none (some b) = ground arith
same_hash_iff (some a) none = ground arith
same_hash_iff (some a) (some b) = ground (arith, eq_iff a b)

-- What the verifier hashes of a row that names the right hash.
abbrev pub normal : Payload → Payload
normal p = linked p.previous_hash p

-- The hash that the next event names, after `es`, newest first, on a chain that stood at `start`.
abbrev pub last_hash : Option String → List AuditEvent → Option String
last_hash start [] = start
last_hash start (e ∷ _) = some e.event_hash

head_hash-eq-last_hash : (es : List AuditEvent) → head_hash es ≡ last_hash none es
head_hash-eq-last_hash [] = refl
head_hash-eq-last_hash (e ∷ es) = refl

module _ (h : Hashing) where
  -- Events, newest first: each names the hash of the one before it and carries its own. Before
  -- the oldest of them the chain stands at `start`.
  abbrev pub IsChainedFrom : Option String → List AuditEvent → Type 0
  IsChainedFrom start [] = Unit
  IsChainedFrom start (e ∷ es) =
      (e.payload.previous_hash ≡ last_hash start es)
      × (e.event_hash ≡ event_digest h (normal e.payload))
      × IsChainedFrom start es

  -- A window, oldest first, that continues a chain whose last hash is `previous_hash`.
  abbrev pub IsLinked : Option String → List AuditEvent → Type 0
  IsLinked previous_hash [] = Unit
  IsLinked previous_hash (e ∷ es) =
      (e.payload.previous_hash ≡ previous_hash)
      × (e.event_hash ≡ event_digest h (normal e.payload))
      × IsLinked (some e.event_hash) es

  -- The whole log: a chain from its first event, in which each event carries the hash of its row.
  abbrev pub IsChained : List AuditEvent → Type 0
  IsChained es =
      IsChainedFrom none es × All (λ (e : AuditEvent). e.event_hash ≡ event_digest h e.payload) es

  normal_new :
      (e : NewEvent) (previous_hash : Option String)
      → normal (with_previous e previous_hash) ≡ with_previous e previous_hash
  normal_new e previous_hash =
      ap (λ j. record (with_previous e previous_hash) { safe_metadata = j })
        (or_object_idem e.safe_metadata)

  -- If the audit log is a chain from its first event, then it is one after an append too.
  pub append-IsChained :
      (e : NewEvent) (now : ℕ) (db : Db)
      → IsChained db.audit
      → IsChained (append_audit_event h e now db).1.audit
  unfolding append_audit_event
  append-IsChained e now db (chained, hashed) = (
    (
      head_hash-eq-last_hash db.audit,
      ap (event_digest h) (sym (normal_new e (head_hash db.audit))),
      chained,
    ),
    (refl, hashed),
  )

  row_accepted_iff :
      (e : AuditEvent) (p : Option String)
      → ((same_hash e.payload.previous_hash p
            && str_eq e.event_hash (event_digest h (linked p e.payload)))
          ≡ true)
        ↔ ((e.payload.previous_hash ≡ p) × (e.event_hash ≡ event_digest h (normal e.payload)))
  row_accepted_iff e p = (
    λ b.
        let same = (same_hash_iff e.payload.previous_hash p).0 (ground arith) in
        (same, (eq_iff _ _).0 (rw same (ground arith))),
    λ l. rw (← l.0) (
        ground (
          arith,
          same_hash_iff e.payload.previous_hash e.payload.previous_hash,
          eq_iff e.event_hash (event_digest h (normal e.payload)),
        )),
  )

  pub verify_from_iff :
      (previous_hash : Option String) (rows : List AuditEvent)
      → (verify_from h previous_hash rows ≡ true) ↔ IsLinked previous_hash rows
  unfolding verify_from
  verify_from_iff p [] = (λ _. tt, λ _. refl)
  verify_from_iff p (e ∷ es) = (
    λ v. ground (arith, row_accepted_iff e p, verify_from_iff (some e.event_hash) es),
    λ l. ground (arith, row_accepted_iff e p, verify_from_iff (some e.event_hash) es),
  )

  pub end_hash : Option String → List AuditEvent → Option String
  end_hash p [] = p
  end_hash p (e ∷ es) = end_hash (some e.event_hash) es

  end_hash-concat :
      (p : Option String) (es : List AuditEvent) (e : AuditEvent)
      → end_hash p (es ++ e ∷ []) ≡ some e.event_hash
  unfolding end_hash
  end_hash-concat p [] e = refl
  end_hash-concat p (x ∷ es) e = end_hash-concat (some x.event_hash) es e

  IsLinked-concat :
      (p : Option String) (es : List AuditEvent) (e : AuditEvent)
      → IsLinked p (es ++ e ∷ []) ↔ (
          IsLinked p es
          × (e.payload.previous_hash ≡ end_hash p es)
          × (e.event_hash ≡ event_digest h (normal e.payload)))
  unfolding end_hash
  IsLinked-concat p [] e = (λ l. (tt, l.0, l.1), λ l. (l.1, l.2, tt))
  IsLinked-concat p (x ∷ es) e =
      let ih = IsLinked-concat (some x.event_hash) es e in
      (
        λ l. let r = ih.0 l.2 in ((l.0, l.1, r.0), r.1, r.2),
        λ l. (l.0.0, l.0.1, ih.1 (l.0.2, l.1, l.2)),
      )

  IsLinked-reverse :
      (start : Option String) (es : List AuditEvent)
      → IsChainedFrom start es
      → IsLinked start (reverse es) × (end_hash start (reverse es) ≡ last_hash start es)
  unfolding end_hash
  IsLinked-reverse start [] c = (tt, refl)
  IsLinked-reverse start (e ∷ es) c =
      let ih = IsLinked-reverse start es c.2 in
      rw reverse-cons (
        (IsLinked-concat start (reverse es) e).1 (ih.0, c.0 ∙ sym ih.1, c.1),
        end_hash-concat start (reverse es) e,
      )

  pub IsChainedFrom-reverse :
      (start : Option String) (es : List AuditEvent)
      → IsLinked start (reverse es)
      → IsChainedFrom start es × (end_hash start (reverse es) ≡ last_hash start es)
  unfolding end_hash
  IsChainedFrom-reverse start [] c = (tt, refl)
  IsChainedFrom-reverse start (e ∷ es) c =
      let l = (IsLinked-concat start (reverse es) e).0 (rw reverse-cons at c) in
      let ih = IsChainedFrom-reverse start es l.0 in
      ((l.1 ∙ ih.1, l.2, ih.0), rw reverse-cons (end_hash-concat start (reverse es) e))

  -- The first event of a window names its anchor.
  abbrev pub anchor : List AuditEvent → Option String
  anchor [] = none
  anchor (e ∷ _) = e.payload.previous_hash

  pub verify_window_iff :
      (rows : List AuditEvent) → (verify_window h rows ≡ true) ↔ IsLinked (anchor rows) rows
  unfolding verify_window
  verify_window_iff [] = (λ _. tt, λ _. refl)
  verify_window_iff (e ∷ es) = verify_from_iff e.payload.previous_hash (e ∷ es)

  IsLinked-anchor :
      (start : Option String) (rows : List AuditEvent)
      → IsLinked start rows
      → IsLinked (anchor rows) rows
  IsLinked-anchor start [] l = tt
  IsLinked-anchor start (e ∷ es) l = (refl, l.1, l.2)

  -- Where the chain stands before the newest `n` events.
  before : ℕ → List AuditEvent → Option String
  before zero es = head_hash es
  before (suc n) [] = none
  before (suc n) (e ∷ es) = before n es

  last_hash-before :
      (n : ℕ) (es : List AuditEvent) → last_hash (before n es) (take n es) ≡ last_hash none es
  unfolding before
  last_hash-before zero es = head_hash-eq-last_hash es
  last_hash-before (suc n) [] = refl
  last_hash-before (suc n) (e ∷ es) = refl

  take-IsChainedFrom :
      (n : ℕ) (es : List AuditEvent)
      → IsChainedFrom none es
      → IsChainedFrom (before n es) (take n es)
  unfolding before
  take-IsChainedFrom zero es c = tt
  take-IsChainedFrom (suc n) [] c = tt
  take-IsChainedFrom (suc n) (e ∷ es) c =
      (c.0 ∙ sym (last_hash-before n es), c.1, take-IsChainedFrom n es c.2)

  -- A log that is a chain is verified over every window, which has the newest `limit` events, or
  -- all of them where there are fewer.
  pub verify_rows_complete :
      (limit : ℕ) (es : List AuditEvent)
      → IsChained es
      → ((verify_rows h limit (reverse (take limit es))).verified ≡ true)
        × ((verify_rows h limit (reverse (take limit es))).event_count ≡ min limit (length es))
  unfolding verify_rows
  verify_rows_complete limit es c =
      let linked_rows = IsLinked-reverse _ _ (take-IsChainedFrom limit es c.0) in
      let ok = (verify_window_iff _).1 (IsLinked-anchor _ _ linked_rows.0) in
      rw ok (refl, length-reverse (take limit es) ∙ length-take limit es)
