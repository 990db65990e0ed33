-- ===== src/Originals/Durable.antt =====
-- What a reader of an original gets.
use mathlib.Core.Option.{some-injective}
use ahmed_agent.Base.{
  ℕ, ◌≡◌, ◌≢◌, ◌⊎◌, inl, inr, refl, sym, ◌∙◌, ap, Bool, true, false, Option, none, some, String,
  List, str_eq, eq_iff, if◌then◌else◌, Bool-cases, ==_iff, All,
}
use ahmed_agent.Base.Table.{select}
use ahmed_agent.Files.{Text}
use ahmed_agent.Schema.{Db, Blob, Source}
use ahmed_agent.Exec.{World, ok, err, persistence_error, value_error}
use ahmed_agent.Exec.Returns.{Returns, Returns-if, Returns-raise, Returns-transact}
use ahmed_agent.Exec.Ensures.{Ensures, Failing, Ensures-bind, Ensures-pure, Ensures-statements}
use ahmed_agent.Originals.{
  by_source, by_key, NewSource, create_original_source, read_authorized_original_source, Reading,
  authorized, denied, read_row, owns, insert_source, is_empty_text, is_no_bytes,
}
use ahmed_agent.Originals.View.{
  IsSound, Original, view, given, Collision, inserted_lem, inserted-refines, with_blob, original_of,
}
use ahmed_agent.Originals.Sound.{inserted-IsSound}
use ahmed_agent.Originals.Keep.{SourceCall, Spares, IsStored, serve, serve-IsStored}

-- The owner is shown the original's bytes, and anybody else is denied.
abbrev pub Answers : Original → Option String → Reading → Type 0
Answers o owner r =
    ((owner ≡ some o.owner_principal_id)
      × ((s : Source) × (b : Blob) × (r ≡ authorized s (some b)) × (b.content ≡ o.bytes)))
    ⊎ ((owner ≢ some o.owner_principal_id) × (r ≡ denied))

-- The row of a stored original, with its blob.
row_of :
    (db : Db) (o : Original) (row : Option Source)
    → with_blob db.blobs row ≡ some o
    → (s : Source) × (b : Blob) × (row ≡ some s)
      × (select (by_key s.storage_object_key) db.blobs ≡ some b)
      × (o ≡ record {
        owner_principal_id = s.owner_principal_id;
        available = s.original_available;
        bytes = b.content;
      })
row_of db o none e = absurd (cc e)
row_of db o (some s) e = found (select (by_key s.storage_object_key) db.blobs) refl e
  where
    found :
        (blob : Option Blob)
        → select (by_key s.storage_object_key) db.blobs ≡ blob
        → original_of s blob ≡ some o
        → (t : Source) × (b : Blob) × (◌≡◌ {A = Option Source} (some s) (some t))
          × (select (by_key t.storage_object_key) db.blobs ≡ some b)
          × (o ≡ record {
            owner_principal_id = t.owner_principal_id;
            available = t.original_available;
            bytes = b.content;
          })
    found none is e = absurd (cc e)
    found (some b) is e = (s, b, refl, is, sym (some-injective _ _ e))

owns_iff :
    (owner : Option String) (s : Source)
    → is_empty_text s.owner_principal_id ≡ false
    → ((owns owner s ≡ true) × (owner ≡ some s.owner_principal_id))
      ⊎ ((owns owner s ≡ false) × (owner ≢ some s.owner_principal_id))
owns_iff none s named = inr (refl, λ e. cc e)
owns_iff (some principal) s named = elim (Bool-cases (str_eq s.owner_principal_id principal)) [
  | inl same ↦ inl (
    rw (← (eq_iff s.owner_principal_id principal).0 same)
        (rw (named, (eq_iff s.owner_principal_id s.owner_principal_id).1 refl) refl),
    ap some (sym ((eq_iff s.owner_principal_id principal).0 same)),
  )
  | inr differ ↦ inr (
    refuses (is_empty_text principal) (str_eq s.owner_principal_id principal) differ,
    λ e. cc (differ, (eq_iff s.owner_principal_id principal).1 (sym (some-injective _ _ e))),
  )
]
  where
    refuses : (a b : Bool) → b ≡ false → (if a then false else b) ≡ false
    refuses true b e = refl
    refuses false b e = e

module _ (sha256 : Text → String) (id : ℕ) (o : Original) (owner : Option String)
    (named : is_empty_text o.owner_principal_id ≡ false) (available : o.available ≡ true) where
  answer :
      (db : Db) (s : Source) (b : Blob)
      → select (by_key s.storage_object_key) db.blobs ≡ some b
      → o ≡ record {
        owner_principal_id = s.owner_principal_id;
        available = s.original_available;
        bytes = b.content;
      }
      → Ensures Failing
          (λ db'. db' ≡ db)
          (read_row owner (some s))
          (λ r db'. Answers o owner r)
          (λ db'. Unit)
  answer db s b is same =
      elim (owns_iff owner s
        (ap (λ (x : Original). is_empty_text x.owner_principal_id) (sym same) ∙ named)) [
          | inl (mine, e) ↦
              simp (mine, ap (λ (x : Original). x.available) (sym same) ∙ available)
                (Ensures-statements _ _ _ _ _ refl (λ db' h. tt)
                  (λ now db' h. inl (
                    e ∙ ap (λ (x : Original). some x.owner_principal_id) (sym same),
                    (s, b, rw (h, is) refl, ap (λ (x : Original). x.bytes) (sym same)),
                  )))
          | inr (other, e) ↦ simp other (
              Ensures-pure _ _ _ _ denied (λ db' h.
                inr (λ p. e (p ∙ ap (λ (x : Original). some x.owner_principal_id) same), refl)))
        ]

  -- The row that a lookup has found is the one of the stored original.
  answer_row :
      (row : Option Source) (db : Db)
      → with_blob db.blobs row ≡ some o
      → Ensures Failing
          (λ db'. db' ≡ db)
          (read_row owner row)
          (λ r db'. Answers o owner r)
          (λ db'. Unit)
  answer_row row db e =
      let (s, b, found, is, same) = row_of db o row e in rw found (answer db s b is same)

  read-Answers :
      (db : Db)
      → view db id ≡ some o
      → Ensures Failing
          (λ db'. db' ≡ db)
          (read_authorized_original_source id owner)
          (λ r db'. Answers o owner r)
          (λ db'. Unit)
  unfolding read_authorized_original_source
  read-Answers db stored =
      Ensures-bind _ _ (λ row db'. (db' ≡ db) × (row ≡ select (by_source id) db.sources)) _ _ _ _
        (Ensures-statements _ _ _ _ _ refl (λ db' h. tt)
          (λ now db' h. (h, ap (λ (d : Db). select (by_source id) d.sources) h)))
        (λ row. record { ends = λ w h. (answer_row row w.db (rw (h.1, h.0) stored)).ends w refl })

module _ (sha256 : Text → String) (n : NewSource) where
  abbrev pub Created : Source → Db → Type 0
  Created s db =
      (is_empty_text n.owner_principal_id ≡ false)
      × (IsStored sha256 n.source_id (given sha256 n) db ⊎ Collision sha256)

  pub inserted-Created :
      (now : ℕ) (db : Db) (s : Source) (db' : Db)
      → is_empty_text n.owner_principal_id ≡ false
      → IsSound sha256 db
      → insert_source sha256 n now db ≡ some (s, db')
      → Created s db'
  inserted-Created now db s db' named sound e =
      let (new, is) = inserted_lem sha256 n now db db' s e in
      (
        named,
        rw is (elim (inserted-refines sha256 n now db sound) [
          | inr collision ↦ inr collision
          | inl refines ↦ inl (record {
            sound = inserted-IsSound sha256 n now db sound;
            stored = refines n.source_id ∙ rw ((==_iff n.source_id n.source_id).1 refl) refl;
          })
        ]),
      )

  -- What a creation leaves where it returns.
  created : Returns (IsSound sha256) (create_original_source sha256 n) Created
  unfolding create_original_source
  created =
      Returns-if _ _ (is_empty_text n.owner_principal_id) _ _ (λ e. Returns-raise _ _ value_error)
        (λ named.
          Returns-if _ _ (is_no_bytes n.bytes) _ _ (λ e. Returns-raise _ _ value_error)
            (λ e.
              Returns-transact _ _ (insert_source sha256 n)
                (λ now db s db' sound ran. inserted-Created now db s db' named sound ran)))

-- An original that was created is there after any calls that do not delete its source, whatever they
-- are and whatever fails: its owner reads exactly the bytes that were given, and anybody else is
-- denied, unless the database fails while it is read, or two different contents have the same key.
-- The tables are sound before.
pub original_durable :
    (sha256 : Text → String) (n : NewSource) (w : World) (s : Source)
    → IsSound sha256 w.db
    → (create_original_source sha256 n w).0 ≡ ok s
    → (calls : List SourceCall) → All (Spares n.source_id) calls
    → (owner : Option String)
    → ((r : Reading) × ((read_authorized_original_source n.source_id owner
            (serve sha256 calls (create_original_source sha256 n w).1)).0
          ≡ ok r)
        × Answers (given sha256 n) owner r)
      ⊎ ((read_authorized_original_source n.source_id owner
            (serve sha256 calls (create_original_source sha256 n w).1)).0
          ≡ err persistence_error)
      ⊎ Collision sha256
original_durable sha256 n w s sound e calls spared owner =
    let (named, stored) = (created sha256 n).leaves w sound s e in
    elim stored [
      | inr collision ↦ inr (inr collision)
      | inl there ↦
          let kept =
            serve-IsStored sha256 n.source_id (given sha256 n) calls
              (create_original_source sha256 n w).1 spared there in
          elim ((read-Answers sha256 n.source_id (given sha256 n) owner named refl _
              kept.stored).ends
            (serve sha256 calls (create_original_source sha256 n w).1) refl) [
              | inl (r, returned, answers) ↦ inl (r, returned, answers)
              | inr (error, raised, is, _) ↦ inr (inl (raised ∙ ap err is))
            ]
    ]
