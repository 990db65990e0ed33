-- ===== src/Originals/View.antt =====
-- The store of originals as its callers see it: an owner and bytes under each source id, though the
-- bytes of several sources are one blob. Each statement does to that view what its name says.
use native.Mathlib.Decide.{ℕ_discrete}
use mathlib.Core.Option.{some-injective}
use ahmed_agent.Base.{
  ℕ, ◌≡◌, ◌≢◌, ◌⊎◌, inl, inr, refl, sym, ◌∙◌, Bool, true, false, Option, none, some, String, List,
  ◌∷◌, ◌==◌, ap, str_eq, eq_iff, is_some, arith, if◌then◌else◌, Bool-cases, Option-cases,
}
use ahmed_agent.Base.Table.{select, delete, select_found, select-delete, select-delete-none}
use ahmed_agent.Files.{Text}
use ahmed_agent.Schema.{Db, Blob, Source}
use ahmed_agent.Originals.{
  by_source, by_key, refers_to, storage_object_key, new_source, NewSource, insert_blob,
  insert_source, delete_blob, delete_source,
}

Text-discrete : Discrete Text
Text-discrete = hlevel ℕ_discrete

pub record Original : Type 0 where
  pub owner_principal_id : String
  pub available : Bool
  pub bytes : Text

abbrev pub original_of : Source → Option Blob → Option Original
original_of s none = none
original_of s (some b) = some (record {
  owner_principal_id = s.owner_principal_id;
  available = s.original_available;
  bytes = b.content;
})

abbrev pub with_blob : List Blob → Option Source → Option Original
with_blob blobs none = none
with_blob blobs (some s) = original_of s (select (by_key s.storage_object_key) blobs)

-- The original under a source id.
abbrev pub view : Db → ℕ → Option Original
view db id = with_blob db.blobs (select (by_source id) db.sources)

-- The abstract store, with what each operation does to it.
abbrev pub Store : Type 0
Store = ℕ → Option Original

abbrev pub put : ℕ → Original → Store → Store
put id o store x = if id == x then some o else store x

abbrev pub remove : ℕ → Store → Store
remove id store x = if id == x then none else store x

-- Two texts that differ as keys are not the key of one row.
apart_keys :
    (k k' : String) (b : Blob) → str_eq k k' ≡ false → by_key k b ≡ true → by_key k' b ≡ false
apart_keys k k' b differ same =
    ground (arith, eq_iff k k', eq_iff b.storage_object_key k, eq_iff b.storage_object_key k')

-- The blobs that a source needs stay when others are deleted.
pub kept_blob :
    (blobs : List Blob) (k k' : String)
    → str_eq k k' ≡ false
    → select (by_key k) (delete (by_key k') blobs) ≡ select (by_key k) blobs
kept_blob blobs k k' differ =
    select-delete (by_key k) (by_key k') (λ b same. apart_keys k k' b differ same) blobs

-- The blobs after the DELETE of those that no source needs, looked at by a source that is left.
delete_blob_view :
    (gone : Option Source) (db : Db) (x : ℕ) (left : Option Source)
    → select (by_source x) db.sources ≡ left
    → with_blob (delete_blob gone db).blobs left ≡ with_blob db.blobs left
unfolding delete_blob
delete_blob_view none db x left e = refl
delete_blob_view (some s) db x none e = refl
delete_blob_view (some s) db x (some l) e =
    elim (Bool-cases (is_some (select (refers_to s.storage_object_key) db.sources))) [
      | inl needed ↦ rw needed refl
      | inr unneeded ↦ elim (Bool-cases (str_eq l.storage_object_key s.storage_object_key)) [
        | inl same ↦ cc (
          unneeded,
          select_found (by_source x) (refers_to s.storage_object_key) db.sources l e same,
        )
        | inr differ ↦ rw unneeded (
            ap (original_of l)
              (kept_blob db.blobs l.storage_object_key s.storage_object_key differ))
      ]
    ]

pub delete_blob-sources :
    (gone : Option Source) (db : Db) → (delete_blob gone db).sources ≡ db.sources
unfolding delete_blob
delete_blob-sources none db = refl
delete_blob-sources (some s) db = ground arith

-- A source is not found under two ids.
apart_ids :
    (x id : ℕ) (s : Source) → (id == x) ≡ false → by_source x s ≡ true → by_source id s ≡ false
apart_ids x id s differ same = ground arith

same_ids : (x id : ℕ) (s : Source) → (id == x) ≡ true → by_source x s ≡ true → by_source id s ≡ true
same_ids x id s same found = ground arith

-- A DELETE takes away the original of its id and no other, though a blob may go with it.
pub delete_source-refines :
    (id : ℕ) (db : Db) (x : ℕ) → view (delete_source id db) x ≡ remove id (view db) x
unfolding delete_source
delete_source-refines id db x =
    let gone = select (by_source id) db.sources in
    let rest = record db { sources = delete (by_source id) db.sources } in
    rw (delete_blob-sources gone rest) (elim (Bool-cases (id == x)) [
      | inl same ↦
          rw
            (
              same,
              select-delete-none (by_source x) (by_source id)
                  (λ s found. same_ids x id s same found) db.sources,
            )
            refl
      | inr differ ↦ rw differ (
          delete_blob_view gone rest x (select (by_source x) rest.sources) refl
          ∙ ap (with_blob db.blobs) (
              select-delete (by_source x) (by_source id) (λ s found. apart_ids x id s differ found)
                db.sources))
    ])

not_refused :
    {A : Type 0} (b : Bool) (a a' : A)
    → (if b then none else some a) ≡ some a'
    → (b ≡ false) × (a ≡ a')
not_refused true a a' e = absurd (cc e)
not_refused false a a' e = (refl, some-injective _ _ e)

module _ (sha256 : Text → String) where
  -- Two different contents that are stored under the same key.
  pub record Collision : Type 0 where
    pub left : Text
    pub right : Text
    pub differ : left ≢ right
    pub collide : storage_object_key sha256 left ≡ storage_object_key sha256 right

  -- Every source has its blob, and every blob stands under the key of its content.
  pub record IsSound (db : Db) : Type 0 where
    pub linked :
        (key : String)
        → is_some (select (refers_to key) db.sources) ≡ true
        → is_some (select (by_key key) db.blobs) ≡ true
    pub hashed :
        (key : String) (b : Blob)
        → select (by_key key) db.blobs ≡ some b
        → storage_object_key sha256 b.content ≡ key

  source_blob :
      (db : Db) (x : ℕ) (s : Source)
      → IsSound db
      → select (by_source x) db.sources ≡ some s
      → is_some (select (by_key s.storage_object_key) db.blobs) ≡ true
  source_blob db x s sound e = sound.linked s.storage_object_key (
      select_found (by_source x) (refers_to s.storage_object_key) db.sources s e
        ((eq_iff s.storage_object_key s.storage_object_key).1 refl))

  -- A new blob hides none that a source needs.
  insert_blob_view :
      (bytes : Text) (db : Db) (x : ℕ) (l : Option Source)
      → IsSound db
      → select (by_source x) db.sources ≡ l
      → with_blob (insert_blob sha256 bytes db.blobs) l ≡ with_blob db.blobs l
  unfolding insert_blob
  insert_blob_view bytes db x none sound e = refl
  insert_blob_view bytes db x (some s) sound e =
      let key = storage_object_key sha256 bytes in
      elim (Bool-cases (is_some (select (by_key key) db.blobs))) [
        | inl there ↦ rw there refl
        | inr new ↦ elim (Bool-cases (str_eq key s.storage_object_key)) [
          | inl same ↦
              cc (new, source_blob db x s sound e, (eq_iff key s.storage_object_key).0 same)
          | inr differ ↦ rw (new, differ) refl
        ]
      ]

  abbrev pub given : NewSource → Original
  given n = record { owner_principal_id = n.owner_principal_id; available = true; bytes = n.bytes }

  -- The blob under the key of new bytes has those bytes.
  inserted_view :
      (n : NewSource) (now : ℕ) (db : Db)
      → IsSound db
      → (with_blob (insert_blob sha256 n.bytes db.blobs) (some (new_source sha256 n now))
          ≡ some (given n))
        ⊎ Collision
  unfolding insert_blob
  inserted_view n now db sound =
      elim (Option-cases (select (by_key (storage_object_key sha256 n.bytes)) db.blobs)) [
        | inl new ↦ inl (
            rw
              (
                new,
                (eq_iff (storage_object_key sha256 n.bytes) (storage_object_key sha256 n.bytes)).1
                    refl,
              )
              refl)
        | inr (b, there) ↦ elim (Text-discrete b.content n.bytes) [
          | yes same ↦ inl (rw (there, there, same) refl)
          | no differ ↦ inr (record {
            left = b.content;
            right = n.bytes;
            differ = differ;
            collide = sound.hashed (storage_object_key sha256 n.bytes) b there;
          })
        ]
      ]

  unfoldable pub inserted : NewSource → ℕ → Db → Db
  inserted n now db = record db {
    blobs = insert_blob sha256 n.bytes db.blobs;
    sources = new_source sha256 n now ∷ db.sources;
  }

  -- The database after an INSERT that is not refused: the id is new.
  pub inserted_lem :
      (n : NewSource) (now : ℕ) (db db' : Db) (s : Source)
      → insert_source sha256 n now db ≡ some (s, db')
      → (is_some (select (by_source n.source_id) db.sources) ≡ false) × (db' ≡ inserted n now db)
  unfolding insert_source inserted
  inserted_lem n now db db' s e =
      let (new, same) =
        not_refused (is_some (select (by_source n.source_id) db.sources)) _ (s, db') e in
      (new, sym (ap (λ (q : Source × Db). q.1) same))

  -- An INSERT leaves the originals under other ids.
  pub inserted-others :
      (n : NewSource) (now : ℕ) (db : Db) (x : ℕ)
      → IsSound db
      → (n.source_id == x) ≡ false
      → view (inserted n now db) x ≡ view db x
  unfolding inserted
  inserted-others n now db x sound differ =
      rw differ (insert_blob_view n.bytes db x (select (by_source x) db.sources) sound refl)

  -- An INSERT puts the original under its id and changes no other, or there is a collision.
  pub inserted-refines :
      (n : NewSource) (now : ℕ) (db : Db)
      → IsSound db
      → ((x : ℕ) → view (inserted n now db) x ≡ put n.source_id (given n) (view db) x) ⊎ Collision
  inserted-refines n now db sound = elim (inserted_view n now db sound) [
    | inr collision ↦ inr collision
    | inl stored ↦ inl (λ x. elim (Bool-cases (n.source_id == x)) [
      | inl same ↦ rw same (unfold inserted in rw same stored)
      | inr differ ↦ rw differ (inserted-others n now db x sound differ)
    ])
  ]
