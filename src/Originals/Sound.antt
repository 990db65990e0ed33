-- ===== src/Originals/Sound.antt =====
-- What each statement keeps of the tables of sources and blobs.
use ahmed_agent.Base.{
  ℕ, ◌≡◌, inl, inr, refl, sym, ◌∙◌, Bool, true, Option, none, some, String, List, [], ◌∷◌, str_eq,
  eq_iff, is_some, arith, Bool-cases,
}
use ahmed_agent.Base.Table.{select, update, updated, delete, select-update, select-delete-none}
use ahmed_agent.Files.{Text}
use ahmed_agent.Schema.{Db, Blob, Source}
use ahmed_agent.Originals.{
  by_source, by_key, refers_to, storage_object_key, NewSource, insert_blob, delete_blob,
  delete_source,
}
use ahmed_agent.Originals.View.{IsSound, inserted, kept_blob}

-- What is found after a DELETE was there before.
found_before :
    {A : Type 0} (test gone : A → Bool) (rs : List A)
    → is_some (select test (delete gone rs)) ≡ true
    → is_some (select test rs) ≡ true
found_before test gone [] h = h
found_before test gone (r ∷ rs) h = ground (arith, found_before test gone rs)

no_blob :
    (blobs : List Blob) (key key' : String)
    → str_eq key key' ≡ true
    → select (by_key key) (delete (by_key key') blobs) ≡ none
no_blob blobs key key' same =
    select-delete-none (by_key key) (by_key key')
      (λ b is.
        ground (
          arith,
          eq_iff key key',
          eq_iff b.storage_object_key key,
          eq_iff b.storage_object_key key',
        ))
      blobs

abbrev pub with_status : ℕ → String → Db → Db
with_status id status db = record db {
  sources = update (by_source id) (λ s. record s { extraction_status = status }) db.sources;
}

module _ (sha256 : Text → String) where
  pub inserted-IsSound :
      (n : NewSource) (now : ℕ) (db : Db)
      → IsSound sha256 db
      → IsSound sha256 (inserted sha256 n now db)
  unfolding inserted insert_blob
  inserted-IsSound n now db sound =
      let key' = storage_object_key sha256 n.bytes in
      record {
        linked = λ key found. ground (arith, eq_iff key' key, eq_iff key' key', sound.linked key);
        hashed = λ key b found. ground (arith, eq_iff key' key, sound.hashed key b);
      }

  deleted-IsSound :
      (id : ℕ) (db : Db)
      → IsSound sha256 db
      → IsSound sha256 (record db { sources = delete (by_source id) db.sources })
  deleted-IsSound id db sound = record {
    linked = λ key found.
        sound.linked key (found_before (refers_to key) (by_source id) db.sources found);
    hashed = sound.hashed;
  }

  delete_blob-IsSound :
      (gone : Option Source) (db : Db) → IsSound sha256 db → IsSound sha256 (delete_blob gone db)
  unfolding delete_blob
  delete_blob-IsSound none db sound = sound
  delete_blob-IsSound (some s) db sound =
      let key' = s.storage_object_key in
      elim (Bool-cases (is_some (select (refers_to key') db.sources))) [
        | inl needed ↦ rw needed sound
        | inr unneeded ↦ rw unneeded (record {
          linked = λ key found. elim (Bool-cases (str_eq key key')) [
            | inl same ↦ cc (unneeded, found, (eq_iff key key').0 same)
            | inr differ ↦ rw (kept_blob db.blobs key key' differ) (sound.linked key found)
          ];
          hashed = λ key b found. elim (Bool-cases (str_eq key key')) [
            | inl same ↦ cc (found, no_blob db.blobs key key' same)
            | inr differ ↦ sound.hashed key b (sym (kept_blob db.blobs key key' differ) ∙ found)
          ];
        })
      ]

  pub delete_source-IsSound :
      (id : ℕ) (db : Db) → IsSound sha256 db → IsSound sha256 (delete_source id db)
  unfolding delete_source
  delete_source-IsSound id db sound =
      delete_blob-IsSound (select (by_source id) db.sources) _ (deleted-IsSound id db sound)

  pub with_status-IsSound :
      (id : ℕ) (status : String) (db : Db)
      → IsSound sha256 db
      → IsSound sha256 (with_status id status db)
  with_status-IsSound id status db sound = record {
    linked = λ key found. sound.linked key (
        still (select (refers_to key) db.sources) (
          rw
            (select-update (refers_to key) (by_source id)
              (λ s. record s { extraction_status = status }) (λ s. refl) db.sources)
            at found));
    hashed = sound.hashed;
  }
    where
      still :
          (o : Option Source)
          → is_some (updated (by_source id) (λ s. record s { extraction_status = status }) o) ≡ true
          → is_some o ≡ true
      still none h = h
      still (some s) h = refl
