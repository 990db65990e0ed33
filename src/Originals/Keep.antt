-- ===== src/Originals/Keep.antt =====
-- Calls on the originals by any clients, in any order and with any failures of the database.
use mathlib.Core.Path.{subst}
use mathlib.Core.Option.{some-injective}
use Prim.Native.String
use ahmed_agent.Base.{
  ℕ, ◌≡◌, inl, inr, refl, ◌∙◌, ap, Bool, true, false, Option, none, some, String, List, [], ◌∷◌,
  ◌==◌, is_some, if◌then◌else◌, Bool-cases, ==_iff, All, ltb,
}
use ahmed_agent.Base.Table.{select, updated, select-update}
use ahmed_agent.Files.{Text}
use ahmed_agent.Schema.{Db, Blob, Source}
use ahmed_agent.Exec.{World, value_error, transact, pure}
use ahmed_agent.Exec.Preserves.{
  Preserves, Preserves-transact, Preserves-bind, Preserves-pure, Preserves-raise, Preserves-if,
}
use ahmed_agent.Originals.{
  by_source, by_key, NewSource, insert_source, create_original_source, delete_original_source,
  update_original_source_extraction_status, read_authorized_original_source, authorized, denied,
  not_available, read_row, read_blob, owns, delete_source, is_empty_text, is_no_bytes,
}
use ahmed_agent.Originals.View.{
  IsSound, Original, view, inserted_lem, inserted-others, delete_source-refines, with_blob,
  original_of,
}
use ahmed_agent.Originals.Sound.{
  inserted-IsSound, delete_source-IsSound, with_status-IsSound, with_status,
}

pub data SourceCall : Type 0 where
  create : NewSource → SourceCall
  remove : ℕ → SourceCall
  set_status : ℕ → String → SourceCall
  read : ℕ → Option String → SourceCall

-- The call is not the DELETE of the source.
abbrev pub Spares : ℕ → SourceCall → Type 0
Spares id (remove x) = (x == id) ≡ false
Spares id (create n) = Unit
Spares id (set_status x status) = Unit
Spares id (read x owner) = Unit

-- An original is there, and the tables are sound.
pub record IsStored (sha256 : Text → String) (id : ℕ) (o : Original) (db : Db) : Type 0 where
  pub sound : IsSound sha256 db
  pub stored : view db id ≡ some o

-- A change of the status changes no original.
pub with_status-view :
    (x : ℕ) (status : String) (db : Db) (id : ℕ) → view (with_status x status db) id ≡ view db id
with_status-view x status db id =
    ap (with_blob db.blobs) (
      select-update (by_source id) (by_source x) (λ s. record s { extraction_status = status })
        (λ s. refl) db.sources)
    ∙ same (select (by_source id) db.sources)
  where
    same_row :
        (s : Source) (b : Bool)
        → with_blob db.blobs (some (if b then record s { extraction_status = status } else s))
          ≡ with_blob db.blobs (some s)
    same_row s true = same_original (select (by_key s.storage_object_key) db.blobs)
      where
        same_original :
            (b : Option Blob)
            → original_of (record s { extraction_status = status }) b ≡ original_of s b
        same_original none = refl
        same_original (some b) = refl
    same_row s false = refl

    same :
        (row : Option Source)
        → with_blob db.blobs
            (updated (by_source x) (λ s. record s { extraction_status = status }) row)
          ≡ with_blob db.blobs row
    same none = refl
    same (some s) = same_row s (by_source x s)

module _ (sha256 : Text → String) where
  -- The world after a call, whether it returned or raised.
  unfoldable pub after : SourceCall → World → World
  after (create n) w = (create_original_source sha256 n w).1
  after (remove id) w = (delete_original_source id w).1
  after (set_status id status) w = (update_original_source_extraction_status id status w).1
  after (read id owner) w = (read_authorized_original_source id owner w).1

  unfoldable pub serve : List SourceCall → World → World
  unfolding after
  serve [] w = w
  serve (c ∷ cs) w = serve cs (after c w)

  module _ (id : ℕ) (o : Original) where
    stored_row :
        (row : Option Source) (db : Db) → with_blob db.blobs row ≡ some o → is_some row ≡ true
    stored_row none db e = absurd (cc e)
    stored_row (some s) db e = refl

    insert_keeps :
        (n : NewSource) (now : ℕ) (db : Db) (s : Source) (db' : Db)
        → IsStored sha256 id o db
        → insert_source sha256 n now db ≡ some (s, db')
        → IsStored sha256 id o db'
    insert_keeps n now db s db' there e =
        let (new, is) = inserted_lem sha256 n now db db' s e in
        rw is (record {
          sound = inserted-IsSound sha256 n now db there.sound;
          stored = elim (Bool-cases (n.source_id == id)) [
            | inl same ↦ cc (
              new,
              (==_iff n.source_id id).0 same,
              stored_row (select (by_source id) db.sources) db there.stored,
            )
            | inr differ ↦ inserted-others sha256 n now db id there.sound differ ∙ there.stored
          ];
        })

    delete_keeps :
        (x : ℕ) (db : Db)
        → (x == id) ≡ false
        → IsStored sha256 id o db
        → IsStored sha256 id o (delete_source x db)
    delete_keeps x db differ there = record {
      sound = delete_source-IsSound sha256 x db there.sound;
      stored = delete_source-refines x db id ∙ rw differ there.stored;
    }

    pub status_keeps :
        (x : ℕ) (status : String) (db : Db)
        → IsStored sha256 id o db
        → IsStored sha256 id o (with_status x status db)
    status_keeps x status db there = record {
      sound = with_status-IsSound sha256 x status db there.sound;
      stored = with_status-view x status db id ∙ there.stored;
    }

    unchanged :
        {A : Type 0} (f : ℕ → Db → A)
        → Preserves (IsStored sha256 id o) (transact (λ now db. some (f now db, db)))
    unchanged {A} f = Preserves-transact _ _ (λ now db a db' there e.
        subst (λ (q : A × Db). IsStored sha256 id o q.1) (some-injective _ _ e) there)

    changed :
        (f : Db → Db)
        → ((db : Db) → IsStored sha256 id o db → IsStored sha256 id o (f db))
        → Preserves (IsStored sha256 id o) (transact (λ now db. some (tt, f db)))
    changed f keep = Preserves-transact _ _ (λ now db a db' there e.
        subst (λ (q : Unit {0} × Db). IsStored sha256 id o q.1) (some-injective _ _ e)
          (keep db there))

    create-keeps :
        (n : NewSource) → Preserves (IsStored sha256 id o) (create_original_source sha256 n)
    unfolding create_original_source
    create-keeps n =
        Preserves-if _ (is_empty_text n.owner_principal_id) _ _ (Preserves-raise _ value_error) (
          Preserves-if _ (is_no_bytes n.bytes) _ _ (Preserves-raise _ value_error)
            (Preserves-transact _ _ (insert_keeps n)))

    set_status-keeps :
        (x : ℕ) (status : String)
        → Preserves (IsStored sha256 id o) (update_original_source_extraction_status x status)
    unfolding update_original_source_extraction_status
    set_status-keeps x status =
        Preserves-if _ (is_empty_text status) _ _ (Preserves-raise _ value_error) (
          Preserves-if _ (ltb 64 (String.count status)) _ _ (Preserves-raise _ value_error)
            (changed (with_status x status) (status_keeps x status)))

    found_keeps :
        (s : Source) (mine available : Bool)
        → Preserves (IsStored sha256 id o) (
            if mine then if available then read_blob s else pure (not_available s) else pure denied)
    found_keeps s false available = Preserves-pure _ _
    found_keeps s true false = Preserves-pure _ _
    found_keeps s true true =
        unchanged (λ now db. authorized s (select (by_key s.storage_object_key) db.blobs))

    read_row_keeps :
        (owner : Option String) (row : Option Source)
        → Preserves (IsStored sha256 id o) (read_row owner row)
    read_row_keeps owner none = Preserves-pure _ _
    read_row_keeps owner (some s) = found_keeps s (owns owner s) s.original_available

    read-keeps :
        (x : ℕ) (owner : Option String)
        → Preserves (IsStored sha256 id o) (read_authorized_original_source x owner)
    unfolding read_authorized_original_source
    read-keeps x owner =
        Preserves-bind _ _ _ (unchanged (λ now db. select (by_source x) db.sources))
          (read_row_keeps owner)

    after-IsStored :
        (c : SourceCall) (w : World)
        → Spares id c
        → IsStored sha256 id o w.db
        → IsStored sha256 id o (after c w).db
    unfolding after delete_original_source
    after-IsStored (create n) w spares there = (create-keeps n).after w there
    after-IsStored (remove x) w spares there =
        (changed (delete_source x) (λ db h. delete_keeps x db spares h)).after w there
    after-IsStored (set_status x status) w spares there = (set_status-keeps x status).after w there
    after-IsStored (read x owner) w spares there = (read-keeps x owner).after w there

    pub serve-IsStored :
        (cs : List SourceCall) (w : World)
        → All (Spares id) cs
        → IsStored sha256 id o w.db
        → IsStored sha256 id o (serve cs w).db
    unfolding serve
    serve-IsStored [] w spares there = there
    serve-IsStored (c ∷ cs) w spares there =
        serve-IsStored cs (after c w) spares.1 (after-IsStored c w spares.0 there)
