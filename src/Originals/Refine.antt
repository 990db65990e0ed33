-- ===== src/Originals/Refine.antt =====
-- The tables of sources and blobs implement a plain store of originals by id.
use mathlib.Core.Path.{fun_ext}
use ahmed_agent.Base.{
  ℕ, ◌≡◌, ◌⊎◌, ap, inl, inr, refl, ◌∙◌, Bool, true, false, String, Option, none, some, List, [],
  ◌∷◌, ltb, if◌then◌else◌,
}
use Prim.Native.String
use ahmed_agent.Files.{Text}
use ahmed_agent.Schema.{Db, Source}
use ahmed_agent.Base.Table.{select}
use ahmed_agent.Exec.{Error, Exec, World, Result, ok, err, value_error, raise, pure, transact}
use ahmed_agent.Exec.Ensures.{
  EndsIn, Ensures, Ensures-pure, Ensures-raise, Ensures-bind, Ensures-statements, Ensures-transact,
}
use ahmed_agent.Originals.{
  by_key, NewSource, insert_source, delete_source, create_original_source, delete_original_source,
  update_original_source_extraction_status, read_authorized_original_source, authorized, denied,
  not_found, not_available, read_row, read_blob, owns, is_empty_text, is_no_bytes,
}
use ahmed_agent.Originals.View.{
  IsSound, Store, view, put, given, Collision, inserted_lem, inserted-refines,
  delete_source-refines,
}
use ahmed_agent.Originals.View
use ahmed_agent.Originals.Sound.{
  inserted-IsSound, delete_source-IsSound, with_status, with_status-IsSound,
}
use ahmed_agent.Originals.Keep.{
  SourceCall, create, remove, set_status, read, after, serve, with_status-view,
}

abbrev pub is_ok : {A : Type 0} → Result A → Bool
is_ok (ok a) = true
is_ok (err e) = false

module _ (sha256 : Text → String) where
  -- Whether a call returns.
  unfoldable pub returns : SourceCall → World → Bool
  returns (create n) w = is_ok (create_original_source sha256 n w).0
  returns (remove id) w = is_ok (delete_original_source id w).0
  returns (set_status id status) w = is_ok (update_original_source_extraction_status id status w).0
  returns (read id owner) w = is_ok (read_authorized_original_source id owner w).0

  -- What a call that returns does to the store: a creation puts an original under its id, a deletion
  -- removes it, and the other calls change nothing.
  abbrev pub change_of : SourceCall → Store → Store
  change_of (create n) = put n.source_id (given sha256 n)
  change_of (remove id) = View.remove id
  change_of (set_status id status) = λ store. store
  change_of (read id owner) = λ store. store

  -- A call that raises changes nothing.
  abbrev pub meaning : SourceCall → Bool → Store → Store
  meaning c returned = if returned then change_of c else λ store. store

  unfoldable pub meaning_all : List SourceCall → World → Store → Store
  meaning_all [] w store = store
  meaning_all (c ∷ cs) w store = meaning_all cs (after sha256 c w) (meaning c (returns c w) store)

  -- A call from `db` that changes the store by `change` where it returns.
  abbrev Done : (Store → Store) → Db → Db → Type 0
  Done change db db' =
      IsSound sha256 db' × (((x : ℕ) → view db' x ≡ change (view db) x) ⊎ Collision sha256)

  abbrev AnyError : Error → Type 0
  AnyError e = Unit

  abbrev Does : {A : Type 0} → (Store → Store) → Db → Exec A → Type 0
  Does change db m =
      Ensures AnyError (λ db'. db' ≡ db) m (λ a db'. Done change db db') (λ db'. db' ≡ db)

  same_store : (db : Db) → IsSound sha256 db → (db' : Db) → db' ≡ db → Done (λ store. store) db db'
  same_store db sound db' e = rw e (sound, inl (λ x. refl))

  reads :
      {A : Type 0} (f : ℕ → Db → A) (db : Db)
      → IsSound sha256 db
      → Does (λ store. store) db (transact (λ now db'. some (f now db', db')))
  reads f db sound =
      Ensures-statements _ _ _ _ _ tt (λ db' h. h) (λ now db' h. same_store db sound db' h)

  changes :
      (change : Store → Store) (f : Db → Db) (db : Db)
      → IsSound sha256 (f db)
      → ((x : ℕ) → view (f db) x ≡ change (view db) x)
      → Does change db (transact (λ now db'. some (tt, f db')))
  changes change f db sound is =
      Ensures-statements _ _ _ _ _ tt (λ db' h. h) (λ now db' h. rw h (sound, inl is))

  guarded :
      {A : Type 0} (change : Store → Store) (db : Db) (b : Bool) (m : Exec A)
      → Does change db m
      → Does change db (if b then raise value_error else m)
  guarded change db true m h = Ensures-raise _ _ _ _ value_error tt (λ db' e. e)
  guarded change db false m h = h

  creates :
      (n : NewSource) (db : Db)
      → IsSound sha256 db
      → Does (put n.source_id (given sha256 n)) db (create_original_source sha256 n)
  unfolding create_original_source
  creates n db sound =
      guarded (put n.source_id (given sha256 n)) db (is_empty_text n.owner_principal_id) _ (
        guarded (put n.source_id (given sha256 n)) db (is_no_bytes n.bytes) _ (
          Ensures-transact AnyError (λ db'. db' ≡ db)
            (λ s db'. Done (put n.source_id (given sha256 n)) db db') (λ db'. db' ≡ db)
            (insert_source sha256 n) tt (λ db' h. h)
            (λ now db' s db'' h ran. rw (inserted_lem sha256 n now db' db'' s ran).1 (
              rw h
                (inserted-IsSound sha256 n now db sound, inserted-refines sha256 n now db sound)))))

  found_reads :
      (s : Source) (mine available : Bool) (db : Db)
      → IsSound sha256 db
      → Does
          (λ store. store)
          db
          (if mine then if available then read_blob s else pure (not_available s) else pure denied)
  found_reads s false available db sound = Ensures-pure _ _ _ _ denied (same_store db sound)
  found_reads s true false db sound = Ensures-pure _ _ _ _ (not_available s) (same_store db sound)
  found_reads s true true db sound =
      reads (λ now db'. authorized s (select (by_key s.storage_object_key) db'.blobs)) db sound

  row_reads :
      (owner : Option String) (row : Option Source) (db : Db)
      → IsSound sha256 db
      → Does (λ store. store) db (read_row owner row)
  row_reads owner none db sound = Ensures-pure _ _ _ _ not_found (same_store db sound)
  row_reads owner (some s) db sound = found_reads s (owns owner s) s.original_available db sound

  read_reads :
      (id : ℕ) (owner : Option String) (db : Db)
      → IsSound sha256 db
      → Does (λ store. store) db (read_authorized_original_source id owner)
  unfolding read_authorized_original_source
  read_reads id owner db sound =
      Ensures-bind _ _ (λ row db'. db' ≡ db) _ _ _ _
        (Ensures-statements _ _ _ _ _ tt (λ db' h. h) (λ now db' h. h))
        (λ row. row_reads owner row db sound)

  -- The two ways in which a call ends, as what it means.
  means :
      {A : Type 0} (change : Store → Store) (db : Db) (r : Result A) (w : World)
      → IsSound sha256 db
      → EndsIn AnyError (λ a db'. Done change db db') (λ db'. db' ≡ db) r w
      → Done (if is_ok r then change else λ store. store) db w.db
  means change db (ok a) w sound (inl (b, is, done)) = done
  means change db (ok a) w sound (inr (e, is, _, _)) = absurd (cc is)
  means change db (err e) w sound (inl (b, is, _)) = absurd (cc is)
  means change db (err e) w sound (inr (e', is, _, same)) = same_store db sound w.db same

  does_as_meant :
      {A : Type 0} (change : Store → Store) (m : Exec A) (w : World)
      → IsSound sha256 w.db
      → Does change w.db m
      → Done (if is_ok (m w).0 then change else λ store. store) w.db (m w).1.db
  does_as_meant change m w sound does = means change w.db (m w).0 (m w).1 sound (does.ends w refl)

  pub after-refines :
      (c : SourceCall) (w : World)
      → IsSound sha256 w.db
      → Done (meaning c (returns c w)) w.db (after sha256 c w).db
  unfolding after returns delete_original_source update_original_source_extraction_status
  after-refines (create n) w sound =
      does_as_meant (put n.source_id (given sha256 n)) (create_original_source sha256 n) w sound
        (creates n w.db sound)
  after-refines (remove id) w sound =
      does_as_meant (View.remove id) (delete_original_source id) w sound (
        changes (View.remove id) (delete_source id) w.db
          (delete_source-IsSound sha256 id w.db sound) (delete_source-refines id w.db))
  after-refines (set_status id status) w sound =
      does_as_meant (λ store. store) (update_original_source_extraction_status id status) w sound
        (guarded (λ store. store) w.db (is_empty_text status) _
          (guarded (λ store. store) w.db (ltb 64 (String.count status)) _
            (changes (λ store. store) (with_status id status) w.db
              (with_status-IsSound sha256 id status w.db sound) (with_status-view id status w.db))))
  after-refines (read id owner) w sound =
      does_as_meant (λ store. store) (read_authorized_original_source id owner) w sound
        (read_reads id owner w.db sound)

  -- Whatever calls are made, in any order and with whatever failures: what stands under each id
  -- afterwards is what the calls that returned mean for a plain store of originals by id, or two
  -- different contents have the same key. The tables are sound before.
  pub serve-refines :
      (cs : List SourceCall) (w : World)
      → IsSound sha256 w.db
      → ((x : ℕ) → view (serve sha256 cs w).db x ≡ meaning_all cs w (view w.db) x)
        ⊎ Collision sha256
  unfolding serve meaning_all
  serve-refines [] w sound = inl (λ x. refl)
  serve-refines (c ∷ cs) w sound =
      let (sound', does) = after-refines c w sound in
      elim (serve-refines cs (after sha256 c w) sound') [
        | inr collision ↦ inr collision
        | inl rest ↦ elim does [
          | inr collision ↦ inr collision
          | inl done ↦
              inl (λ x.
                rest x ∙ ap (λ store. meaning_all cs (after sha256 c w) store x) (fun_ext done))
        ]
      ]
