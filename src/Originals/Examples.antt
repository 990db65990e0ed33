-- ===== src/Originals/Examples.antt =====
-- Two sources of one content, of which one is deleted.
use Prim.Native.String.{String}
use ahmed_agent.Base.{ℕ, ◌≡◌, ◌⊎◌, refl, none, some, List, [], ◌∷◌, list_eq, if◌then◌else◌}
use ahmed_agent.Files.{Text, codes}
use ahmed_agent.Schema.{empty}
use ahmed_agent.Exec.{World, ok, err, persistence_error}
use ahmed_agent.Originals.{
  NewSource, new_source, Reading, create_original_source, read_authorized_original_source,
}
use ahmed_agent.Originals.View.{IsSound, Collision, given, view}
use ahmed_agent.Originals.Keep.{SourceCall, create, remove, set_status, serve}
use ahmed_agent.Originals.Durable.{Answers, original_durable}
use ahmed_agent.Originals.Refine.{meaning_all, serve-refines}

abbrev digest : Text → String
digest bytes = if list_eq bytes (codes "hi") then "a" else "b"

abbrev upload : ℕ → String → NewSource
upload source_id owner = record {
  source_id = source_id;
  owner_principal_id = owner;
  original_filename = codes "a.txt";
  mime_type = none;
  bytes = codes "hi";
  authorization_scope = "MY_FILES_OWNER";
}

abbrev start : World
start = record { db = empty; clock = 10; outcomes = [] }

empty-IsSound : IsSound digest start.db
empty-IsSound = record { linked = λ key h. absurd (cc h); hashed = λ key b h. absurd (cc h) }

created_here :
    (create_original_source digest (upload 1 "owner") start).0
    ≡ ok (new_source digest (upload 1 "owner") 10)
unfolding create_original_source
created_here = refl

abbrev calls : List SourceCall
calls = create (upload 2 "other") ∷ remove 2 ∷ set_status 1 "ready" ∷ []

original_durable_example :
    ((r : Reading) × ((read_authorized_original_source 1
          (some "owner")
          (serve digest calls (create_original_source digest (upload 1 "owner") start).1)).0
        ≡ ok r)
      × Answers (given digest (upload 1 "owner")) (some "owner") r)
    ⊎ ((read_authorized_original_source 1
          (some "owner")
          (serve digest calls (create_original_source digest (upload 1 "owner") start).1)).0
        ≡ err persistence_error)
    ⊎ Collision digest
original_durable_example =
    original_durable digest (upload 1 "owner") start (new_source digest (upload 1 "owner") 10)
      empty-IsSound created_here calls (tt, (refl, (tt, tt))) (some "owner")

serve-refines_example :
    ((x : ℕ)
      → view (serve digest calls start).db x ≡ meaning_all digest calls start (view start.db) x)
    ⊎ Collision digest
serve-refines_example = serve-refines digest calls start empty-IsSound
