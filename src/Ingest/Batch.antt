-- ===== src/Ingest/Batch.antt =====
-- The route that uploads files: what its answer says of what is stored.
use ahmed_agent.Base.{◌≡◌, ◌⊎◌, false, Option, none, some, List, [], ◌∷◌, All}
use ahmed_agent.Schema.{Db}
use ahmed_agent.Exec.{Error, value_error, other_error}
use ahmed_agent.Exec.Ensures.{Ensures}
use ahmed_agent.Originals.View.{IsSound}
use ahmed_agent.Ingest.{Library, Upload, Ingested}
use ahmed_agent.Ingest.Ends.{Ends}
use ahmed_agent.Ingest.Frame.{Crashes}
use ahmed_agent.Ingest.Tell.{Tells}
use ahmed_agent.Ingest.Route.{Uploaded, not_saved, answered}

-- The answer of a file that is stored with its vectors, or without them.
abbrev pub IsReady : Ingested → Type 0
IsReady a = (a.duplicate ≡ false) × (a.status ≡ "ready")

abbrev pub IsSearchable : Ingested → Type 0
IsSearchable a =
    (a.duplicate ≡ false)
    × ((a.status ≡ "ready") ⊎ (a.status ≡ "embedding_failed") ⊎ (a.status ≡ "VECTOR_UNAVAILABLE"))

module _ (l : Library) where
  -- Each upload has its own answer, which tells what is stored when its file is done.
  abbrev pub Told : List Upload → Db → List Ingested → Db → Type 0
  Told [] before [] db = db ≡ before
  Told (u ∷ us) before (a ∷ results) db =
      (between : Db) × Tells l u before a between × Told us between results db
  Told _ before _ db = ⊥

  -- What an answer of the route says.
  abbrev pub RouteTells : List Upload → Db → Uploaded → Db → Type 0
  RouteTells us before (answered code results) db =
      Told us before results db
      × (code ≡ 201 → All IsReady results)
      × (code ≡ 202 → All IsSearchable results)
  RouteTells us before not_saved db = Unit
  RouteTells us before _ db = db ≡ before

  abbrev Done : Upload → Db → Ingested → Db → Type 0
  Done u before a db = Tells l u before a db × IsSound l.sha256 db

  -- A parser raises what is not caught, on one of the files.
  abbrev pub AnyCrashes : List Upload → Type 0
  AnyCrashes [] = ⊥
  AnyCrashes (u ∷ us) = Crashes l u ⊎ AnyCrashes us

  -- What `attempt` makes of a call, `none` where it raised `PersistenceError`.
  abbrev Attempted : {A : Type 0} → (A → Db → Type 0) → Option A → Db → Type 0
  Attempted Q none db = Unit
  Attempted Q (some a) db = Q a db

  -- What is left of the errors then.
  abbrev pub Passed : Type 0 → Error → Type 0
  Passed C e = (e ≡ value_error) ⊎ ((e ≡ other_error) × C)

  -- A refusal that comes before any file is stored.
  abbrev Refuses : List Upload → Db → Option Uploaded → Type 0
  Refuses us before none = Unit
  Refuses us before (some r) = RouteTells us before r before
