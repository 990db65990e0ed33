-- ===== src/Notes/Attempts.antt =====
-- The number that the model is told is the number of failures of that call since it last succeeded.
use ahmed_agent.Base.{
  ℕ, ◌+◌, ◌≡◌, refl, ap, ◌∙◌, inl, inr, true, false, Option, none, some, String, List, [], ◌∷◌,
  ◌++◌, str_eq, eq_iff, arith, if◌then◌else◌, Bool-cases,
}
use ahmed_agent.Base.Table.{count, delete}
use ahmed_agent.Notes.{
  Note, Advice, has_key, call_key, retry_prompt, reflect_on_tool_failure, ToolCall, fails, succeeds,
  book_all,
}

-- The failures of the call with the key since its last success, read off the calls themselves, with
-- those that stood at the start.
abbrev pub standing : String → ℕ → List ToolCall → ℕ
standing key n [] = n
standing key n (fails tool_name reason call_signature advice ∷ cs) =
    standing key (if str_eq (call_key tool_name call_signature) key then n + 1 else n) cs
standing key n (succeeds tool_name call_signature ∷ cs) =
    standing key (if str_eq (call_key tool_name call_signature) key then 0 else n) cs

count-append :
    (key : String) (ns : List Note) (note : Note)
    → count (has_key key) (ns ++ (note ∷ []))
      ≡ (if str_eq note.key key then count (has_key key) ns + 1 else count (has_key key) ns)
count-append key [] note = ground arith
count-append key (n ∷ ns) note = ground (arith, count-append key ns note)

count-delete_same :
    (key key' : String) (ns : List Note)
    → str_eq key' key ≡ true
    → count (has_key key) (delete (has_key key') ns) ≡ 0
count-delete_same key key' [] same = refl
count-delete_same key key' (n ∷ ns) same = ground (
  arith,
  eq_iff key' key,
  eq_iff n.key key,
  eq_iff n.key key',
  count-delete_same key key' ns same,
)

count-delete_other :
    (key key' : String) (ns : List Note)
    → str_eq key' key ≡ false
    → count (has_key key) (delete (has_key key') ns) ≡ count (has_key key) ns
count-delete_other key key' [] other = refl
count-delete_other key key' (n ∷ ns) other = ground (
  arith,
  eq_iff key' key,
  eq_iff n.key key,
  eq_iff n.key key',
  count-delete_other key key' ns other,
)

count-delete :
    (key key' : String) (ns : List Note)
    → count (has_key key) (delete (has_key key') ns)
      ≡ (if str_eq key' key then 0 else count (has_key key) ns)
count-delete key key' ns = elim (Bool-cases (str_eq key' key)) [
  | inl same ↦ rw same (count-delete_same key key' ns same)
  | inr other ↦ rw other (count-delete_other key key' ns other)
]

-- The notes that there are, if notes are kept.
abbrev pub notes_of : Option (List Note) → List Note
notes_of none = []
notes_of (some ns) = ns

book_all_counts :
    (key : String) (cs : List ToolCall) (ns : List Note)
    → (kept : List Note) × (book_all cs (some ns) ≡ some kept)
      × (count (has_key key) kept ≡ standing key (count (has_key key) ns) cs)
unfolding book_all
book_all_counts key [] ns = (ns, refl, refl)
book_all_counts key (fails tool_name reason call_signature advice ∷ cs) ns =
    let note : Note = record {
      tool = tool_name;
      key = call_key tool_name call_signature;
      reason = reason;
      attempt = count (has_key (call_key tool_name call_signature)) ns + 1;
    } in
    let (kept, books, counts) = book_all_counts key cs (ns ++ (note ∷ [])) in
    (kept, books, counts ∙ ap (λ (n : ℕ). standing key n cs) (count-append key ns note))
book_all_counts key (succeeds tool_name call_signature ∷ cs) ns =
    let (kept, books, counts) =
      book_all_counts key cs (delete (has_key (call_key tool_name call_signature)) ns) in
    (
      kept,
      books,
      counts
          ∙ ap (λ (n : ℕ). standing key n cs)
              (count-delete key (call_key tool_name call_signature) ns),
    )

-- Whatever calls a run has made, to any tools and in any order: a call that fails now is told to the
-- model with the number of its failures since it last succeeded, this one included, and the failures
-- and successes of other calls do not change that number.
pub reflect_counts :
    (cs : List ToolCall) (tool_name reason call_signature : String) (advice : Advice)
    → (reflect_on_tool_failure tool_name reason call_signature advice (book_all cs (some []))).1
      ≡ retry_prompt tool_name reason advice (standing (call_key tool_name call_signature) 0 cs + 1)
unfolding reflect_on_tool_failure
reflect_counts cs tool_name reason call_signature advice =
    let (kept, books, counts) = book_all_counts (call_key tool_name call_signature) cs [] in
    rw books (ap (λ (n : ℕ). retry_prompt tool_name reason advice (n + 1)) counts)
