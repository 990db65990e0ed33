-- ===== src/Messages/History.antt =====
-- What is appended is what is loaded.
use mathlib.Core.List.{reverse, reverse-cons, reverse-append, append_assoc, map-append}
use native.Mathlib.Nat.{zero-add, suc-add, add-zero, add-suc}
use ahmed_agent.Base.{
  ℕ, suc, ◌+◌, ◌≤◌, ◌<◌, ◌≡◌, refl, sym, ap, ◌∙◌, true, List, [], ◌∷◌, ◌++◌, map, arith, length,
  take, ◌==◌, Bool-cases, inl, inr, length-append,
}
use ahmed_agent.Base.Json.{Json}
use ahmed_agent.Base.Table.{select_all}
use ahmed_agent.Schema.{Message}
use ahmed_agent.Messages.{
  in_session, insert_desc, order_desc, recent, contents, max_sequence, insert_messages,
}

-- Rows, newest first, with falling sequence numbers below a bound.
abbrev pub IsFalling : ℕ → List Message → Type 0
IsFalling bound [] = Unit
IsFalling bound (m ∷ ms) = (m.sequence_number < bound) × IsFalling m.sequence_number ms

==_refl : (n : ℕ) → (n == n) ≡ true
==_refl n = ground arith

insert_desc-head :
    (m : Message) (ms : List Message) → IsFalling m.sequence_number ms → insert_desc m ms ≡ m ∷ ms
unfolding insert_desc
insert_desc-head m [] f = refl
insert_desc-head m (x ∷ ms) f = ground arith

order_desc-IsFalling : (bound : ℕ) (ms : List Message) → IsFalling bound ms → order_desc ms ≡ ms
unfolding order_desc
order_desc-IsFalling bound [] f = refl
order_desc-IsFalling bound (m ∷ ms) f =
    rw (order_desc-IsFalling m.sequence_number ms f.1) (insert_desc-head m ms f.1)

IsFalling-weaken : (a b : ℕ) (ms : List Message) → a ≤ b → IsFalling a ms → IsFalling b ms
IsFalling-weaken a b [] le f = tt
IsFalling-weaken a b (m ∷ ms) le f = (omega arith, f.1)

take-append {ℓ} :
    {A : Type ℓ} (xs ys : List A) (n : ℕ) → take (length xs + n) (xs ++ ys) ≡ xs ++ take n ys
take-append [] ys n = rw (zero-add n) refl
take-append (x ∷ xs) ys n = rw (suc-add (length xs) n) (ap (λ l. x ∷ l) (take-append xs ys n))

map-reverse {ℓ ℓ'} :
    {A : Type ℓ} {B : Type ℓ'} (f : A → B) (xs : List A) → map f (reverse xs) ≡ reverse (map f xs)
map-reverse f [] = refl
map-reverse f (x ∷ xs) =
    rw (reverse-cons, map-append, map-reverse f xs) (sym (reverse-cons (f x) (map f xs)))

module _ (session_id : ℕ) where
  -- The session's rows of a table, newest first.
  abbrev pub rows : List Message → List Message
  rows ms = select_all (in_session session_id) ms

  rows-lt-max :
      (bound : ℕ) (ms : List Message)
      → IsFalling bound (rows ms)
      → IsFalling (max_sequence session_id ms + 1) (rows ms)
  unfolding max_sequence
  rows-lt-max bound [] f = tt
  rows-lt-max bound (m ∷ ms) f = elim (Bool-cases (in_session session_id m)) [
    | inl own ↦ rw own (let g = rw own at f in (omega arith, g.1))
    | inr not_own ↦
        rw not_own
          (IsFalling-weaken _ _ (rows ms) (omega arith) (rows-lt-max bound ms (rw not_own at f)))
  ]

  module _ (run_id now : ℕ) where
    -- The rows that the loop inserts, newest first.
    inserted : ℕ → List Json → List Message
    inserted sequence [] = []
    inserted sequence (j ∷ js) =
        inserted (suc sequence) js
        ++ (record {
          session_id = session_id;
          run_id = run_id;
          sequence_number = sequence;
          message_json = j;
          created_at = now;
        }
            ∷ [])

    rows-insert :
        (sequence : ℕ) (js : List Json) (ms : List Message)
        → rows (insert_messages session_id run_id now sequence js ms)
          ≡ inserted sequence js ++ rows ms
    unfolding insert_messages inserted
    rows-insert sequence [] ms = refl
    rows-insert sequence (j ∷ js) ms =
        rw (rows-insert (suc sequence) js _, ==_refl session_id, append_assoc)

    length-inserted : (sequence : ℕ) (js : List Json) → length (inserted sequence js) ≡ length js
    unfolding inserted
    length-inserted sequence [] = refl
    length-inserted sequence (j ∷ js) = omega (
      arith,
      length-append (inserted (suc sequence) js) (_ ∷ []),
      length-inserted (suc sequence) js,
    )

    contents-inserted :
        (sequence : ℕ) (js : List Json) → reverse (contents (inserted sequence js)) ≡ js
    unfolding inserted
    contents-inserted sequence [] = refl
    contents-inserted sequence (j ∷ js) =
        rw map-append (rw reverse-append (ap (λ l. j ∷ l) (contents-inserted (suc sequence) js)))

    -- The rows after the inserts, with falling numbers again.
    insert-IsFalling :
        (sequence : ℕ) (js : List Json) (ms : List Message)
        → IsFalling sequence (rows ms)
        → IsFalling
            (sequence + length js)
            (rows (insert_messages session_id run_id now sequence js ms))
    unfolding insert_messages
    insert-IsFalling sequence [] ms f = rw add-zero f
    insert-IsFalling sequence (j ∷ js) ms f =
        let first : Message = record {
          session_id = session_id;
          run_id = run_id;
          sequence_number = sequence;
          message_json = j;
          created_at = now;
        } in
        rw (add-suc, ← suc-add)
          (insert-IsFalling (suc sequence) js (first ∷ ms)
            (rw (==_refl session_id) (omega arith, f)))

  -- A table whose rows of the session fall has them falling after an append too.
  pub append-IsFalling :
      (run_id now bound : ℕ) (js : List Json) (ms : List Message)
      → IsFalling bound (rows ms)
      → (b : ℕ) × IsFalling b
          (rows (insert_messages session_id run_id now (max_sequence session_id ms + 1) js ms))
  append-IsFalling run_id now bound js ms f =
      (_, insert-IsFalling run_id now _ js ms (rows-lt-max bound ms f))

  recent-IsFalling :
      (bound limit : ℕ) (ms : List Message)
      → IsFalling bound (rows ms)
      → recent session_id limit ms ≡ reverse (take limit (rows ms))
  unfolding recent
  recent-IsFalling bound limit ms f = rw (order_desc-IsFalling bound (rows ms) f)

  -- What an append of messages adds to the history: the window that is longer by the number of new
  -- messages shows what the window showed before, with the new messages behind it in their order.
  -- The session's rows have falling sequence numbers before.
  pub recent-append :
      (run_id now bound n : ℕ) (js : List Json) (ms : List Message)
      → IsFalling bound (rows ms)
      → contents (
          recent session_id
            (length js + n)
            (insert_messages session_id run_id now (max_sequence session_id ms + 1) js ms))
        ≡ contents (recent session_id n ms) ++ js
  recent-append run_id now bound n js ms f =
      let start = max_sequence session_id ms + 1 in
      let (b, falling) = append-IsFalling run_id now bound js ms f in
      rw
        (
          recent-IsFalling b (length js + n) _ falling,
          recent-IsFalling bound n ms f,
          rows-insert run_id now start js ms,
        )
        (rw (← length-inserted run_id now start js, take-append, reverse-append, map-append)
          (ap (λ (l : List Json). contents (reverse (take n (rows ms))) ++ l)
            (map-reverse (λ (m : Message). m.message_json) (inserted run_id now start js)
              ∙ contents-inserted run_id now start js)))
