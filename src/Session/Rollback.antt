-- ===== src/Session/Rollback.antt =====
-- What the rollback of a failed action restores.
use mizu_navigator.Prelude.{
  ℕ, true, false, Option, ◌≡◌, refl, sym, ap, ◌∙◌, List, [], ◌∷◌, ◌++◌, none, some, ◌==◌, length,
  take, take-append_length, Bool-cases, inl, inr, ==_iff,
}
use mizu_navigator.Value.{Value, null}
use mizu_navigator.Evaluator.{Evaluator, RuntimeAction, get_global, set_global, with_entry}
use mizu_navigator.Evaluator.Frame.{Kept}
use mizu_navigator.Evaluator.Failures.{Steady}
use mizu_navigator.Session.{cleared, undo, roll_back}

-- What a failed action leaves: the globals as they were, the queue as it was, and no undo log
pub record IsRestored (before after : Evaluator) : Type 0 where
  pub globals : after.global_store ≡ before.global_store
  pub queue : after.accumulated_actions ≡ before.accumulated_actions
  pub log : after.undo_log ≡ []

pub roll_back-IsRestored :
    (s t : Evaluator)
    → Kept (record (cleared s) { instruction_count = 0 }) t
    → IsRestored s (roll_back (length s.accumulated_actions) t)
unfolding roll_back undo
roll_back-IsRestored s t k =
    let (new, e) = k.actions in
    rw k.undo (record {
      globals = k.globals;
      queue =
          ap (take (length s.accumulated_actions)) e ∙ take-append_length s.accumulated_actions new;
      log = refl;
    })

-- What an action may have done before it fails: written globals and queued actions
pub data Change : Type 0 where
  write : ℕ → Value → Change
  enqueue : RuntimeAction → Change

abbrev change : Change → Evaluator → Evaluator
change (write sym v) s = set_global sym v s
change (enqueue a) s = record s { accumulated_actions = s.accumulated_actions ++ (a ∷ []) }

unfoldable pub run_changes : List Change → Evaluator → Evaluator
run_changes [] s = s
run_changes (c ∷ changes) s = run_changes changes (change c s)

-- Every global reads as it did, and the queue is as it was.
pub record IsUndone (before after : Evaluator) : Type 0 where
  pub globals : (name : ℕ) → get_global name after ≡ get_global name before
  pub queue : after.accumulated_actions ≡ before.accumulated_actions
  pub log : after.undo_log ≡ []

-- A global of a store
value_of : Option Value → Value
value_of (some v) = v
value_of none = null

abbrev reads : (ℕ → Option Value) → ℕ → Value
reads store name = value_of (store name)

entry_here :
    (store : ℕ → Option Value) (k : ℕ) (o : Option Value) (name : ℕ)
    → (name == k) ≡ true
    → with_entry store k o name ≡ o
entry_here store k o name e = rw e refl

entry_other :
    (store : ℕ → Option Value) (k : ℕ) (o : Option Value) (name : ℕ)
    → (name == k) ≡ false
    → with_entry store k o name ≡ store name
entry_other store k o name e = rw e refl

-- The store that a log leaves
undone_store : List (ℕ × Value) → (ℕ → Option Value) → ℕ → Option Value
undone_store [] store = store
undone_store ((sym, old) ∷ log) store = undone_store log (with_entry store sym (some old))

undo_store :
    (log : List (ℕ × Value)) (s : Evaluator)
    → (undo log s).global_store ≡ undone_store log s.global_store
unfolding undo undone_store
undo_store [] s = refl
undo_store ((sym, old) ∷ log) s =
    undo_store log (record s { global_store = with_entry s.global_store sym (some old) })

undo_queue :
    (log : List (ℕ × Value)) (s : Evaluator)
    → (undo log s).accumulated_actions ≡ s.accumulated_actions
unfolding undo
undo_queue [] s = refl
undo_queue ((sym, old) ∷ log) s =
    undo_queue log (record s { global_store = with_entry s.global_store sym (some old) })

-- Stores that read alike still do so with an entry changed, and after a log.
reads_entry :
    (store other : ℕ → Option Value) (k : ℕ) (v : Value)
    → ((name : ℕ) → reads store name ≡ reads other name)
    → (name : ℕ)
    → reads (with_entry store k (some v)) name ≡ reads (with_entry other k (some v)) name
reads_entry store other k v h name = elim (Bool-cases (name == k)) [
  | inl e ↦
      ap value_of (entry_here store k (some v) name e ∙ sym (entry_here other k (some v) name e))
  | inr e ↦
      ap value_of (entry_other store k (some v) name e)
      ∙ (h name ∙ sym (ap value_of (entry_other other k (some v) name e)))
]

reads_undone :
    (log : List (ℕ × Value)) (store other : ℕ → Option Value)
    → ((name : ℕ) → reads store name ≡ reads other name)
    → (name : ℕ) → reads (undone_store log store) name ≡ reads (undone_store log other) name
unfolding undone_store
reads_undone [] store other h name = h name
reads_undone ((sym, old) ∷ log) store other h name =
    reads_undone log (with_entry store sym (some old)) (with_entry other sym (some old))
      (reads_entry store other sym old h) name

reads_back :
    (store : ℕ → Option Value) (k : ℕ) (v : Value) (name : ℕ)
    → reads (with_entry (with_entry store k (some v)) k (some (reads store k))) name
      ≡ reads store name
unfolding value_of
reads_back store k v name =
    let written = with_entry store k (some v) in
    elim (Bool-cases (name == k)) [
      | inl e ↦
          ap value_of (entry_here written k (some (reads store k)) name e)
          ∙ ap (reads store) (sym ((==_iff name k).0 e))
      | inr e ↦ ap value_of (
          entry_other written k (some (reads store k)) name e ∙ entry_other store k (some v) name e)
    ]

logged :
    (k : ℕ) (v : Value) (s : Evaluator) (name : ℕ)
    → reads (undone_store (set_global k v s).undo_log (set_global k v s).global_store) name
      ≡ reads (undone_store s.undo_log s.global_store) name
unfolding set_global undone_store value_of
logged k v s name =
    reads_undone s.undo_log
      (with_entry (with_entry s.global_store k (some v)) k (some (reads s.global_store k)))
      s.global_store (reads_back s.global_store k v) name

-- The log of any changes takes the store back to where the log before them would.
undone_changes :
    (changes : List Change) (s : Evaluator) (name : ℕ)
    → reads
        (undone_store (run_changes changes s).undo_log (run_changes changes s).global_store)
        name
      ≡ reads (undone_store s.undo_log s.global_store) name
unfolding run_changes set_global
undone_changes [] s name = refl
undone_changes (enqueue a ∷ changes) s name = undone_changes changes (change (enqueue a) s) name
undone_changes (write k v ∷ changes) s name =
    undone_changes changes (set_global k v s) name ∙ logged k v s name

queued :
    (changes : List Change) (s : Evaluator)
    → (new : List RuntimeAction) × ((run_changes changes s).accumulated_actions
        ≡ s.accumulated_actions ++ new)
unfolding run_changes set_global
queued [] s = ([], sym (append-[] s.accumulated_actions))
  where
    append-[] : (xs : List RuntimeAction) → xs ++ [] ≡ xs
    append-[] [] = refl
    append-[] (x ∷ xs) = ap (λ l. x ∷ l) (append-[] xs)
queued (write name v ∷ changes) s = queued changes (set_global name v s)
queued (enqueue a ∷ changes) s =
    let (new, e) = queued changes (change (enqueue a) s) in
    (a ∷ new, e ∙ append_assoc s.accumulated_actions new)
  where
    append_assoc : (xs new : List RuntimeAction) → (xs ++ (a ∷ [])) ++ new ≡ xs ++ (a ∷ new)
    append_assoc [] new = refl
    append_assoc (x ∷ xs) new = ap (λ l. x ∷ l) (append_assoc xs new)

pub roll_back-IsUndone :
    (changes : List Change) (s : Evaluator)
    → IsUndone s (roll_back (length s.accumulated_actions) (run_changes changes (cleared s)))
unfolding roll_back get_global undone_store value_of
roll_back-IsUndone changes s =
    let t = run_changes changes (cleared s) in
    let (new, e) = queued changes (cleared s) in
    record {
      globals = λ name.
          ap (λ (store : ℕ → Option Value). reads store name) (undo_store t.undo_log t)
          ∙ undone_changes changes (cleared s) name;
      queue =
          ap (take (length s.accumulated_actions)) (undo_queue t.undo_log t ∙ e)
          ∙ take-append_length s.accumulated_actions new;
      log = refl;
    }

undo-Steady : (log : List (ℕ × Value)) (s t : Evaluator) → Steady s t → Steady s (undo log t)
unfolding undo
undo-Steady [] s t h = h
undo-Steady ((name, old) ∷ log) s t (i, b) =
    undo-Steady log s (record t { global_store = with_entry t.global_store name (some old) })
      (record { indexed = i.indexed; paired = i.paired }, b)

pub roll_back-Steady : (n : ℕ) (s t : Evaluator) → Steady s t → Steady s (roll_back n t)
unfolding roll_back
roll_back-Steady n s t h =
    let (i, b) = undo-Steady t.undo_log s t h in
    (record { indexed = i.indexed; paired = i.paired }, b)
