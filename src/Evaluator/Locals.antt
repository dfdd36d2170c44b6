-- ===== src/Evaluator/Locals.antt =====
-- The local bindings: the reverse index against the stack that it stands for.
use mizu_navigator.Prelude.{
  ℕ, zero, suc, ◌-◌, ◌<◌, ◌≡◌, refl, sym, ap, ◌∙◌, Option, none, some, List, [], ◌∷◌, arith, length,
  drop, leb, ◌==◌, if◌then◌else◌, Bool, true, false,
}
use mizu_navigator.Value.{Value}
use mizu_navigator.Evaluator.{
  Evaluator, push_local, pop_local, truncate_locals, pop_from, innermost, unindex, unindex_all,
  get_local, tail, at_index,
}

-- Where a symbol is bound, the innermost first; a binding's index counts from the outermost.
unfoldable pub positions : ℕ → List ℕ → List ℕ
positions name [] = []
positions name (x ∷ xs) =
    let outer = positions name xs in if x == name then length xs ∷ outer else outer

-- The innermost binding of a symbol within a frame, by a scan of the stack.
unfoldable pub lookup : ℕ → ℕ → List ℕ → List Value → Option Value
lookup name frame_pointer (x ∷ xs) (v ∷ vs) =
    let outer = lookup name frame_pointer xs vs in
    if leb frame_pointer (length xs) then (if x == name then some v else outer) else none
lookup name frame_pointer (x ∷ xs) [] = none
lookup name frame_pointer [] vs = none

pub record IsIndexed (s : Evaluator) : Type 0 where
  pub indexed : (name : ℕ) → s.local_index name ≡ positions name s.local_symbols
  pub paired : length s.local_stack ≡ length s.local_symbols

pub push_local-IsIndexed :
    (name : ℕ) (v : Value) (s : Evaluator) → IsIndexed s → IsIndexed (push_local name v s)
unfolding push_local positions
push_local-IsIndexed name v s h = record {
  indexed = λ m. ground (arith, h.indexed m, h.indexed name, h.paired);
  paired = ap suc h.paired;
}

unindex-positions :
    (x : ℕ) (xs : List ℕ) (index : ℕ → List ℕ)
    → ((name : ℕ) → index name ≡ positions name (x ∷ xs))
    → (name : ℕ) → unindex x index name ≡ positions name xs
unfolding positions
unindex-positions x xs index h name = ground (arith, h name)

unindex_all-positions :
    (n : ℕ) (xs : List ℕ) (index : ℕ → List ℕ)
    → ((name : ℕ) → index name ≡ positions name xs)
    → (name : ℕ) → unindex_all n xs index name ≡ positions name (drop n xs)
unfolding unindex_all
unindex_all-positions zero xs index h name = h name
unindex_all-positions (suc n) [] index h name = h name
unindex_all-positions (suc n) (x ∷ xs) index h name =
    unindex_all-positions n xs (unindex x index) (unindex-positions x xs index h) name

pub length-drop {ℓ} : {A : Type ℓ} (n : ℕ) (xs : List A) → length (drop n xs) ≡ length xs - n
length-drop zero xs = omega arith
length-drop (suc n) [] = omega arith
length-drop (suc n) (x ∷ xs) = omega (arith, length-drop n xs)

pub truncate_locals-IsIndexed :
    (n : ℕ) (s : Evaluator) → IsIndexed s → IsIndexed (truncate_locals n s)
unfolding truncate_locals
truncate_locals-IsIndexed n s h = record {
  indexed =
      unindex_all-positions (length s.local_symbols - n) s.local_symbols s.local_index h.indexed;
  paired = omega (
    arith,
    length-drop (length s.local_stack - n) s.local_stack,
    length-drop (length s.local_symbols - n) s.local_symbols,
    h.paired,
  );
}

-- The fields that the local bindings' operations leave alone.
pub record SameRest (s t : Evaluator) : Type 0 where
  pub globals : t.global_store ≡ s.global_store
  pub undo : t.undo_log ≡ s.undo_log
  pub computed : t.computed_var_syms ≡ s.computed_var_syms
  pub budget : t.max_instructions ≡ s.max_instructions
  pub depth : t.eval_depth ≡ s.eval_depth
  pub actions : t.accumulated_actions ≡ s.accumulated_actions
  pub count : t.instruction_count ≡ s.instruction_count

pub record Popped (s t : Evaluator) : Type 0 where
  pub rest : SameRest s t
  pub symbols : t.local_symbols ≡ tail s.local_symbols
  pub values : t.local_stack ≡ tail s.local_stack
  pub indexed : IsIndexed t

empty_tail {ℓ} : {A : Type ℓ} (xs : List A) → length xs ≡ 0 → xs ≡ tail xs
empty_tail [] h = refl
empty_tail (x ∷ xs) h = ground arith

length-tail {ℓ} : {A : Type ℓ} (xs : List A) (n : ℕ) → length xs ≡ suc n → length (tail xs) ≡ n
length-tail [] n h = ground arith
length-tail (x ∷ xs) n h = omega (arith, h)

pop_from-Popped :
    (xs : List ℕ) (s : Evaluator) → s.local_symbols ≡ xs → IsIndexed s → Popped s (pop_from xs s)
pop_from-Popped [] s e h = record {
  rest = record {
    globals = refl;
    undo = refl;
    computed = refl;
    budget = refl;
    depth = refl;
    actions = refl;
    count = refl;
  };
  symbols = e ∙ ap tail (sym e);
  values = empty_tail s.local_stack (h.paired ∙ ap length e);
  indexed = h;
}
pop_from-Popped (x ∷ xs) s e h = record {
  rest = record {
    globals = refl;
    undo = refl;
    computed = refl;
    budget = refl;
    depth = refl;
    actions = refl;
    count = refl;
  };
  symbols = ap tail (sym e);
  values = refl;
  indexed = record {
    indexed = unindex-positions x xs s.local_index (λ name. h.indexed name ∙ ap (positions name) e);
    paired = length-tail s.local_stack (length xs) (h.paired ∙ ap length e);
  };
}

pub pop_local-Popped : (s : Evaluator) → IsIndexed s → Popped s (pop_local s)
unfolding pop_local
pop_local-Popped s h = pop_from-Popped s.local_symbols s refl h

positions-lt :
    (name : ℕ) (xs : List ℕ) (i : ℕ) (is : List ℕ) → positions name xs ≡ i ∷ is → i < length xs
unfolding positions
positions-lt name [] i is h = ground arith
positions-lt name (x ∷ xs) i is h = ground (arith, positions-lt name xs i is)

suc_sub : (n i : ℕ) → i < n → suc n - suc i ≡ suc (n - suc i)
suc_sub n i l = omega (arith, l)

-- A binding on top of those that the index names is not seen.
innermost-cons :
    (is : List ℕ) (fp : ℕ) (v : Value) (vs : List Value)
    → ((i : ℕ) (js : List ℕ) → is ≡ i ∷ js → i < length vs)
    → innermost is fp (v ∷ vs) ≡ innermost is fp vs
innermost-cons [] fp v vs h = refl
innermost-cons (i ∷ js) fp v vs h = ap (λ o. if leb fp i then o else none) (below (h i js refl))
  where
    below : i < length vs → at_index (v ∷ vs) i ≡ at_index vs i
    below l = rw (suc_sub (length vs) i l) refl

innermost-none :
    (is : List ℕ) (fp : ℕ) (vs : List Value)
    → ((i : ℕ) (js : List ℕ) → is ≡ i ∷ js → i < fp)
    → innermost is fp vs ≡ none
innermost-none [] fp vs h = refl
innermost-none (i ∷ js) fp vs h = ground (arith, h i js refl)

top_index : (v : Value) (vs : List Value) (n : ℕ) → length vs ≡ n → at_index (v ∷ vs) n ≡ some v
top_index v vs n h = rw (same (length vs) n h) refl
  where
    same : (m n : ℕ) → m ≡ n → suc m - suc n ≡ 0
    same m n h = omega (arith, h)

innermost-top :
    (b : Bool) (fp n : ℕ) (is : List ℕ) (v : Value) (vs : List Value) (outer : Option Value)
    → at_index (v ∷ vs) n ≡ some v
    → innermost is fp (v ∷ vs) ≡ outer
    → (leb fp n ≡ false → outer ≡ none)
    → innermost (if b then n ∷ is else is) fp (v ∷ vs)
      ≡ (if leb fp n then (if b then some v else outer) else none)
innermost-top true fp n is v vs outer h k l = ap (λ o. if leb fp n then o else none) h
innermost-top false fp n is v vs outer h k l = k ∙ guard (leb fp n) l
  where
    guard : (c : Bool) → (c ≡ false → outer ≡ none) → outer ≡ (if c then outer else none)
    guard true l = refl
    guard false l = l refl

innermost-lookup :
    (name fp : ℕ) (xs : List ℕ) (vs : List Value)
    → length vs ≡ length xs
    → innermost (positions name xs) fp vs ≡ lookup name fp xs vs
unfolding positions lookup
innermost-lookup name fp [] vs h = refl
innermost-lookup name fp (x ∷ xs) [] h = ground arith
innermost-lookup name fp (x ∷ xs) (v ∷ vs) h =
    let e : length vs ≡ length xs = omega (arith, h) in
    let ih = innermost-lookup name fp xs vs e in
    innermost-top (x == name) fp (length xs) (positions name xs) v vs (lookup name fp xs vs)
      (top_index v vs (length xs) e)
      (innermost-cons (positions name xs) fp v vs (λ i js p. rw e (positions-lt name xs i js p))
        ∙ ih)
      (λ q.
        sym ih
        ∙ innermost-none (positions name xs) fp vs
            (λ i js p. ground (arith, positions-lt name xs i js p)))

-- The reverse index finds the binding that a scan of the stack from the innermost outwards finds:
-- the last one of that name in the current frame, and none where the frame has none.
pub get_local-lookup :
    (name fp : ℕ) (s : Evaluator)
    → IsIndexed s
    → get_local name fp s ≡ lookup name fp s.local_symbols s.local_stack
unfolding get_local
get_local-lookup name fp s h =
    ap (λ is. innermost is fp s.local_stack) (h.indexed name)
    ∙ innermost-lookup name fp s.local_symbols s.local_stack h.paired
