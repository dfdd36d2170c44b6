-- ===== src/Computed/Ahead.antt =====
-- Topological order, and what the candidates are while the cascade runs.
use mizu_navigator.Prelude.{
  ℕ, suc, ◌<◌, ◌≤◌, ◌≡◌, refl, sym, ap, ◌∙◌, arith, Bool, true, false, ◌&&◌, ◌||◌, Option, none,
  some, List, is_empty, get_elem?, ◌==◌, Bool-cases, inl, inr, contains, insert, any-insert, ==_ne,
  ==_iff,
}
use mizu_navigator.Computed.{
  ComputedBinding, CascadeState, build_comp_reverse_index, no_deps_pending, is_null, reads_changed,
  remove, extend, marked_changed, unlocked,
}
use mizu_navigator.Computed.Index.{build_comp_reverse_index-contains}
use mizu_navigator.Computed.Cascade.{Fires}

-- In topological order: a binding depends on no later one and not on itself, and names are distinct.
pub record IsTopological (bindings : List ComputedBinding) : Type 0 where
  pub before :
      (i j : ℕ) (ci cj : ComputedBinding)
      → get_elem? bindings i ≡ some ci
      → get_elem? bindings j ≡ some cj
      → j ≤ i
      → contains ci.name cj.depends_on ≡ false
  pub distinct :
      (i j : ℕ) (ci cj : ComputedBinding)
      → get_elem? bindings i ≡ some ci
      → get_elem? bindings j ≡ some cj
      → i < j
      → (cj.name == ci.name) ≡ false

abbrev pub wants : CascadeState → Option ComputedBinding → Bool
wants c none = false
wants c (some cb) = no_deps_pending cb c.evaluator || reads_changed cb c.changed

module _ (all : List ComputedBinding) (topological : IsTopological all) where
  -- The candidates from a position on are the bindings that a scan would evaluate now.
  pub record IsAhead (i : ℕ) (candidates : ℕ → Bool) (c : CascadeState) : Type 0 where
    pub low : (j : ℕ) → j < i → candidates j ≡ false
    pub high : (j : ℕ) → i ≤ j → candidates j ≡ wants c (get_elem? all j)

  module _ (i : ℕ) (cb : ComputedBinding) (here : get_elem? all i ≡ some cb) (c d : CascadeState)
      (f : Fires cb c d) where
    pending_same :
        (j : ℕ) (cj : ComputedBinding)
        → i < j
        → get_elem? all j ≡ some cj
        → no_deps_pending cj d.evaluator ≡ no_deps_pending cj c.evaluator
    unfolding no_deps_pending
    pending_same j cj l e =
        ap (λ v. is_empty cj.depends_on && is_null v)
          (f.others cj.name (topological.distinct i j cb cj here e l))

    wants_same :
        (j : ℕ) (o : Option ComputedBinding) → i < j → get_elem? all j ≡ o → wants d o ≡ wants c o
    wants_same j none l e = refl
    wants_same j (some cj) l e =
        ap (λ b. b || reads_changed cj d.changed) (pending_same j cj l e)
        ∙ ap (λ xs. no_deps_pending cj c.evaluator || reads_changed cj xs) f.changed

    wants_more :
        (j : ℕ) (o : Option ComputedBinding)
        → i < j
        → get_elem? all j ≡ o
        → wants (record d { changed = insert cb.name d.changed }) o
          ≡ (wants c o || elim o [ none ↦ false | some cj ↦ contains cb.name cj.depends_on ])
    wants_more j none l e = refl
    wants_more j (some cj) l e =
        ap (λ b. b || reads_changed cj (insert cb.name d.changed)) (pending_same j cj l e)
        ∙ ap (λ xs. no_deps_pending cj c.evaluator || reads_changed cj (insert cb.name xs))
            f.changed
        ∙ ap (λ b. no_deps_pending cj c.evaluator || b) (any-insert cb.name c.changed cj.depends_on)
        ∙ or_assoc (no_deps_pending cj c.evaluator) (reads_changed cj c.changed)
            (contains cb.name cj.depends_on)
      where
        or_assoc : (a b e : Bool) → (a || (b || e)) ≡ ((a || b) || e)
        or_assoc true b e = refl
        or_assoc false b e = refl

    early :
        (j : ℕ) (o : Option ComputedBinding)
        → j ≤ i
        → get_elem? all j ≡ o
        → elim o as (λ _. Bool) [ none ↦ false | some cj ↦ contains cb.name cj.depends_on ] ≡ false
    early j none l e = refl
    early j (some cj) l e = topological.before i j cb cj here e l

    removed : (candidates : ℕ → Bool) (j : ℕ) → i < j → remove candidates i j ≡ candidates j
    removed candidates j l = rw (==_ne j i (λ e. absurd (omega arith))) refl

    removed_low :
        (candidates : ℕ → Bool)
        → ((j : ℕ) → j < i → candidates j ≡ false)
        → (j : ℕ) → j < suc i
        → remove candidates i j ≡ false
    removed_low candidates h j l = elim (Bool-cases (j == i)) [
      | inl q ↦ rw q refl
      | inr q ↦ rw q (h j (ground (arith, q)))
    ]

    module _ (candidates : ℕ → Bool) (ahead : IsAhead i candidates c) where
      same-IsAhead : IsAhead (suc i) (remove candidates i) d
      same-IsAhead = record {
        low = removed_low candidates ahead.low;
        high = λ j l.
            removed candidates j (omega arith)
            ∙ ahead.high j (omega arith)
            ∙ sym (wants_same j (get_elem? all j) (omega arith) refl);
      }

      more-IsAhead :
          IsAhead
            (suc i)
            (extend (remove candidates i) (build_comp_reverse_index all cb.name))
            (record d { changed = insert cb.name d.changed })
      more-IsAhead = record {
        low = λ j l.
            let p = removed_low candidates ahead.low j l in
            let q =
              build_comp_reverse_index-contains all cb.name j
              ∙ early j (get_elem? all j) (omega arith) refl in
            rw (p, q) refl;
        high = λ j l.
            ap (λ b. b || contains j (build_comp_reverse_index all cb.name))
              (removed candidates j (omega arith) ∙ ahead.high j (omega arith))
            ∙ ap (λ b. wants c (get_elem? all j) || b)
                (build_comp_reverse_index-contains all cb.name j)
            ∙ sym (wants_more j (get_elem? all j) (omega arith) refl);
      }

      -- After a turn, by whether the variable was set and whether it had changed before
      pub turned-IsAhead :
          (updated : Bool)
          → IsAhead
              (suc i)
              (unlocked (build_comp_reverse_index all) cb (updated, d) (remove candidates i))
              (marked_changed cb (updated, d))
      turned-IsAhead false = same-IsAhead
      turned-IsAhead true = elim (Bool-cases (contains cb.name d.changed)) [
        | inl e ↦ rw e same-IsAhead
        | inr e ↦ rw e (rw e at more-IsAhead)
      ]

  pub passed-IsAhead :
      (i : ℕ) (candidates : ℕ → Bool) (c : CascadeState)
      → IsAhead i candidates c
      → candidates i ≡ false
      → IsAhead (suc i) candidates c
  passed-IsAhead i candidates c h e = record {
    low = λ j l. elim (Bool-cases (j == i)) [
      | inl q ↦ let p : j ≡ i = (==_iff j i).0 q in rw p e
      | inr q ↦ h.low j (ground (arith, q))
    ];
    high = λ j l. h.high j (omega arith);
  }
