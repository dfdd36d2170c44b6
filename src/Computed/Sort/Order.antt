-- ===== src/Computed/Sort/Order.antt =====
-- The loop over the queue keeps an order in which every index comes after its dependencies.
use mizu_navigator.Prelude.{
  ℕ, zero, suc, ◌+◌, ◌<◌, ◌≤◌, ◌≡◌, refl, ◌∙◌, arith, true, false, Option, List, [], ◌∷◌, length,
  ◌==◌, Bool-cases, inl, inr, contains, leb, leb→le, ==_iff, ==_refl, Nodup, length_bound,
}
use mizu_navigator.Value.{ok}
use mizu_navigator.Computed.Sort.{release, kahn}
use mizu_navigator.Computed.Sort.Degrees.{count, open_edges, edges_to, open_edges-cons}
use mizu_navigator.Computed.Sort.Release.{IsReleasing, release-IsReleasing, contains-count}

module _ (index : ℕ → Option ℕ) (deps : ℕ → List ℕ) (size : ℕ) where
  -- Each index of an order comes after the ones it has edges to.
  abbrev pub Closed : List ℕ → Type 0
  Closed [] = Unit
  Closed (i ∷ order) = (open_edges index order (deps i) ≡ 0) × Closed order

  pub record IsOrder (order : List ℕ) : Type 0 where
    pub closed : Closed order
    pub nodup : Nodup order
    pub below : (j : ℕ) → contains j order ≡ true → j < size

  -- Each index outside the order has an edge to one outside it.
  abbrev pub IsExhausted : List ℕ → Type 0
  IsExhausted order =
      (j : ℕ) → j < size → contains j order ≡ false → 1 ≤ open_edges index order (deps j)

  exhausted :
      (degree : ℕ → ℕ) (order : List ℕ)
      → IsReleasing index deps size degree [] order []
      → IsExhausted order
  unfolding count
  exhausted degree order r j l n = ground (arith, r.degrees j, r.covered j l, n)

  module _ (dependents : ℕ → List ℕ)
      (edges : (i j : ℕ) → count j (dependents i) ≡ edges_to index i (deps j))
      (none_past : (j : ℕ) → size ≤ j → deps j ≡ []) where
    module _ (degree : ℕ → ℕ) (i : ℕ) (queue order : List ℕ)
        (r : IsReleasing index deps size degree (i ∷ queue) order []) where
      head_in : contains i (i ∷ queue) ≡ true
      head_in = rw (==_refl i) refl

      inside : (j : ℕ) → contains j (dependents i) ≡ true → j < size
      unfolding edges_to
      inside j h = elim (Bool-cases (leb size j)) [
        | inl e ↦
            let p : count j (dependents i) ≡ 0 =
              edges i j ∙ rw (none_past j (leb→le size j e)) refl in
            absurd (cc (h, contains-count j (dependents i) p))
        | inr e ↦ ground (arith, e)
      ]

      popped : IsReleasing index deps size degree queue (i ∷ order) (dependents i)
      unfolding count
      popped = record {
        degrees = λ j. omega (
          arith,
          r.degrees j,
          open_edges-cons index i order (deps j) (r.fresh i head_in),
          edges i j,
        );
        zero = λ j h. r.zero j (ground (arith, h));
        done = λ j h. elim (Bool-cases (j == i)) [
          | inl e ↦ r.zero j (rw e refl)
          | inr e ↦ r.done j (ground (arith, h, e))
        ];
        fresh = λ j h. elim (Bool-cases (j == i)) [
          | inl e ↦ let p : j ≡ i = (==_iff j i).0 e in absurd (cc (p, h, r.nodup.0))
          | inr e ↦ rw e (r.fresh j (rw e h))
        ];
        nodup = r.nodup.1;
        below = λ j h. r.below j (ground (arith, h));
        inside = inside;
        covered = λ j l h. ground (arith, r.covered j l h);
      }

      pop-IsOrder : IsOrder order → IsOrder (i ∷ order)
      unfolding count
      pop-IsOrder o = record {
        closed = (omega (arith, r.degrees i, r.zero i head_in), o.closed);
        nodup = (r.fresh i head_in, o.nodup);
        below = λ j h. elim (Bool-cases (j == i)) [
          | inl e ↦ r.below j (rw e refl)
          | inr e ↦ o.below j (ground (arith, h, e))
        ];
      }

    pub kahn-IsOrder :
        (fuel : ℕ) (degree : ℕ → ℕ) (queue order : List ℕ)
        → size ≤ fuel + length order
        → IsReleasing index deps size degree queue order []
        → IsOrder order
        → (result : List ℕ) × (kahn fuel dependents degree queue order ≡ ok result)
          × IsOrder result
          × IsExhausted result
    unfolding kahn
    kahn-IsOrder fuel degree [] order f r o = (order, refl, o, exhausted degree order r)
    kahn-IsOrder zero degree (i ∷ queue) order f r o =
        let p = pop-IsOrder degree i queue order r o in
        let q : suc (length order) ≤ size = length_bound size (i ∷ order) p.nodup p.below in
        absurd (omega (arith, f, q))
    kahn-IsOrder (suc fuel) degree (i ∷ queue) order f r o =
        let s = release (dependents i) degree queue in
        kahn-IsOrder fuel s.0 s.1 (i ∷ order) (omega (arith, f))
          (release-IsReleasing index deps size (dependents i) degree queue (i ∷ order)
            (popped degree i queue order r))
          (pop-IsOrder degree i queue order r o)
