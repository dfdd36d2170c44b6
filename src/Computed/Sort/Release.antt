-- ===== src/Computed/Sort/Release.antt =====
-- What is true of the degrees, the queue and the order while the sort runs.
use mizu_navigator.Prelude.{
  ℕ, ◌+◌, ◌-◌, ◌<◌, ◌≤◌, ◌≡◌, refl, ap, arith, true, false, ◌||◌, Option, List, [], ◌∷◌, ◌++◌, ◌==◌,
  if◌then◌else◌, Bool-cases, inl, inr, contains, contains-append, ==_iff, ==_refl, Nodup,
  Nodup-append_one,
}
use mizu_navigator.Evaluator.{with_entry}
use mizu_navigator.Computed.Sort.{release}
use mizu_navigator.Computed.Sort.Degrees.{count, open_edges}

pub contains-count : (j : ℕ) (js : List ℕ) → count j js ≡ 0 → contains j js ≡ false
unfolding count
contains-count j [] h = refl
contains-count j (x ∷ js) h = ground (arith, contains-count j js)

count_self : (j : ℕ) (js : List ℕ) → count j (j ∷ js) ≡ 1 + count j js
unfolding count
count_self j js = rw (==_refl j) refl

-- `deps j` are the dependencies of the binding at `j`; there are `size` bindings.
module _ (index : ℕ → Option ℕ) (deps : ℕ → List ℕ) (size : ℕ) where
  -- While the dependents `js` of the last index of the order wait to be released
  pub record IsReleasing (degree : ℕ → ℕ) (queue order js : List ℕ) : Type 0 where
    pub degrees : (j : ℕ) → degree j ≡ open_edges index order (deps j) + count j js
    pub zero : (j : ℕ) → contains j queue ≡ true → degree j ≡ 0
    pub done : (j : ℕ) → contains j order ≡ true → degree j ≡ 0
    pub fresh : (j : ℕ) → contains j queue ≡ true → contains j order ≡ false
    pub nodup : Nodup queue
    pub below : (j : ℕ) → contains j queue ≡ true → j < size
    pub inside : (j : ℕ) → contains j js ≡ true → j < size
    pub covered : (j : ℕ) → j < size → degree j ≡ 0 → (contains j queue || contains j order) ≡ true

  module _ (degree : ℕ → ℕ) (queue order : List ℕ) (j : ℕ) (js : List ℕ)
      (r : IsReleasing degree queue order (j ∷ js)) where
    abbrev lowered : ℕ → ℕ
    lowered = with_entry degree j (degree j - 1)

    positive : 1 ≤ degree j
    positive = omega (arith, r.degrees j, count_self j js)

    not_zero : (k : ℕ) → degree k ≡ 0 → (k == j) ≡ false
    not_zero k h = elim (Bool-cases (k == j)) [
      | inl e ↦ let p : k ≡ j = (==_iff k j).0 e in absurd (omega (arith, positive, ap degree p, h))
      | inr e ↦ e
    ]

    lowered_degrees : (k : ℕ) → lowered k ≡ open_edges index order (deps k) + count k js
    unfolding count
    lowered_degrees k = elim (Bool-cases (k == j)) [
      | inl e ↦
          let p : k ≡ j = (==_iff k j).0 e in
          rw e (rw p (omega (arith, r.degrees j, count_self j js)))
      | inr e ↦
          let q : count k (j ∷ js) ≡ count k js = rw e (omega arith) in
          rw e (omega (arith, r.degrees k, q))
    ]

    lowered_zero : (k : ℕ) → degree k ≡ 0 → lowered k ≡ 0
    lowered_zero k h = rw (not_zero k h) h

    not_in : (xs : List ℕ) → ((k : ℕ) → contains k xs ≡ true → degree k ≡ 0) → contains j xs ≡ false
    not_in xs f = elim (Bool-cases (contains j xs)) [
      | inl e ↦ absurd (omega (arith, positive, f j e))
      | inr e ↦ e
    ]

    covered_still :
        (degree j - 1 == 0) ≡ false
        → (k : ℕ) → k < size
        → lowered k ≡ 0
        → (contains k queue || contains k order) ≡ true
    covered_still n k l z = elim (Bool-cases (k == j)) [
      | inl e ↦ absurd (ground (arith, n, e, z))
      | inr e ↦ r.covered k l (ground (arith, e, z))
    ]

    covered_after :
        (k : ℕ)
        → k < size
        → lowered k ≡ 0
        → (contains k (queue ++ (j ∷ [])) || contains k order) ≡ true
    covered_after k l z = elim (Bool-cases (k == j)) [
      | inl e ↦ rw (contains-append k queue (j ∷ [])) (ground (arith, e))
      | inr e ↦
          let q : degree k ≡ 0 = ground (arith, e, z) in
          rw (contains-append k queue (j ∷ [])) (ground (arith, e, r.covered k l q))
    ]

    stays : (degree j - 1 == 0) ≡ false → IsReleasing lowered queue order js
    stays n = record {
      degrees = lowered_degrees;
      zero = λ k h. lowered_zero k (r.zero k h);
      done = λ k h. lowered_zero k (r.done k h);
      fresh = r.fresh;
      nodup = r.nodup;
      below = r.below;
      inside = λ k h. r.inside k (ground (arith, h));
      covered = λ k l z. covered_still n k l z;
    }

    one_more :
        (k : ℕ) (P : Type 0)
        → (contains k queue ≡ true → P)
        → (k ≡ j → P)
        → contains k (queue ++ (j ∷ [])) ≡ true
        → P
    one_more k P f g h = elim (Bool-cases (k == j)) [
      | inl e ↦ g ((==_iff k j).0 e)
      | inr e ↦ f (ground (arith, contains-append k queue (j ∷ []), h, e))
    ]

    joins : degree j - 1 ≡ 0 → IsReleasing lowered (queue ++ (j ∷ [])) order js
    joins z = record {
      degrees = lowered_degrees;
      zero = λ k.
          one_more k (lowered k ≡ 0) (λ h. lowered_zero k (r.zero k h))
            (λ e. rw e (rw (==_refl j) z));
      done = λ k h. lowered_zero k (r.done k h);
      fresh =
          λ k. one_more k (contains k order ≡ false) (r.fresh k) (λ e. rw e (not_in order r.done));
      nodup = Nodup-append_one j queue (not_in queue r.zero) r.nodup;
      below = λ k. one_more k (k < size) (r.below k) (λ e. rw e (r.inside j (rw (==_refl j) refl)));
      inside = λ k h. r.inside k (ground (arith, h));
      covered = λ k l z. covered_after k l z;
    }

    released_one :
        IsReleasing lowered (if degree j - 1 == 0 then queue ++ (j ∷ []) else queue) order js
    released_one = elim (Bool-cases (degree j - 1 == 0)) [
      | inl e ↦ rw e (joins ((==_iff (degree j - 1) 0).0 e))
      | inr e ↦ rw e (stays e)
    ]

  pub release-IsReleasing :
      (js : List ℕ) (degree : ℕ → ℕ) (queue order : List ℕ)
      → IsReleasing degree queue order js
      → let r = release js degree queue in IsReleasing r.0 r.1 order []
  unfolding release
  release-IsReleasing [] degree queue order r = r
  release-IsReleasing (j ∷ js) degree queue order r =
      release-IsReleasing js (with_entry degree j (degree j - 1))
        (if degree j - 1 == 0 then queue ++ (j ∷ []) else queue) order
        (released_one degree queue order j js r)
