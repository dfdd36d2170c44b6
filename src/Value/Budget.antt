-- ===== src/Value/Budget.antt =====
-- The comparison within a budget ends: every turn of its loop spends some of it.
use mizu_navigator.Prelude.{
  ℕ, zero, suc, ◌+◌, ◌-◌, ◌≤◌, ◌<◌, ◌^◌, ◌≡◌, arith, Bool, true, false, List, [], ◌∷◌, ltb,
  if◌then◌else◌, saturating_add, Bool-cases, inl, inr,
}
use mizu_navigator.Value.{Value, timeout, Outcome, ok, err, panicked, out_of_fuel}
use mizu_navigator.Value.Equality.{
  Visit, agree, differ, charge, visit, push_all, compare_pairs, budget_eq,
}

-- An answer or an error
abbrev pub Decided : Outcome Bool → Type 0
Decided (ok b) = Unit
Decided (err e) = Unit
Decided panicked = ⊥
Decided out_of_fuel = ⊥

module _ (ptr_eq : Value → Value → Bool) (max : ℕ) (bounded : max < 2 ^ 64 - 1) where
  visited-Decided :
      (v : Visit) (spent : ℕ) (rest : Outcome Bool × ℕ)
      (more : List (Value × Value) → ℕ → Outcome Bool × ℕ)
      → Decided rest.0
      → ((pairs : List (Value × Value)) (charged : ℕ)
          → spent ≤ charged
          → charged ≤ max
          → Decided (more pairs charged).0)
      → spent ≤ max
      → Decided
          (elim v as (λ _. Outcome Bool × ℕ) [
            | agree ↦ rest
            | differ ↦ (ok false, spent)
            | charge cost same pairs ↦
                let charged = saturating_add spent cost in
                if ltb max charged
                then (err timeout, charged)
                else elim same [ true ↦ more pairs charged | false ↦ (ok false, charged) ]
          ]).0
  visited-Decided agree spent rest more r m l = r
  visited-Decided differ spent rest more r m l = tt
  visited-Decided (charge cost same pairs) spent rest more r m l =
      charged_to (saturating_add spent cost) same (ground (arith, l))
    where
      charged_to :
          (charged : ℕ) (b : Bool)
          → spent ≤ charged
          → let r : Outcome Bool × ℕ =
              if ltb max charged
              then (err timeout, charged)
              else elim b [ true ↦ more pairs charged | false ↦ (ok false, charged) ] in
            Decided r.0
      charged_to charged b s = elim (Bool-cases (ltb max charged)) [
        | inl e ↦ rw e tt
        | inr e ↦ rw e (by_keys b (ground (arith, e)))
      ]
        where
          by_keys :
              (c : Bool)
              → charged ≤ max
              → Decided
                  (elim c as (λ _. Outcome Bool × ℕ) [
                    | true ↦ more pairs charged
                    | false ↦ (ok false, charged)
                  ]).0
          by_keys true k = m pairs charged s k
          by_keys false k = tt

  compare_pairs-Decided :
      (fuel : ℕ) (stack : List (Value × Value)) (budget : ℕ)
      → budget ≤ max
      → max < budget + fuel
      → Decided (compare_pairs ptr_eq fuel stack budget max).0
  unfolding compare_pairs
  compare_pairs-Decided fuel [] budget l f = tt
  compare_pairs-Decided zero (p ∷ stack) budget l f = absurd (omega (arith, l, f))
  compare_pairs-Decided (suc fuel) ((x, y) ∷ stack) budget l f =
      let one : saturating_add budget 1 ≡ budget + 1 = ground (arith, l, bounded) in
      elim (Bool-cases (ltb max (saturating_add budget 1))) [
        | inl e ↦ rw e tt
        | inr e ↦
            let within : budget + 1 ≤ max = ground (arith, e, one) in
            rw e (
              visited-Decided (visit ptr_eq x y) (saturating_add budget 1)
                (compare_pairs ptr_eq fuel stack (saturating_add budget 1) max)
                (λ pairs charged. compare_pairs ptr_eq fuel (push_all pairs stack) charged max)
                (compare_pairs-Decided fuel stack (saturating_add budget 1)
                  (omega (arith, one, within)) (omega (arith, one, f)))
                (λ pairs charged s k.
                  compare_pairs-Decided fuel (push_all pairs stack) charged k
                    (omega (arith, one, f, s)))
                (omega (arith, one, within)))
      ]

  pub budget_eq-Decided : (x y : Value) → Decided (budget_eq ptr_eq x y 0 max).0
  unfolding budget_eq
  budget_eq-Decided x y =
      compare_pairs-Decided (suc max) ((x, y) ∷ []) 0 (omega arith) (omega arith)
