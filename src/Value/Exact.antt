-- ===== src/Value/Exact.antt =====
-- The binary operators on numbers, against exact arithmetic.
use mizu_navigator.Prelude.{List, [], ◌∷◌, All, ◌⊎◌, ◌≡◌, Option, none, some, if◌then◌else◌}
use mizu_navigator.Value.{
  Value, int, decimal, ℤ, pos, IsI64, ◌*ℤ◌, ◌+ℤ◌, ◌-ℤ◌, ◌/ℤ◌, eq_ℤ, integer_overflow,
  division_by_zero, Outcome, ok, err,
}
use mizu_navigator.Value.Operators.{BinOp, add, sub, mul, div, scale}
use mizu_navigator.Value.Ranges.{Ranged}

-- The exact quotient as a decimal
abbrev quotient_exact : ℤ → ℤ → Option (List ℤ × Outcome Value)
quotient_exact n r =
    if eq_ℤ r (pos 0)
    then some ([], err division_by_zero)
    else some ((n /ℤ r) ∷ [], ok (decimal (n /ℤ r)))

-- The exact result of an operator on two integers, or on two decimals, with the numbers that `i64`
-- must hold for it
abbrev int_exact : BinOp → ℤ → ℤ → Option (List ℤ × Outcome Value)
int_exact add l r = some ((l +ℤ r) ∷ [], ok (int (l +ℤ r)))
int_exact sub l r = some ((l -ℤ r) ∷ [], ok (int (l -ℤ r)))
int_exact mul l r = some ((l *ℤ r) ∷ [], ok (int (l *ℤ r)))
int_exact div l r = quotient_exact (l *ℤ scale) r
int_exact op l r = none

abbrev decimal_exact : BinOp → ℤ → ℤ → Option (List ℤ × Outcome Value)
decimal_exact add l r = some ((l +ℤ r) ∷ [], ok (decimal (l +ℤ r)))
decimal_exact sub l r = some ((l -ℤ r) ∷ [], ok (decimal (l -ℤ r)))
decimal_exact mul l r = some (((l *ℤ r) /ℤ scale) ∷ [], ok (decimal ((l *ℤ r) /ℤ scale)))
decimal_exact div l r = quotient_exact (l *ℤ scale) r
decimal_exact op l r = none

-- An integer that is promoted to a decimal must fit as one.
abbrev promoted : ℤ → Option (List ℤ × Outcome Value) → Option (List ℤ × Outcome Value)
promoted n none = none
promoted n (some (ns, x)) = some (n ∷ ns, x)

-- What arithmetic on two numbers stands for; nothing for the other operators and operands
abbrev pub exact : BinOp → Value → Value → Option (List ℤ × Outcome Value)
exact op (int l) (int r) = int_exact op l r
exact op (decimal l) (decimal r) = decimal_exact op l r
exact op (int l) (decimal r) = promoted (l *ℤ scale) (decimal_exact op (l *ℤ scale) r)
exact op (decimal l) (int r) = promoted (r *ℤ scale) (decimal_exact op l (r *ℤ scale))
exact op l r = none

-- The exact result where all its numbers fit, and else an overflow
abbrev pub Agrees : Option (List ℤ × Outcome Value) → Outcome Value → Type 0
Agrees none o = Ranged o
Agrees (some (ns, x)) o =
    (All IsI64 ns × (o ≡ x)) ⊎ ((¬ (All IsI64 ns)) × (o ≡ err integer_overflow))
