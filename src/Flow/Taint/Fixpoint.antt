-- ===== src/Flow/Taint/Fixpoint.antt =====
-- The loop of the taint fixpoint: it ends, its result is closed under the graph, and nothing is
-- tainted that the graph does not lead to.
use mizu_navigator.Prelude.{
  ℕ, zero, suc, ◌+◌, ◌≤◌, ◌≡◌, refl, arith, Bool, true, false, List, [], ◌∷◌, length, ◌==◌,
  if◌then◌else◌, ◌⊎◌, inl, inr, Bool-cases, Among, ==_iff,
}
use mathlib.Core.Path.{subst}
use mizu_navigator.Value.{ok}
use mizu_navigator.Flow.Walk.{Taint}
use mizu_navigator.Flow.Taint.{
  Dependent, on_function, on_comp, on_assign, Graph, taint_var, taint_function, taint_dependent,
  taint_all, propagate,
}

abbrev pub Reached : Taint → ℕ → Type 0
Reached t s = (t.vars s ≡ true) ⊎ (t.functions s ≡ true)

abbrev pub marked : Taint → Dependent → Bool
marked t (on_function name) = t.functions name
marked t (on_comp comp) = t.vars comp.name
marked t (on_assign name) = t.vars name

abbrev pub target : Dependent → ℕ
target (on_function name) = name
target (on_comp comp) = comp.name
target (on_assign name) = name

pub record Grows (t u : Taint) : Type 0 where
  pub vars : (s : ℕ) → t.vars s ≡ true → u.vars s ≡ true
  pub functions : (s : ℕ) → t.functions s ≡ true → u.functions s ≡ true

pub Grows-refl : (t : Taint) → Grows t t
Grows-refl t = record { vars = λ s h. h; functions = λ s h. h }

pub Grows-trans : {t u v : Taint} → Grows t u → Grows u v → Grows t v
Grows-trans g h = record {
  vars = λ s p. h.vars s (g.vars s p);
  functions = λ s p. h.functions s (g.functions s p);
}

pub Grows-marked : {t u : Taint} (d : Dependent) → Grows t u → marked t d ≡ true → marked u d ≡ true
Grows-marked (on_function name) g h = g.functions name h
Grows-marked (on_comp comp) g h = g.vars comp.name h
Grows-marked (on_assign name) g h = g.vars name h

pub marked-Reached : (t : Taint) (d : Dependent) → marked t d ≡ true → Reached t (target d)
marked-Reached t (on_function name) h = inr h
marked-Reached t (on_comp comp) h = inl h
marked-Reached t (on_assign name) h = inl h

pub Grows-Reached : {t u : Taint} {s : ℕ} → Grows t u → Reached t s → Reached u s
Grows-Reached {s = s} g (inl h) = inl (g.vars s h)
Grows-Reached {s = s} g (inr h) = inr (g.functions s h)

-- A taint with one more mark
record Adds (t : Taint) (d : Dependent) (u : Taint) : Type 0 where
  grows : Grows t u
  here : marked u d ≡ true
  only : (s : ℕ) → Reached u s → Reached t s ⊎ (s ≡ target d)

-- What offering a dependent does
data Offered (t : Taint) (w : List ℕ) (d : Dependent) : Taint × List ℕ → Type 0 where
  old : marked t d ≡ true → Offered t w d (t, w)
  fresh : (u : Taint) → marked t d ≡ false → Adds t d u → Offered t w d (u, target d ∷ w)

entry_true : (m : ℕ → Bool) (k s : ℕ) → m s ≡ true → (if s == k then true else m s) ≡ true
entry_true m k s h = ground arith

entry_only :
    (m : ℕ → Bool) (k s : ℕ) → (if s == k then true else m s) ≡ true → (m s ≡ true) ⊎ (s ≡ k)
entry_only m k s h = elim (Bool-cases (s == k)) [
  | inl e ↦ inr ((==_iff s k).0 e)
  | inr e ↦ inl (ground arith)
]

module _ (t : Taint) (w : List ℕ) where
  vars_added :
      (k : ℕ) (d : Dependent)
      → target d ≡ k
      → let u = record t { vars = λ s. if s == k then true else t.vars s } in
        marked u d ≡ true → Adds t d u
  vars_added k d e h = record {
    grows = record { vars = entry_true t.vars k; functions = λ s p. p };
    here = h;
    only = λ s r. elim r [
      | inl p ↦ elim (entry_only t.vars k s p) [ inl q ↦ inl (inl q) | inr q ↦ inr (rw e q) ]
      | inr p ↦ inl (inr p)
    ];
  }

  functions_added :
      (k : ℕ)
      → Adds t
          (on_function k)
          (record t { functions = λ s. if s == k then true else t.functions s })
  functions_added k = record {
    grows = record { vars = λ s p. p; functions = entry_true t.functions k };
    here = ground arith;
    only = λ s r. elim r [
      | inl p ↦ inl (inl p)
      | inr p ↦ elim (entry_only t.functions k s p) [ inl q ↦ inl (inr q) | inr q ↦ inr q ]
    ];
  }

  offer : (d : Dependent) → Offered t w d (taint_dependent d (t, w))
  unfolding taint_var taint_function
  offer (on_function k) = elim (Bool-cases (t.functions k)) [
    | inl e ↦ rw e (old e)
    | inr e ↦ rw e (fresh _ e (functions_added k))
  ]
  offer (on_comp comp) = elim (Bool-cases (t.vars comp.name)) [
    | inl e ↦ rw e (old e)
    | inr e ↦ rw e (fresh _ e (vars_added comp.name (on_comp comp) refl (ground arith)))
  ]
  offer (on_assign k) = elim (Bool-cases (t.vars k)) [
    | inl e ↦ rw e (old e)
    | inr e ↦ rw e (fresh _ e (vars_added k (on_assign k) refl (ground arith)))
  ]

-- The dependents that are not marked yet
pub unmarked : Taint → List Dependent → ℕ
unmarked t [] = 0
unmarked t (d ∷ ds) = (if marked t d then 0 else 1) + unmarked t ds

pub unmarked-le_length : (t : Taint) (ds : List Dependent) → unmarked t ds ≤ length ds
unfolding unmarked
unmarked-le_length t [] = omega arith
unmarked-le_length t (d ∷ ds) = ground (arith, unmarked-le_length t ds)

unmarked-le : {t u : Taint} (ds : List Dependent) → Grows t u → unmarked u ds ≤ unmarked t ds
unfolding unmarked
unmarked-le [] g = omega arith
unmarked-le {t = t} {u = u} (d ∷ ds) g = elim (Bool-cases (marked t d)) [
  | inl e ↦ rw (e, Grows-marked d g e) (omega (arith, unmarked-le ds g))
  | inr e ↦ ground (arith, e, unmarked-le ds g)
]

unmarked-lt :
    {t u : Taint} (d : Dependent) (ds : List Dependent)
    → Grows t u
    → marked t d ≡ false
    → marked u d ≡ true
    → Among d ds
    → unmarked u ds + 1 ≤ unmarked t ds
unfolding unmarked
unmarked-lt d [] g h k m = absurd m
unmarked-lt {t = t} {u = u} d (x ∷ ds) g h k (inl e) =
    let p : marked t x ≡ false = subst (λ y. marked t y ≡ false) e h in
    let q : marked u x ≡ true = subst (λ y. marked u y ≡ true) e k in
    rw (p, q) (omega (arith, unmarked-le ds g))
unmarked-lt {t = t} {u = u} d (x ∷ ds) g h k (inr m) = elim (Bool-cases (marked t x)) [
  | inl e ↦ rw (e, Grows-marked x g e) (omega (arith, unmarked-lt d ds g h k m))
  | inr e ↦ ground (arith, e, unmarked-lt d ds g h k m)
]

-- What offering dependents of one symbol keeps and gains
record Progress (all ds : List Dependent) (t : Taint) (w : List ℕ) (r : Taint × List ℕ)
    : Type 0 where
  grows : Grows t r.0
  kept : (s : ℕ) → Among s w → Among s r.1
  here : (d : Dependent) → Among d ds → marked r.0 d ≡ true
  waits : (s : ℕ) → Reached r.0 s → Reached t s ⊎ Among s r.1
  only : (s : ℕ) → Reached r.0 s → Reached t s ⊎ ((d : Dependent) × Among d ds × (s ≡ target d))
  tainted : (s : ℕ) → Among s r.1 → Among s w ⊎ Reached r.0 s
  measure : unmarked r.0 all + length r.1 ≤ unmarked t all + length w

module _ (all : List Dependent) where
  after_offer :
      (t : Taint) (w : List ℕ) (d : Dependent) (ds : List Dependent) (r : Taint × List ℕ)
      → Among d all
      → Offered t w d r
      → (q : Taint × List ℕ) → Progress all ds r.0 r.1 q
      → Progress all (d ∷ ds) t w q
  after_offer t w d ds r m (old e) q p = record {
    grows = p.grows;
    kept = p.kept;
    here = λ x a. elim a [ inl h ↦ rw h (Grows-marked d p.grows e) | inr h ↦ p.here x h ];
    waits = p.waits;
    only = λ s h. elim (p.only s h) [ inl l ↦ inl l | inr (x, a, b) ↦ inr (x, inr a, b) ];
    tainted = p.tainted;
    measure = p.measure;
  }
  after_offer t w d ds r m (fresh u e a) q p = record {
    grows = Grows-trans a.grows p.grows;
    kept = λ s h. p.kept s (inr h);
    here = λ x h. elim h [ inl h ↦ rw h (Grows-marked d p.grows a.here) | inr h ↦ p.here x h ];
    waits = λ s h. elim (p.waits s h) [
      | inl l ↦ elim (a.only s l) [ inl l ↦ inl l | inr l ↦ inr (p.kept s (inl l)) ]
      | inr l ↦ inr l
    ];
    only = λ s h. elim (p.only s h) [
      | inl l ↦ elim (a.only s l) [ inl l ↦ inl l | inr l ↦ inr (d, inl refl, l) ]
      | inr (x, y, z) ↦ inr (x, inr y, z)
    ];
    tainted = λ s h. elim (p.tainted s h) [
      | inl (inl e) ↦ inr (rw e (Grows-Reached p.grows (marked-Reached u d a.here)))
      | inl (inr l) ↦ inl l
      | inr l ↦ inr l
    ];
    measure = omega (arith, p.measure, unmarked-lt d all a.grows e a.here m);
  }

  taint_all-Progress :
      (ds : List Dependent) (t : Taint) (w : List ℕ)
      → ((d : Dependent) → Among d ds → Among d all)
      → Progress all ds t w (taint_all ds (t, w))
  unfolding taint_all
  taint_all-Progress [] t w h = record {
    grows = Grows-refl t;
    kept = λ s m. m;
    here = λ d m. absurd m;
    waits = λ s r. inl r;
    only = λ s r. inl r;
    tainted = λ s m. inl m;
    measure = omega arith;
  }
  taint_all-Progress (d ∷ ds) t w h =
      let r = taint_dependent d (t, w) in
      after_offer t w d ds r (h d (inl refl)) (offer t w d) (taint_all ds r)
        (taint_all-Progress ds r.0 r.1 (λ x m. h x (inr m)))

-- The loop, from a state in which every tainted symbol waits or has marked its dependents, and a
-- property that the graph keeps holds of every tainted symbol.
module _ (graph : Graph) (all : List Dependent)
    (known : (s : ℕ) (d : Dependent) → Among d (graph s) → Among d all) (P : ℕ → Type 0)
    (closed : (s : ℕ) (d : Dependent) → P s → Among d (graph s) → P (target d)) where
  pub record IsFixed (t u : Taint) : Type 0 where
    pub grows : Grows t u
    pub settled : (s : ℕ) (d : Dependent) → Reached u s → Among d (graph s) → marked u d ≡ true
    pub sound : (s : ℕ) → Reached u s → P s

  abbrev pub Covered : Taint → List ℕ → Type 0
  Covered t w =
      (s : ℕ) → Reached t s → Among s w ⊎ ((d : Dependent) → Among d (graph s) → marked t d ≡ true)

  module _ (t : Taint) (sym : ℕ) (w : List ℕ) (r : Taint × List ℕ)
      (p : Progress all (graph sym) t w r) where
    progress-Covered : Covered t (sym ∷ w) → Covered r.0 r.1
    progress-Covered c s h = elim (p.waits s h) [
      | inl l ↦ elim (c s l) [
        | inl (inl e) ↦ inr (λ d a. p.here d (rw (← e) a))
        | inl (inr m) ↦ inl (p.kept s m)
        | inr f ↦ inr (λ d a. Grows-marked d p.grows (f d a))
      ]
      | inr l ↦ inl l
    ]

    progress-sound : P sym → ((s : ℕ) → Reached t s → P s) → (s : ℕ) → Reached r.0 s → P s
    progress-sound h f s q = elim (p.only s q) [
      | inl l ↦ f s l
      | inr (d, a, e) ↦ rw e (closed sym d h a)
    ]

    progress-waiting :
        ((s : ℕ) → Among s (sym ∷ w) → Reached t s) → (s : ℕ) → Among s r.1 → Reached r.0 s
    progress-waiting f s h = elim (p.tainted s h) [
      | inl l ↦ Grows-Reached p.grows (f s (inr l))
      | inr l ↦ l
    ]

  ended :
      (t : Taint)
      → Covered t []
      → ((s : ℕ) → Reached t s → P s)
      → (u : Taint) × (ok t ≡ ok u) × IsFixed t u
  ended t c f = (
    t,
    refl,
    record {
      grows = Grows-refl t;
      settled = λ s d h a. elim (c s h) [ inl m ↦ absurd m | inr g ↦ g d a ];
      sound = f;
    },
  )

  pub propagate-IsFixed :
      (fuel : ℕ) (t : Taint) (w : List ℕ)
      → unmarked t all + length w ≤ fuel
      → Covered t w
      → ((s : ℕ) → Among s w → Reached t s)
      → ((s : ℕ) → Reached t s → P s)
      → (u : Taint) × (propagate fuel graph (t, w) ≡ ok u) × IsFixed t u
  unfolding propagate
  propagate-IsFixed zero t [] m c q f = ended t c f
  propagate-IsFixed (suc fuel) t [] m c q f = ended t c f
  propagate-IsFixed zero t (sym ∷ w) m c q f = absurd (omega arith)
  propagate-IsFixed (suc fuel) t (sym ∷ w) m c q f =
      let r = taint_all (graph sym) (t, w) in
      let p = taint_all-Progress all (graph sym) t w (known sym) in
      let (u, e, x) =
        propagate-IsFixed fuel r.0 r.1 (omega (arith, p.measure, m))
          (progress-Covered t sym w r p c) (progress-waiting t sym w r p q)
          (progress-sound t sym w r p (f sym (q sym (inl refl))) f) in
      (u, e, record { grows = Grows-trans p.grows x.grows; settled = x.settled; sound = x.sound })
