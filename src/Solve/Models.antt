-- ===== src/Solve/Models.antt =====
-- What a CNF means: valuations of the variables, satisfied clauses, and blocking clauses.
use mettle.Base.{
  ℕ, ◌<◌, ◌≤◌, ◌≡◌, refl, ap, ◌∙◌, Bool, true, false, not, List, [], ◌∷◌, all, any, All, ltb,
  lt→ltb,
}
use mettle.Solve.{Var, Lit, positive, negative, var, is_positive, lit_not, max_vars}
use mettle.Solve.Lits.{
  var-positive, is_positive-positive, negative-eq-not, var-not, is_positive-not,
}

-- A valuation gives every variable a truth value.
abbrev pub Valuation : Type 0
Valuation = Var → Bool

abbrev pub sign : Bool → Bool → Bool
sign true b = b
sign false b = not b

unfoldable pub lit_value : Valuation → Lit → Bool
lit_value ρ l = sign (is_positive l) (ρ (var l))

abbrev pub sat_clause : Valuation → List Lit → Bool
sat_clause ρ c = any c (lit_value ρ)

abbrev pub sat : Valuation → List (List Lit) → Bool
sat ρ cs = all cs (sat_clause ρ)

-- A literal of a formula with `n` variables.
abbrev pub IsMinted : ℕ → Lit → Type 0
IsMinted n l = var l < n

-- Two valuations give the first `n` variables the same values.
abbrev pub Agree : ℕ → Valuation → Valuation → Type 0
Agree n ρ σ = (v : Var) → v < n → ρ v ≡ σ v

pub lit_value-not : (ρ : Valuation) (l : Lit) → lit_value ρ (lit_not l) ≡ not (lit_value ρ l)
unfolding lit_value
lit_value-not ρ l = rw (var-not l, is_positive-not l) (flip (is_positive l) (ρ (var l)))
  where
    flip : (s b : Bool) → sign (not s) b ≡ not (sign s b)
    flip true b = refl
    flip false true = refl
    flip false false = refl

pub lit_value-positive : (ρ : Valuation) (v : Var) → v ≤ max_vars → lit_value ρ (positive v) ≡ ρ v
unfolding lit_value
lit_value-positive ρ v h = rw (var-positive v h, is_positive-positive v h)

pub lit_value-negative :
    (ρ : Valuation) (v : Var) → v ≤ max_vars → lit_value ρ (negative v) ≡ not (ρ v)
lit_value-negative ρ v h =
    rw (← negative-eq-not v) (lit_value-not ρ (positive v) ∙ ap not (lit_value-positive ρ v h))

pub lit_value-Agree :
    (n : ℕ) (ρ σ : Valuation) (l : Lit) → Agree n ρ σ → IsMinted n l → lit_value ρ l ≡ lit_value σ l
unfolding lit_value
lit_value-Agree n ρ σ l h m = ap (sign (is_positive l)) (h (var l) m)

pub all_lits-Agree :
    (n : ℕ) (ρ σ : Valuation) (ls : List Lit)
    → Agree n ρ σ
    → All (IsMinted n) ls
    → all ls (lit_value ρ) ≡ all ls (lit_value σ)
all_lits-Agree n ρ σ [] h m = refl
all_lits-Agree n ρ σ (l ∷ ls) h m =
    cc (lit_value-Agree n ρ σ l h m.0, all_lits-Agree n ρ σ ls h m.1)

pub sat_clause-Agree :
    (n : ℕ) (ρ σ : Valuation) (c : List Lit)
    → Agree n ρ σ
    → All (IsMinted n) c
    → sat_clause ρ c ≡ sat_clause σ c
sat_clause-Agree n ρ σ [] h m = refl
sat_clause-Agree n ρ σ (l ∷ ls) h m =
    cc (lit_value-Agree n ρ σ l h m.0, sat_clause-Agree n ρ σ ls h m.1)

pub sat-Agree :
    (n : ℕ) (ρ σ : Valuation) (cs : List (List Lit))
    → Agree n ρ σ
    → All (All (IsMinted n)) cs
    → sat ρ cs ≡ sat σ cs
sat-Agree n ρ σ [] h m = refl
sat-Agree n ρ σ (c ∷ cs) h m = cc (sat_clause-Agree n ρ σ c h m.0, sat-Agree n ρ σ cs h m.1)

-- The check of `add_clause` passes on minted literals.
pub all-IsMinted : (n : ℕ) (c : List Lit) → All (IsMinted n) c → all c (λ l. ltb (var l) n) ≡ true
all-IsMinted n [] m = refl
all-IsMinted n (l ∷ c) m = cc (lt→ltb (var l) n m.0, all-IsMinted n c m.1)
