-- ===== src/Circuit/Define.antt =====
-- The defining clauses of a gate: they hold exactly when the gate's literal is the conjunction.
use mettle.Base.{
  ℕ, ◌≡◌, ap, ◌∙◌, arith, Bool, false, not, beq, ◌&&◌, ◌||◌, List, [], ◌∷◌, ◌++◌, some, All,
  All-append,
}
use mathlib.Core.List.{append_assoc}
use mettle.Solve.{Lit, Cnf, lit_not, add_clause}
use mettle.Solve.Models.{
  Valuation, lit_value, sat_clause, sat, IsMinted, lit_value-not, all-IsMinted,
}
use mettle.Solve.Lits.{var-not}
use mettle.Circuit.{define_gate}
use mettle.Circuit.Canonical.{conj}

abbrev pub defining : Lit → List Lit → List Lit → List (List Lit)
defining z [] big = big ∷ []
defining z (l ∷ ls) big = (lit_not z ∷ l ∷ []) ∷ defining z ls (big ++ (lit_not l ∷ []))

any-snoc :
    (ρ : Valuation) (c : List Lit) (l : Lit)
    → sat_clause ρ (c ++ (l ∷ [])) ≡ (sat_clause ρ c || lit_value ρ l)
any-snoc ρ [] l = ground arith
any-snoc ρ (m ∷ c) l = ground (arith, any-snoc ρ c l)

-- One more operand in the accumulated meaning.
accumulate :
    (z l c b : Bool)
    → ((not z || (l || false)) && ((not z || c) && ((b || not l) || not c)))
      ≡ ((not z || (l && c)) && (b || not (l && c)))
accumulate z l c b = ground arith

sat-defining_from :
    (ρ : Valuation) (z : Lit) (ls big : List Lit)
    → sat ρ (defining z ls big)
      ≡ ((not (lit_value ρ z) || conj ρ ls) && (sat_clause ρ big || not (conj ρ ls)))
sat-defining_from ρ z [] big = ground arith
sat-defining_from ρ z (l ∷ ls) big =
    rw
      (
        sat-defining_from ρ z ls (big ++ (lit_not l ∷ [])),
        any-snoc ρ big (lit_not l),
        lit_value-not ρ z,
        lit_value-not ρ l,
      )
      (accumulate (lit_value ρ z) (lit_value ρ l) (conj ρ ls) (sat_clause ρ big))

pub sat-defining :
    (ρ : Valuation) (z : Lit) (ls : List Lit)
    → sat ρ (defining z ls (z ∷ [])) ≡ beq (lit_value ρ z) (conj ρ ls)
sat-defining ρ z ls = sat-defining_from ρ z ls (z ∷ []) ∙ both_ways (lit_value ρ z) (conj ρ ls)
  where
    both_ways : (a b : Bool) → ((not a || b) && ((a || false) || not b)) ≡ beq a b
    both_ways a b = ground arith

pub not-IsMinted : (n : ℕ) (l : Lit) → IsMinted n l → IsMinted n (lit_not l)
not-IsMinted n l h = rw (var-not l) h

pub defining-IsMinted :
    (n : ℕ) (z : Lit) (ls big : List Lit)
    → IsMinted n z
    → All (IsMinted n) ls
    → All (IsMinted n) big
    → All (All (IsMinted n)) (defining z ls big)
defining-IsMinted n z [] big hz hl hb = (hb, tt)
defining-IsMinted n z (l ∷ ls) big hz hl hb = (
  (not-IsMinted n z hz, (hl.0, tt)),
  defining-IsMinted n z ls (big ++ (lit_not l ∷ [])) hz hl.1
      (All-append (IsMinted n) big (lit_not l ∷ []) hb (not-IsMinted n l hl.0, tt)),
)

pub add_clause_lem :
    (c : Cnf) (clause : List Lit)
    → All (IsMinted c.num_vars) clause
    → add_clause c clause ≡ some (record c { clauses = c.clauses ++ (clause ∷ []) })
unfolding add_clause
add_clause_lem c clause h = rw (all-IsMinted c.num_vars clause h)

-- On minted literals the loop returns, and appends exactly the defining clauses.
pub define_gate_lem :
    (z : Lit) (ls big : List Lit) (c : Cnf)
    → IsMinted c.num_vars z
    → All (IsMinted c.num_vars) ls
    → All (IsMinted c.num_vars) big
    → define_gate z ls big c ≡ some (record c { clauses = c.clauses ++ defining z ls big })
unfolding define_gate
define_gate_lem z [] big c hz hl hb = add_clause_lem c big hb
define_gate_lem z (l ∷ ls) big c hz hl hb =
    let step = add_clause_lem c (lit_not z ∷ l ∷ []) (not-IsMinted c.num_vars z hz, (hl.0, tt)) in
    let grown =
      All-append (IsMinted c.num_vars) big (lit_not l ∷ []) hb
        (not-IsMinted c.num_vars l hl.0, tt) in
    let rest =
      define_gate_lem z ls (big ++ (lit_not l ∷ []))
        (record c { clauses = c.clauses ++ ((lit_not z ∷ l ∷ []) ∷ []) }) hz hl.1 grown in
    rw (step, define_gate)
      (rest
        ∙ ap (λ (cs : List (List Lit)). some (record c { clauses = cs }))
            (append_assoc c.clauses ((lit_not z ∷ l ∷ []) ∷ [])
              (defining z ls (big ++ (lit_not l ∷ [])))))
