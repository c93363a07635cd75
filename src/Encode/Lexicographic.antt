-- ===== src/Encode/Lexicographic.antt =====
-- The symmetry-breaking circuit decides the lexicographic order.
use mettle.Base.{
  ℕ, suc, ◌+◌, ◌*◌, ◌≤◌, ◌≡◌, refl, ap, ◌∙◌, arith, Bool, true, false, not, beq, ◌&&◌, ◌||◌, List,
  [], ◌∷◌, map, length, All,
}
use mettle.Solve.Models.{Valuation}
use mettle.Circuit
use mettle.Circuit.{CircuitBool, const}
use mettle.Circuit.Conjunction.{every}
use mettle.Circuit.Model.{
  Denotes, Total, Ready, bit, bits, bool_value, IsMintedBool, IsMintedBool-mono, bind-Total,
  pure-Total, cost_le, self-Denotes, later, same-Total,
}
use mettle.Circuit.Operations.{
  and_Total, implies-Total, iff_Total, and_many-Total, nil-Denotes, cons-Denotes, const-Denotes,
}
use mettle.Circuit.Yields.{Yields, total-Yields}
use mettle.Encode.Decide.{lex_clauses, lex_leq}

-- The order in which false is before true, over the positions that both have.
abbrev pub lex_le : List Bool → List Bool → Bool
lex_le [] ys = true
lex_le (x ∷ xs) [] = true
lex_le (x ∷ xs) (y ∷ ys) = (not x && y) || (beq x y && lex_le xs ys)

abbrev zip_length : {A : Type 0} → List A → List A → ℕ
zip_length [] ys = 0
zip_length (x ∷ xs) [] = 0
zip_length (x ∷ xs) (y ∷ ys) = suc (zip_length xs ys)

zip_le : {A : Type 0} (xs ys : List A) → zip_length xs ys ≤ length xs
zip_le [] ys = omega arith
zip_le (x ∷ xs) [] = omega arith
zip_le (x ∷ xs) (y ∷ ys) = omega (arith, zip_le xs ys)

-- The values of the clauses.
abbrev clause_values : Bool → List Bool → List Bool → List Bool
clause_values e [] ys = []
clause_values e (x ∷ xs) [] = []
clause_values e (x ∷ xs) (y ∷ ys) = (not e || (not x || y)) ∷ clause_values (e && beq x y) xs ys

clauses_lem :
    (e : Bool) (xs ys : List Bool) → every (clause_values e xs ys) ≡ (not e || lex_le xs ys)
clauses_lem e [] ys = ground arith
clauses_lem e (x ∷ xs) [] = ground arith
clauses_lem e (x ∷ xs) (y ∷ ys) =
    ap (λ c. (not e || (not x || y)) && c) (clauses_lem (e && beq x y) xs ys)
    ∙ step e x y (lex_le xs ys)
  where
    step :
        (a b c d : Bool)
        → ((not a || (not b || c)) && (not (a && beq b c) || d))
          ≡ (not a || ((not b && c) || (beq b c && d)))
    step true true true d = refl
    step true true false d = refl
    step true false true d = refl
    step true false false d = refl
    step false b c d = refl

lex_clauses-Total :
    (n : ℕ) (os ps : List CircuitBool) (prev : CircuitBool) {s : Circuit.Circuit}
    {g : Valuation → Bool}
    → n ≤ s.cnf.num_vars
    → Denotes bit s prev g
    → All (IsMintedBool n) os
    → All (IsMintedBool n) ps
    → Total
        (bits (zip_length os ps))
        s
        (6 * zip_length os ps)
        (lex_clauses prev os ps)
        (λ ρ. clause_values (g ρ) (map (bool_value ρ) os) (map (bool_value ρ) ps))
unfolding lex_clauses
lex_clauses-Total n [] ps prev l d h k = cost_le (omega arith) (pure-Total nil-Denotes)
lex_clauses-Total n (o ∷ os) [] prev l d h k = cost_le (omega arith) (pure-Total nil-Denotes)
lex_clauses-Total n (o ∷ os) (p ∷ ps) prev {s} l d h k =
    let m = s.cnf.num_vars in
    let od = self-Denotes {x = bit} {s = s} {a = o} (IsMintedBool-mono n m o l h.0) in
    let pd = self-Denotes {x = bit} {s = s} {a = p} (IsMintedBool-mono n m p l k.0) in
    let rest = 6 * zip_length os ps in
    cost_le (omega arith) (
      bind-Total {j = 1} {k = 1 + (3 + (1 + (rest + 0)))} (implies-Total od pd) (λ imp t x di.
        bind-Total {j = 1} {k = 3 + (1 + (rest + 0))} (implies-Total (later x d) di)
          (λ clause u y dc.
            bind-Total {j = 3} {k = 1 + (rest + 0)}
              (iff_Total o p (later y (later x od)) (later y (later x pd)))
              (λ e v z de.
                bind-Total {j = 1} {k = rest + 0} (and_Total (later z (later y (later x d))) de)
                  (λ next w a dn.
                    bind-Total {j = rest} {k = 0}
                      (lex_clauses-Total n os ps next {s = w}
                        (omega (arith, x.grows, y.grows, z.grows, a.grows, l)) dn h.1 k.1)
                      (λ cmp q b dq.
                        pure-Total (cons-Denotes (later b (later a (later z dc))) dq)))))))

-- In a well-formed state with room for six gates an element and one more, over minted bits,
-- lex_leq returns, and in every model its result is true exactly when the values of the first list
-- are lexicographically at most those of the second, over the positions that both have.
pub lex_leq_decides :
    (original permuted : List CircuitBool) (s : Circuit.Circuit)
    → All (IsMintedBool s.cnf.num_vars) original
    → All (IsMintedBool s.cnf.num_vars) permuted
    → Ready (6 * length original + 1) s
    → Yields bit s
        (6 * length original + 1)
        (lex_leq original permuted)
        (λ ρ v. v ≡ lex_le (map (bool_value ρ) original) (map (bool_value ρ) permuted))
unfolding lex_leq
lex_leq_decides original permuted s h k ready =
    total-Yields (λ ρ v. v ≡ lex_le (map (bool_value ρ) original) (map (bool_value ρ) permuted))
      (λ ρ i. refl)
      (cost_le (omega (arith, zip_le original permuted)) (
        bind-Total {j = 6 * zip_length original permuted} {k = 1}
          (lex_clauses-Total s.cnf.num_vars original permuted (const true) {s = s} (omega arith)
            (const-Denotes true) h k)
          (λ cmp t x d.
            same-Total
              (λ ρ i. clauses_lem true (map (bool_value ρ) original) (map (bool_value ρ) permuted))
              (and_many-Total d))))
      ready
