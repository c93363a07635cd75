-- ===== src/Encode/Multiplicities.antt =====
-- The multiplicity tests count the tuples of a matrix.
use mettle.Base.{
  ℕ, ◌+◌, ◌≡◌, refl, ap, ◌∙◌, arith, not, ◌&&◌, ◌==◌, leb, List, [], ◌∷◌, map, length, All, retain,
  Bool-cases, inl, inr,
}
use mettle.Solve.Models.{Valuation}
use mettle.Circuit
use mettle.Circuit.{CircuitBool, M}
use mettle.Circuit.Model.{
  Extends, Extends-refl, same, Total, Ready, bit, bits, bool_value, IsMintedBool, bind-Total,
  pure-Total, cost_le, self-Denotes, later, same-Total,
}
use mettle.Circuit.Operations.{and_Total, and_many-Total, or_many-Total, not-Denotes}
use mettle.Circuit.Yields.{Yields, total-Yields}
use mettle.Bounds.{Tuple}
use mettle.Matrix.{Matrix}
use mettle.Encode.Decide.{MultTest, no, some_, lone, one, at_most_one, mult_test}
use mettle.Encode.Matrices.{IsMatrix}
use mettle.Encode.Sets.{set_of}
use mettle.Encode.Pairs.{
  count, pair_count, minted_later, not_two-Total, pairs_lem, some_lem, allows,
}

module _ (r : ℕ) (s : Circuit.Circuit) (m : Matrix) (h : IsMatrix r s.cnf.num_vars m) where
  abbrev bits_of : List CircuitBool
  bits_of = map (λ e. e.1) m.cells

  bits_minted : All (IsMintedBool s.cnf.num_vars) bits_of
  bits_minted = minted m.cells h.2
    where
      minted :
          (es : List (Tuple × CircuitBool))
          → All (λ e. (length e.0 ≡ r) × IsMintedBool s.cnf.num_vars e.1) es
          → All (IsMintedBool s.cnf.num_vars) (map (λ e. e.1) es)
      minted [] k = tt
      minted (e ∷ es) k = (k.0.1, minted es k.1)

  count_lem : (ρ : Valuation) → count (map (bool_value ρ) bits_of) ≡ length (set_of ρ m).tuples
  unfolding set_of
  count_lem ρ = go m.cells
    where
      go :
          (es : List (Tuple × CircuitBool))
          → count (map (bool_value ρ) (map (λ e. e.1) es))
            ≡ length (map (λ e. e.0) (retain (λ e. bool_value ρ e.1) es))
      go [] = refl
      go (e ∷ es) = elim (Bool-cases (bool_value ρ e.1)) [
        | inl k ↦ rw k (omega (arith, go es))
        | inr k ↦ rw k (omega (arith, go es))
      ]

  some-Total :
      {j : ℕ} {t : Circuit.Circuit}
      → Extends j s t
      → Total bit t 1 (Circuit.or_many bits_of) (λ ρ. leb 1 (length (set_of ρ m).tuples))
  some-Total {t} x =
      same-Total (λ ρ i. some_lem (map (bool_value ρ) bits_of) ∙ ap (leb 1) (count_lem ρ))
        (or_many-Total (
          later x
            (self-Denotes {x = bits (length bits_of)} {s = s} {a = bits_of} (refl, bits_minted))))

  lone-Total :
      {j : ℕ} {t : Circuit.Circuit}
      → Extends j s t
      → Total bit t
          (pair_count bits_of + 1)
          (at_most_one bits_of)
          (λ ρ. leb (length (set_of ρ m).tuples) 1)
  unfolding at_most_one
  lone-Total {t} x =
      same-Total (λ ρ i. pairs_lem (map (bool_value ρ) bits_of) ∙ ap (λ n. leb n 1) (count_lem ρ))
        (bind-Total {j = pair_count bits_of} {k = 1}
          (not_two-Total bits_of {s = t}
            (minted_later s.cnf.num_vars t.cnf.num_vars bits_of x.grows bits_minted))
          (λ parts u y d. and_many-Total d))

  mult_test-Total :
      (test : MultTest)
      → Total bit s
          (pair_count bits_of + 3)
          (mult_test test m)
          (λ ρ. allows test (length (set_of ρ m).tuples))
  unfolding mult_test
  mult_test-Total no = cost_le (omega arith) (
      bind-Total {j = 1} {k = 0} (some-Total (Extends-refl s)) (λ v t x d.
        pure-Total (same (λ ρ. none_left (length (set_of ρ m).tuples)) (not-Denotes d))))
    where
      none_left : (n : ℕ) → not (leb 1 n) ≡ (n == 0)
      none_left n = ground arith
  mult_test-Total some_ = cost_le (omega arith) (some-Total (Extends-refl s))
  mult_test-Total lone = cost_le (omega arith) (lone-Total (Extends-refl s))
  mult_test-Total one = cost_le (omega arith) (
      bind-Total {j = 1} {k = (pair_count bits_of + 1) + 1} (some-Total (Extends-refl s))
        (λ v t x d. bind-Total {j = pair_count bits_of + 1} {k = 1} (lone-Total x) (λ alone u y e.
          same-Total (λ ρ i. exactly (length (set_of ρ m).tuples)) (and_Total (later y d) e))))
    where
      exactly : (n : ℕ) → (leb 1 n && leb n 1) ≡ (n == 1)
      exactly n = ground arith

  -- Over a matrix of minted bits, in a well-formed state with room for a gate for each pair of
  -- cells and three more, mult_test returns, and in every model its result is the evaluator's test
  -- of the number of tuples of the set that the matrix holds, for no, some, lone and one.
  pub mult_test_counts :
      (test : MultTest)
      → Ready (pair_count bits_of + 3) s
      → Yields bit s
          (pair_count bits_of + 3)
          (mult_test test m)
          (λ ρ v. v ≡ allows test (length (set_of ρ m).tuples))
  mult_test_counts test ready =
      total-Yields (λ ρ v. v ≡ allows test (length (set_of ρ m).tuples)) (λ ρ i. refl)
        (mult_test-Total test) ready
