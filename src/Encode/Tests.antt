-- ===== src/Encode/Tests.antt =====
-- The operators of the encoder at a pool of four variables.
use mettle.Base.{◌≡◌, refl, arith, [], ◌∷◌, map, length, some, if◌then◌else◌}
use mettle.Solve.{var}
use mettle.Circuit.{lit}
use mettle.Circuit.Model.{bool_value, bit}
use mettle.Circuit.Tests.{four, four-Ready}
use mettle.Circuit.Yields.{Yields}
use mettle.Bounds.{before}
use mettle.Matrix.{Matrix}
use mettle.Eval
use mettle.Encode
use mettle.Encode.Matrices.{IsMatrix}
use mettle.Encode.Sets.{set_of, Refines}
use mettle.Encode.Refinement.{boolean-Refines}
use mettle.Encode.Products.{product-Refines}
use mettle.Encode.Transposes.{transpose-Refines}
use mettle.Encode.Joins.{join-Refines}
use mettle.Encode.Overrides.{override-Refines}
use mettle.Encode.Decide.{equal, rel_compare, lone, mult_test, lex_leq}
use mettle.Encode.Compares.{rel_compare_decides}
use mettle.Encode.Parts.{rel_atom}
use mettle.Encode.Multiplicities.{mult_test_counts}
use mettle.Encode.Pairs.{allows}
use mettle.Encode.Lexicographic.{lex_le, lex_leq_decides}

-- The atoms 0 and 1, the atom 1, and the pairs of the two atoms.
abbrev both_atoms : Matrix
both_atoms = record { arity = 1; cells = (0 ∷ [], lit 0) ∷ (1 ∷ [], lit 2) ∷ [] }

abbrev one_atom : Matrix
one_atom = record { arity = 1; cells = (1 ∷ [], lit 4) ∷ [] }

abbrev swaps : Matrix
swaps = record { arity = 2; cells = (0 ∷ 1 ∷ [], lit 0) ∷ (1 ∷ 0 ∷ [], lit 6) ∷ [] }

both_atoms-IsMatrix : IsMatrix 1 4 both_atoms
unfolding before var
both_atoms-IsMatrix =
    (refl, ((refl, tt), (tt, tt)), ((refl, omega arith), ((refl, omega arith), tt)))

one_atom-IsMatrix : IsMatrix 1 4 one_atom
unfolding var
one_atom-IsMatrix = (refl, (tt, tt), ((refl, omega arith), tt))

swaps-IsMatrix : IsMatrix 2 4 swaps
unfolding before var
swaps-IsMatrix = (refl, ((refl, tt), (tt, tt)), ((refl, omega arith), ((refl, omega arith), tt)))

boolean-Refines_example :
    Refines 1 four 9
      (Encode.union both_atoms one_atom)
      (λ ρ. Eval.union (set_of ρ both_atoms) (set_of ρ one_atom))
    × Refines 1 four 9
        (Encode.intersect both_atoms one_atom)
        (λ ρ. Eval.intersect (set_of ρ both_atoms) (set_of ρ one_atom))
    × Refines 1 four 9
        (Encode.diff both_atoms one_atom)
        (λ ρ. Eval.diff (set_of ρ both_atoms) (set_of ρ one_atom))
    × Refines 1 four 9
        (Encode.rel_ite (lit 6) both_atoms one_atom)
        (λ ρ. some (if bool_value ρ (lit 6) then set_of ρ both_atoms else set_of ρ one_atom))
unfolding var
boolean-Refines_example =
    boolean-Refines 1 four both_atoms one_atom (omega arith) both_atoms-IsMatrix one_atom-IsMatrix
      (lit 6) (omega arith) (four-Ready 9 (omega arith))

product-Refines_example :
    Refines 2 four 2
      (Encode.product both_atoms one_atom)
      (λ ρ. Eval.product (set_of ρ both_atoms) (set_of ρ one_atom))
product-Refines_example =
    product-Refines 1 1 four both_atoms one_atom (omega arith) both_atoms-IsMatrix one_atom-IsMatrix
      (omega arith) (four-Ready 2 (omega arith))

transpose-Refines_example :
    Refines 2 four 0 (Encode.transpose swaps) (λ ρ. Eval.transpose (set_of ρ swaps))
transpose-Refines_example = transpose-Refines four swaps swaps-IsMatrix (four-Ready 0 (omega arith))

join-Refines_example :
    Refines 1 four 8
      (Encode.join both_atoms swaps)
      (λ ρ. Eval.join (set_of ρ both_atoms) (set_of ρ swaps))
join-Refines_example =
    join-Refines 1 2 four both_atoms swaps (omega arith) (omega arith) (omega arith)
      both_atoms-IsMatrix swaps-IsMatrix (four-Ready 8 (omega arith))

override-Refines_example :
    Refines 2 four 6
      (Encode.override_ swaps swaps)
      (λ ρ. Eval.override (set_of ρ swaps) (set_of ρ swaps))
override-Refines_example =
    override-Refines 2 four swaps swaps (omega arith) swaps-IsMatrix swaps-IsMatrix
      (four-Ready 6 (omega arith))

rel_compare_decides_example :
    Yields bit four 10
      (rel_compare equal both_atoms one_atom)
      (λ ρ v. v ≡ rel_atom equal (set_of ρ both_atoms) (set_of ρ one_atom))
rel_compare_decides_example =
    rel_compare_decides 1 four both_atoms one_atom (omega arith) both_atoms-IsMatrix
      one_atom-IsMatrix equal (four-Ready 10 (omega arith))

mult_test_counts_example :
    Yields bit four 4
      (mult_test lone both_atoms)
      (λ ρ v. v ≡ allows lone (length (set_of ρ both_atoms).tuples))
mult_test_counts_example =
    mult_test_counts 1 four both_atoms both_atoms-IsMatrix lone (four-Ready 4 (omega arith))

lex_leq_decides_example :
    Yields bit four 13 (lex_leq (lit 0 ∷ lit 2 ∷ []) (lit 4 ∷ lit 6 ∷ [])) (λ ρ v.
      v
      ≡ lex_le (map (bool_value ρ) (lit 0 ∷ lit 2 ∷ [])) (map (bool_value ρ) (lit 4 ∷ lit 6 ∷ [])))
unfolding var
lex_leq_decides_example =
    lex_leq_decides (lit 0 ∷ lit 2 ∷ []) (lit 4 ∷ lit 6 ∷ []) four (omega arith, (omega arith, tt))
      (omega arith, (omega arith, tt)) (four-Ready 13 (omega arith))
