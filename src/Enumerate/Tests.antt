-- ===== src/Enumerate/Tests.antt =====
-- The enumeration over a solver that tries two assignments, and a decoded bound.
use mettle.Base.{
  ◌^◌, ◌≤◌, ◌≡◌, refl, sym, ap, ◌∙◌, arith, Bool, true, false, if◌then◌else◌, List, [], ◌∷◌, ◌++◌,
  Option, none, some, length, All,
}
use mettle.Solve.{Lit, Cnf, fresh_var, Assignment, positive, negative, var, is_positive}
use mettle.Solve.Models
use mettle.Solve.Models.{lit_value}
use mettle.Solve.Blocking.{bit_at}
use mettle.Bounds.{Tuple, TupleSet, same, before, contains}
use mettle.Bounds.Sets.{IsWellFormed}
use mettle.Enumerate.{
  RelDecode, Instance, Outcome, sat, unsat, Solver, Enumerator, answered, ask, next,
  decode_relation, float_tuples,
}
use mettle.Enumerate.Primaries.{Between, decode_relation-Between}
use mettle.Enumerate.Count.{next-Shows_at_most}
use mettle.Enumerate.Distinct.{Lawful, Distinct, Shows, begin, shows, next-Shows-Distinct}

-- The first assignment that satisfies the clauses.
abbrev pick : List Assignment → List (List Lit) → Outcome
pick [] cs = unsat
pick (a ∷ rest) cs = let later = pick rest cs in if Models.sat (bit_at a) cs then sat a else later

abbrev candidates : List Assignment
candidates = (false ∷ []) ∷ (true ∷ []) ∷ []

abbrev trial : Solver (List (List Lit))
trial = record {
  solve = λ cs. (pick candidates cs, cs);
  solve_within = λ cs n. (some (pick candidates cs), cs);
  effort = λ cs. some 0;
  add = λ cs c. cs ++ (c ∷ []);
}

abbrev model_of : Outcome → Assignment
model_of unsat = []
model_of (sat a) = a

abbrev first_outcome : Option Outcome → Outcome
first_outcome none = unsat
first_outcome (some o) = o

pick_lem :
    (tried : List Assignment) (cs : List (List Lit)) (a : Assignment)
    → All (λ b. length b ≡ 1) tried
    → pick tried cs ≡ sat a
    → (Models.sat (bit_at a) cs ≡ true) × (length a ≡ 1)
pick_lem [] cs a h e = absurd (cc e)
pick_lem (b ∷ tried) cs a h e = by_case (Models.sat (bit_at b) cs) refl (pick_lem tried cs a h.1) e
  where
    by_case :
        (c : Bool)
        → Models.sat (bit_at b) cs ≡ c
        → (pick tried cs ≡ sat a → (Models.sat (bit_at a) cs ≡ true) × (length a ≡ 1))
        → (if c then sat b else pick tried cs) ≡ sat a
        → (Models.sat (bit_at a) cs ≡ true) × (length a ≡ 1)
    by_case true q k z =
        let same_model : b ≡ a = ap model_of z in
        (ap (λ w. Models.sat (bit_at w) cs) (sym same_model) ∙ q, ap length (sym same_model) ∙ h.0)
    by_case false q k z = k z

trial_lem :
    (cs : List (List Lit)) (a : Assignment)
    → pick candidates cs ≡ sat a
    → (Models.sat (bit_at a) cs ≡ true) × (length a ≡ 1)
trial_lem cs a e = pick_lem candidates cs a (refl, (refl, tt)) e

abbrev trial_laws : Lawful trial
trial_laws = record {
  clauses = λ cs. cs;
  num_vars = λ cs. 1;
  models = λ cs a e. (trial_lem cs a e).0;
  models_within = λ cs n a e. (trial_lem cs a (ap first_outcome e)).0;
  covers = λ cs a e. (omega (arith, (trial_lem cs a e).1), omega (arith, (trial_lem cs a e).1));
  covers_within = λ cs n a e. (
    omega (arith, (trial_lem cs a (ap first_outcome e)).1),
    omega (arith, (trial_lem cs a (ap first_outcome e)).1),
  );
  solve_keeps = λ cs. (refl, refl);
  within_keeps = λ cs n. (refl, refl);
  adds = λ cs c. (refl, refl);
}

-- One relation that may hold the atom 0.
abbrev one_relation : RelDecode
one_relation = record {
  rel = 0;
  arity = 1;
  lower = record { arity = 1; tuples = [] };
  floating = (0 ∷ [], 0) ∷ [];
}

abbrev at_clauses : List (List Lit) → Enumerator (List (List Lit))
at_clauses cs = record {
  solver = cs;
  primaries = 0 ∷ [];
  layout = one_relation ∷ [];
  universe = (1 ∷ []) ∷ [];
  done = false;
  pending_trivial = false;
  budget_remaining = none;
  exhausted = false;
}

abbrev with_tuples : List Tuple → Instance
with_tuples ts = record {
  universe = (1 ∷ []) ∷ [];
  rels = (0, record { arity = 1; tuples = ts }) ∷ [];
}

first_ask : ask trial (at_clauses []) ≡ answered (sat (false ∷ [])) (at_clauses [])
unfolding ask
first_ask = refl

first_next : next trial (at_clauses []) ≡ some (some (with_tuples []), at_clauses ((0 ∷ []) ∷ []))
unfolding next ask positive
first_next = refl

second_ask :
    ask trial (at_clauses ((0 ∷ []) ∷ [])) ≡ answered (sat (true ∷ [])) (at_clauses ((0 ∷ []) ∷ []))
unfolding ask lit_value var is_positive
second_ask = refl

second_next :
    next trial (at_clauses ((0 ∷ []) ∷ []))
    ≡ some (some (with_tuples ((0 ∷ []) ∷ [])), at_clauses ((0 ∷ []) ∷ (1 ∷ []) ∷ []))
unfolding next ask lit_value var is_positive negative
second_next = refl

two_shown :
    Shows trial trial_laws
      (at_clauses [])
      ((true ∷ []) ∷ (false ∷ []) ∷ [])
      (at_clauses ((0 ∷ []) ∷ (1 ∷ []) ∷ []))
two_shown =
    shows ((false ∷ []) ∷ []) (at_clauses ((0 ∷ []) ∷ [])) (at_clauses ((0 ∷ []) ∷ []))
      (at_clauses ((0 ∷ []) ∷ (1 ∷ []) ∷ [])) (true ∷ []) (with_tuples ((0 ∷ []) ∷ []))
      (shows [] (at_clauses []) (at_clauses []) (at_clauses ((0 ∷ []) ∷ [])) (false ∷ [])
        (with_tuples []) begin refl refl first_ask first_next)
      refl refl second_ask second_next

next-Shows-Distinct_example :
    All (λ a. Models.sat (bit_at a) [] ≡ true) ((true ∷ []) ∷ (false ∷ []) ∷ [])
    × Distinct (0 ∷ []) ((true ∷ []) ∷ (false ∷ []) ∷ [])
next-Shows-Distinct_example =
    next-Shows-Distinct trial trial_laws (at_clauses []) (at_clauses ((0 ∷ []) ∷ (1 ∷ []) ∷ []))
      ((true ∷ []) ∷ (false ∷ []) ∷ []) (omega arith, tt) two_shown

next-Shows_at_most_example : length {A = Assignment} ((true ∷ []) ∷ (false ∷ []) ∷ []) ≤ 2 ^ 1
next-Shows_at_most_example =
    next-Shows_at_most trial trial_laws (at_clauses []) (at_clauses ((0 ∷ []) ∷ (1 ∷ []) ∷ []))
      ((true ∷ []) ∷ (false ∷ []) ∷ []) (omega arith, tt) two_shown

abbrev lower_set : TupleSet
lower_set = record { arity = 1; tuples = (0 ∷ []) ∷ [] }

abbrev upper_set : TupleSet
upper_set = record { arity = 1; tuples = (0 ∷ []) ∷ (1 ∷ []) ∷ [] }

abbrev one_variable : Cnf
one_variable = record { num_vars = 1; clauses = [] }

lower_set-IsWellFormed : IsWellFormed lower_set
lower_set-IsWellFormed = ((tt, tt), (refl, tt))

upper_set-IsWellFormed : IsWellFormed upper_set
unfolding before
upper_set-IsWellFormed = (((refl, tt), (tt, tt)), (refl, (refl, tt)))

lower_in_upper : (x : Tuple) → contains lower_set x ≡ true → contains upper_set x ≡ true
unfolding contains
lower_in_upper x h = ground (arith, h)

one_floats :
    float_tuples lower_set upper_set.tuples (record { num_vars = 0; clauses = [] })
    ≡ some ((1 ∷ [], 0) ∷ [], one_variable)
unfolding float_tuples contains same fresh_var
one_floats = refl

decode_relation-Between_example :
    Between lower_set upper_set (decode_relation lower_set ((1 ∷ [], 0) ∷ []) (true ∷ []))
decode_relation-Between_example =
    decode_relation-Between lower_set upper_set (record { num_vars = 0; clauses = [] }) one_variable
      ((1 ∷ [], 0) ∷ []) (true ∷ []) lower_set-IsWellFormed upper_set-IsWellFormed refl
      lower_in_upper (omega arith) one_floats (omega arith)
