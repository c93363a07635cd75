-- ===== src/Enumerate/Distinct.antt =====
-- The enumeration shows models of the first formula, any two of which differ at a primary variable.
use mettle.Base.{
  ℕ, zero, suc, ◌<◌, ◌≤◌, ◌≡◌, refl, sym, ap, subst, ◌∙◌, arith, Bool, true, false, ◌&&◌, List, [],
  ◌∷◌, ◌++◌, Option, none, some, length, any, if◌then◌else◌, all-append, All, All-map,
}
use mettle.Solve.{Var, Lit, Assignment, max_vars, block}
use mettle.Solve.Models
use mettle.Solve.Models.{Valuation, sat_clause}
use mettle.Solve.Blocking.{bit_at, differs, block_lem}
use mettle.Eval.{and_then}
use mettle.Enumerate.{
  Instance, Outcome, sat, unsat, Solver, Enumerator, Asked, panic, stopped, answered, within,
  charge, budgeted, ask_with, ask, blocked, finish, next, decode, trivial_instance, trivial_first,
  proceed,
}

-- What the enumeration relies on of a solver: an assignment that it returns covers its variables
-- and satisfies its clauses, solving changes neither, and `add` adds a clause.
pub record Lawful {S : Type 0} (solver : Solver S) : Type 0 where
  pub clauses : S → List (List Lit)
  pub num_vars : S → ℕ
  pub models :
      (s : S) (a : Assignment)
      → (solver.solve s).0 ≡ sat a
      → Models.sat (bit_at a) (clauses s) ≡ true
  pub models_within :
      (s : S) (n : ℕ) (a : Assignment)
      → (solver.solve_within s n).0 ≡ some (sat a)
      → Models.sat (bit_at a) (clauses s) ≡ true
  pub covers :
      (s : S) (a : Assignment)
      → (solver.solve s).0 ≡ sat a
      → (num_vars s ≤ length a) × (length a ≤ max_vars)
  pub covers_within :
      (s : S) (n : ℕ) (a : Assignment)
      → (solver.solve_within s n).0 ≡ some (sat a)
      → (num_vars s ≤ length a) × (length a ≤ max_vars)
  pub solve_keeps :
      (s : S)
      → (clauses (solver.solve s).1 ≡ clauses s) × (num_vars (solver.solve s).1 ≡ num_vars s)
  pub within_keeps :
      (s : S) (n : ℕ)
      → (clauses (solver.solve_within s n).1 ≡ clauses s)
        × (num_vars (solver.solve_within s n).1 ≡ num_vars s)
  pub adds :
      (s : S) (c : List Lit)
      → (clauses (solver.add s c) ≡ clauses s ++ (c ∷ []))
        × (num_vars (solver.add s c) ≡ num_vars s)

-- Any two differ at one of the variables.
abbrev pub Distinct : List Var → List Assignment → Type 0
Distinct vs [] = Unit
Distinct vs (a ∷ shown) = All (λ b. any vs (differs (bit_at a) b) ≡ true) shown × Distinct vs shown

module _ {S : Type 0} (solver : Solver S) (laws : Lawful solver) where
  -- The calls of next that show an instance: with the assignments that the solver returned, the
  -- newest first.
  pub data Shows (e : Enumerator S) : List Assignment → Enumerator S → Type 0 where
    begin : Shows e [] e
    trivially :
        (shown : List Assignment) (f g : Enumerator S) (i : Instance)
        → Shows e shown f
        → f.done ≡ false
        → f.pending_trivial ≡ true
        → next solver f ≡ some (some i, g)
        → Shows e shown g
    shows :
        (shown : List Assignment) (f h g : Enumerator S) (a : Assignment) (i : Instance)
        → Shows e shown f
        → f.done ≡ false
        → f.pending_trivial ≡ false
        → ask solver f ≡ answered (sat a) h
        → next solver f ≡ some (some i, g)
        → Shows e (a ∷ shown) g

  -- What an answer of the solver says.
  record Answer (f h : Enumerator S) (a : Assignment) : Type 0 where
    model : Models.sat (bit_at a) (laws.clauses f.solver) ≡ true
    covered : (laws.num_vars f.solver ≤ length a) × (length a ≤ max_vars)
    same_clauses : laws.clauses h.solver ≡ laws.clauses f.solver
    same_vars : laws.num_vars h.solver ≡ laws.num_vars f.solver
    same_primaries : h.primaries ≡ f.primaries

  is_answer : Asked S → Bool
  is_answer panic = false
  is_answer (stopped e) = false
  is_answer (answered o e) = true

  outcome_of : Outcome → Asked S → Outcome
  outcome_of d panic = d
  outcome_of d (stopped e) = d
  outcome_of d (answered o e) = o

  state_of : Enumerator S → Asked S → Enumerator S
  state_of d panic = d
  state_of d (stopped e) = e
  state_of d (answered o e) = e

  ask_lem : (f h : Enumerator S) (a : Assignment) → ask solver f ≡ answered (sat a) h → Answer f h a
  unfolding ask is_answer outcome_of state_of
  ask_lem f h a q = by_budget f.budget_remaining q
    where
      no_answer : {P : Type 0} → false ≡ true → P
      no_answer z = absurd (cc z)

      charged :
          (n k : ℕ) (o : Outcome) (s : S) (x : Option ℕ)
          → charge solver f n k o s x ≡ answered (sat a) h
          → (o ≡ sat a) × (h.solver ≡ s) × (h.primaries ≡ f.primaries)
      charged n k o s none z = no_answer (ap is_answer z)
      charged n k o s (some x) z = (
        ap (outcome_of unsat) z,
        ap (λ w. (state_of f w).solver) (sym z),
        ap (λ w. (state_of f w).primaries) (sym z),
      )

      returned :
          (n k : ℕ) (p : Option Outcome × S)
          → within solver f n k p ≡ answered (sat a) h
          → (p.0 ≡ some (sat a)) × (h.solver ≡ p.1) × (h.primaries ≡ f.primaries)
      returned n k (none, s) z = no_answer (ap is_answer z)
      returned n k (some o, s) z =
          let r = charged n k o s (solver.effort s) z in (ap some r.0, r.1, r.2)

      with_effort :
          (n : ℕ) (x : Option ℕ) → budgeted solver f (suc n) x ≡ answered (sat a) h → Answer f h a
      with_effort n none z = no_answer (ap is_answer z)
      with_effort n (some k) z =
          let r = returned (suc n) k (solver.solve_within f.solver (suc n)) z in
          record {
            model = laws.models_within f.solver (suc n) a r.0;
            covered = laws.covers_within f.solver (suc n) a r.0;
            same_clauses = ap laws.clauses r.1 ∙ (laws.within_keeps f.solver (suc n)).0;
            same_vars = ap laws.num_vars r.1 ∙ (laws.within_keeps f.solver (suc n)).1;
            same_primaries = r.2;
          }

      by_budget : (b : Option ℕ) → ask_with solver f b ≡ answered (sat a) h → Answer f h a
      by_budget none z =
          let r : (solver.solve f.solver).0 ≡ sat a = ap (outcome_of unsat) z in
          let t : h.solver ≡ (solver.solve f.solver).1 = ap (λ w. (state_of f w).solver) (sym z) in
          record {
            model = laws.models f.solver a r;
            covered = laws.covers f.solver a r;
            same_clauses = ap laws.clauses t ∙ (laws.solve_keeps f.solver).0;
            same_vars = ap laws.num_vars t ∙ (laws.solve_keeps f.solver).1;
            same_primaries = ap (λ w. (state_of f w).primaries) (sym z);
          }
      by_budget (some zero) z = no_answer (ap is_answer z)
      by_budget (some (suc n)) z = with_effort n (solver.effort f.solver) z

  -- The state after some calls, unless the enumeration is over: its formula rules out what was
  -- shown.
  record Invariant (e : Enumerator S) (shown : List Assignment) (f : Enumerator S) : Type 0 where
    vars : laws.num_vars f.solver ≡ laws.num_vars e.solver
    primaries : f.primaries ≡ e.primaries
    entails :
        f.done ≡ false
        → (ρ : Valuation) → Models.sat ρ (laws.clauses f.solver) ≡ true
        → (Models.sat ρ (laws.clauses e.solver) ≡ true)
          × All (λ a. any e.primaries (differs ρ a) ≡ true) shown

  after_next : Enumerator S → Option (Option Instance × Enumerator S) → Enumerator S
  after_next d none = d
  after_next d (some p) = p.1

  -- Blocking the assignment.
  blocked-Invariant :
      (e f h : Enumerator S) (shown : List Assignment) (a : Assignment) (c : List Lit)
      → Invariant e shown f
      → f.done ≡ false
      → Answer f h a
      → ((ρ : Valuation) → sat_clause ρ c ≡ any e.primaries (differs ρ a))
      → Invariant e (a ∷ shown) (blocked solver h c)
  blocked-Invariant e f h shown a [] v p w s = record {
    vars = w.same_vars ∙ v.vars;
    primaries = w.same_primaries ∙ v.primaries;
    entails = λ d. absurd (cc d);
  }
  blocked-Invariant e f h shown a (l ∷ c) v p w s = record {
    vars = (laws.adds h.solver (l ∷ c)).1 ∙ (w.same_vars ∙ v.vars);
    primaries = w.same_primaries ∙ v.primaries;
    entails = λ d ρ m.
        let split : (Models.sat ρ (laws.clauses f.solver) && (sat_clause ρ (l ∷ c) && true))
            ≡ true =
          sym (all-append (laws.clauses f.solver) ((l ∷ c) ∷ []) (sat_clause ρ))
          ∙ (ap (λ cs. Models.sat ρ (cs ++ ((l ∷ c) ∷ []))) (sym w.same_clauses)
              ∙ (ap (Models.sat ρ) (sym (laws.adds h.solver (l ∷ c)).0) ∙ m)) in
        let old = v.entails p ρ (ground (arith, split)) in
        (
          old.0,
          (
            sym (s ρ) ∙ right (Models.sat ρ (laws.clauses f.solver)) (sat_clause ρ (l ∷ c)) split,
            old.1,
          ),
        );
  }
    where
      right : (x y : Bool) → (x && (y && true)) ≡ true → y ≡ true
      right x y h = ground arith

  abbrev InRange : Enumerator S → Type 0
  InRange e = All (λ v. v < laws.num_vars e.solver) e.primaries

  -- What finish does with the instance and the clause.
  after_block :
      Enumerator S → Option Instance → Option (List Lit) → Option (Option Instance × Enumerator S)
  after_block h o x = and_then o (λ j. and_then x (λ c. some (some j, blocked solver h c)))

  Answer-Invariant :
      (e f h g : Enumerator S) (shown : List Assignment) (a : Assignment) (i : Instance)
      → InRange e
      → Invariant e shown f
      → f.done ≡ false
      → Answer f h a
      → finish solver (sat a) h ≡ some (some i, g)
      → Invariant e (a ∷ shown) g
  unfolding finish after_next after_block
  Answer-Invariant e f h g shown a i r v p w q =
      let (c, bc, sc) = block_lem a e.primaries w.covered.1 (
        All-map (λ x. x < laws.num_vars e.solver) (λ x. x < length a) e.primaries
          (λ x k. omega (arith, k, w.covered.0, v.vars)) r) in
      let bh : block a h.primaries ≡ some c = ap (block a) (w.same_primaries ∙ v.primaries) ∙ bc in
      decoded c (decode h.layout h.universe a)
        (ap (after_block h (decode h.layout h.universe a)) (sym bh) ∙ q)
        (blocked-Invariant e f h shown a c v p w sc)
    where
      decoded :
          (c : List Lit) (o : Option Instance)
          → after_block h o (some c) ≡ some (some i, g)
          → Invariant e (a ∷ shown) (blocked solver h c)
          → Invariant e (a ∷ shown) g
      decoded c none z k = absurd (cc z)
      decoded c (some j) z k = subst (Invariant e (a ∷ shown)) (ap (after_next h) z) k

  trivial-Invariant :
      (e f g : Enumerator S) (shown : List Assignment) (i : Instance)
      → Invariant e shown f
      → trivial_first solver f ≡ some (some i, g)
      → Invariant e shown g
  unfolding trivial_first after_next
  trivial-Invariant e f g shown i v q = decoded (trivial_instance f.layout f.universe) q
    where
      decoded :
          (o : Option Instance)
          → and_then {B = Option Instance × Enumerator S} o
              (λ j. some (some j, record f { pending_trivial = false }))
            ≡ some (some i, g)
          → Invariant e shown g
      decoded none z = absurd (cc z)
      decoded (some j) z =
          subst (Invariant e shown) (ap (after_next f) z)
            (record { vars = v.vars; primaries = v.primaries; entails = v.entails })

  next_trivial :
      (f : Enumerator S)
      → f.done ≡ false
      → f.pending_trivial ≡ true
      → next solver f ≡ trivial_first solver f
  unfolding next
  next_trivial f d t = rw (d, t) refl

  next_asked :
      (f h : Enumerator S) (o : Outcome)
      → f.done ≡ false
      → f.pending_trivial ≡ false
      → ask solver f ≡ answered o h
      → next solver f ≡ finish solver o h
  unfolding next proceed
  next_asked f h o d t q = last_branch _ _ _ f.done f.pending_trivial d t ∙ ap (proceed solver) q
    where
      last_branch :
          {A : Type 0} (x y z : A) (b c : Bool)
          → b ≡ false
          → c ≡ false
          → (if b then x else if c then y else z) ≡ z
      last_branch x y z true c k l = absurd (cc k)
      last_branch x y z false true k l = absurd (cc l)
      last_branch x y z false false k l = refl

  Shows-Invariant :
      (e f : Enumerator S) (shown : List Assignment)
      → InRange e
      → Shows e shown f
      → Invariant e shown f
  Shows-Invariant e _ _ r begin = record {
    vars = refl;
    primaries = refl;
    entails = λ d ρ m. (m, tt);
  }
  Shows-Invariant e _ _ r (trivially shown f g i k d t q) =
      trivial-Invariant e f g shown i (Shows-Invariant e f shown r k) (sym (next_trivial f d t) ∙ q)
  Shows-Invariant e _ _ r (shows shown f h g a i k d t z q) =
      Answer-Invariant e f h g shown a i r (Shows-Invariant e f shown r k) d (ask_lem f h a z)
        (sym (next_asked f h (sat a) d t z) ∙ q)

  -- For any solver whose assignments cover its variables and satisfy its clauses, whose solving
  -- changes neither and whose addition adds the clause, and an enumerator whose primary variables
  -- are among the solver's: after any number of calls of next that show an instance, each
  -- assignment that the solver returned satisfies the first formula, and any two of them differ at
  -- a primary variable.
  pub next-Shows-Distinct :
      (e f : Enumerator S) (shown : List Assignment)
      → All (λ v. v < laws.num_vars e.solver) e.primaries
      → Shows e shown f
      → All (λ a. Models.sat (bit_at a) (laws.clauses e.solver) ≡ true) shown
        × Distinct e.primaries shown
  next-Shows-Distinct e _ _ r begin = (tt, tt)
  next-Shows-Distinct e _ _ r (trivially shown f g i k d t q) = next-Shows-Distinct e f shown r k
  next-Shows-Distinct e _ _ r (shows shown f h g a i k d t z q) =
      let v = Shows-Invariant e f shown r k in
      let old = v.entails d (bit_at a) (ask_lem f h a z).model in
      let rest = next-Shows-Distinct e f shown r k in ((old.0, rest.0), (old.1, rest.1))
