-- ===== src/Enumerate/Primaries.antt =====
-- A decoded relation lies between the two sets of its bound.
use mettle.Base.{
  ◌+◌, ◌<◌, ◌≤◌, ◌≡◌, refl, sym, ap, subst, ◌∙◌, arith, Bool, true, false, not, ◌&&◌, Bool-cases,
  List, [], ◌∷◌, Option, none, some, length, any, All, All-map, inl, inr, lt→ltb,
}
use mettle.Solve.{Var, Cnf, fresh_var, Assignment, max_vars}
use mettle.Solve.Blocking.{bit_at, value-bit_at}
use mettle.Bounds.{Tuple, TupleSet, same, contains}
use mettle.Bounds.Sets.{IsWellFormed, same→eq}
use mettle.Eval.{and_then}
use mettle.Eval.Loop.{Inserts, turn_lem}
use mettle.Enumerate.{float_tuples, with_primary, insert_if, decode_relation}

-- The floating tuples of a bound and their variables.
record Floated (lower : TupleSet) (ts : List Tuple) (cnf : Cnf) : Type 1 where
  floating : List (Tuple × Var)
  after : Cnf
  returns : float_tuples lower ts cnf ≡ some (floating, after)
  grows : cnf.num_vars ≤ after.num_vars
  minted : All (λ f. f.1 < after.num_vars) floating
  keys : (P : Tuple → Type 0) → All P ts → All (λ f. P f.0) floating
  members :
      (x : Tuple)
      → any floating (λ f. same x f.0) ≡ (any ts (λ u. same x u) && not (contains lower x))

float_tuples_lem :
    (lower : TupleSet) (ts : List Tuple) (cnf : Cnf)
    → cnf.num_vars + length ts ≤ max_vars
    → Floated lower ts cnf
unfolding float_tuples fresh_var
float_tuples_lem lower [] cnf h = record {
  floating = [];
  after = cnf;
  returns = refl;
  grows = omega arith;
  minted = tt;
  keys = λ P k. tt;
  members = λ x. refl;
}
float_tuples_lem lower (t ∷ ts) cnf h = elim (Bool-cases (contains lower t)) [
  | inl e ↦
      let rest = float_tuples_lem lower ts cnf (omega (arith, h)) in
      record {
        floating = rest.floating;
        after = rest.after;
        returns = rw e rest.returns;
        grows = rest.grows;
        minted = rest.minted;
        keys = λ P k. rest.keys P k.1;
        members = λ x.
            let at_same : same x t ≡ true → contains lower x ≡ contains lower t =
              λ q. ap (contains lower) (same→eq x t q) in
            ground (arith, rest.members x, at_same, e);
      }
  | inr e ↦
      let next : Cnf = record cnf { num_vars = cnf.num_vars + 1 } in
      let rest = float_tuples_lem lower ts next (omega (arith, h)) in
      record {
        floating = (t, cnf.num_vars) ∷ rest.floating;
        after = rest.after;
        returns =
            rw (e, lt→ltb cnf.num_vars max_vars (omega (arith, h)))
              (ap (λ o. and_then o (with_primary t cnf.num_vars)) rest.returns);
        grows = omega (arith, rest.grows);
        minted = (omega (arith, rest.grows), rest.minted);
        keys = λ P k. (k.0, rest.keys P k.1);
        members = λ x.
            let at_same : same x t ≡ true → contains lower x ≡ contains lower t =
              λ q. ap (contains lower) (same→eq x t q) in
            ground (arith, rest.members x, at_same, e);
      }
]

-- The loop inserts the tuples whose variables are true.
insert_if-Inserts :
    (b : Bool) (out : TupleSet) (t : Tuple)
    → IsWellFormed out
    → length t ≡ out.arity
    → Inserts out (insert_if b out t) (λ x. same x t && b)
insert_if-Inserts true out t h l =
    let r = turn_lem out out.arity (some t) h refl l in
    record {
      set = r.set;
      returns = r.returns;
      valid = r.valid;
      same_arity = r.same_arity;
      members = λ x. ground (arith, r.members x);
    }
insert_if-Inserts false out t h l =
    let r = turn_lem out out.arity none h refl tt in
    record {
      set = r.set;
      returns = r.returns;
      valid = r.valid;
      same_arity = r.same_arity;
      members = λ x. ground (arith, r.members x);
    }

decode_relation-Inserts :
    (floating : List (Tuple × Var)) (out : TupleSet) (a : Assignment)
    → IsWellFormed out
    → All (λ f. (length f.0 ≡ out.arity) × (f.1 < length a)) floating
    → Inserts out
        (decode_relation out floating a)
        (λ x. any floating (λ f. same x f.0 && bit_at a f.1))
unfolding decode_relation
decode_relation-Inserts [] out a h k = record {
  set = out;
  returns = refl;
  valid = h;
  same_arity = refl;
  members = λ x. ground arith;
}
decode_relation-Inserts (f ∷ floating) out a h k =
    let one = insert_if-Inserts (bit_at a f.1) out f.0 h k.0.0 in
    let more = decode_relation-Inserts floating one.set a one.valid (
      subst (λ n. All (λ g. (length g.0 ≡ n) × (g.1 < length a)) floating) (sym one.same_arity)
        k.1) in
    record {
      set = more.set;
      returns = rw (value-bit_at a f.1 k.0.1, one.returns) more.returns;
      valid = more.valid;
      same_arity = more.same_arity ∙ one.same_arity;
      members = λ x. ground (arith, more.members x, one.members x);
    }

-- A set between two sets.
pub record Between (lower upper : TupleSet) (o : Option TupleSet) : Type 0 where
  pub set : TupleSet
  pub returns : o ≡ some set
  pub valid : IsWellFormed set
  pub same_arity : set.arity ≡ upper.arity
  pub above : (x : Tuple) → contains lower x ≡ true → contains set x ≡ true
  pub below : (x : Tuple) → contains set x ≡ true → contains upper x ≡ true

-- For a bound of two well-formed sets of one arity, the lower in the upper, whose floating tuples
-- have got their variables from a pool with room: over an assignment that covers these variables,
-- decoding returns a well-formed set of that arity that contains the lower set and is contained in
-- the upper one.
pub decode_relation-Between :
    (lower upper : TupleSet) (cnf after : Cnf) (floating : List (Tuple × Var)) (a : Assignment)
    → IsWellFormed lower
    → IsWellFormed upper
    → lower.arity ≡ upper.arity
    → ((x : Tuple) → contains lower x ≡ true → contains upper x ≡ true)
    → cnf.num_vars + length upper.tuples ≤ max_vars
    → float_tuples lower upper.tuples cnf ≡ some (floating, after)
    → after.num_vars ≤ length a
    → Between lower upper (decode_relation lower floating a)
unfolding contains
decode_relation-Between lower upper cnf after floating a hl hu e sub room q cover =
    let f = float_tuples_lem lower upper.tuples cnf room in
    let same_result : f.floating ≡ floating = ap (first_of []) (sym f.returns ∙ q) in
    let same_after : f.after ≡ after = ap (last_of cnf) (sym f.returns ∙ q) in
    let r = decode_relation-Inserts floating lower a hl (
      subst (λ fs. All (λ g. (length g.0 ≡ lower.arity) × (g.1 < length a)) fs) same_result
        (both (λ g. length g.0 ≡ lower.arity) (λ g. g.1 < length a) f.floating
          (f.keys (λ t. length t ≡ lower.arity)
            (All-map (λ t. length t ≡ upper.arity) (λ t. length t ≡ lower.arity) upper.tuples
              (λ t l. l ∙ sym e) hu.1))
          (All-map (λ g. g.1 < f.after.num_vars) (λ g. g.1 < length a) f.floating
            (λ g k. omega (arith, k, ap (λ (c : Cnf). c.num_vars) same_after, cover)) f.minted))) in
    record {
      set = r.set;
      returns = r.returns;
      valid = r.valid;
      same_arity = r.same_arity ∙ e;
      above = λ x k. r.members x ∙ ground (arith, k);
      below = λ x k.
          let inside : any floating (λ g. same x g.0)
              ≡ (contains upper x && not (contains lower x)) =
            ap (λ fs. any fs (λ g. same x g.0)) (sym same_result) ∙ f.members x in
          ground (arith, sym (r.members x) ∙ k, inside, weaker x floating, sub x);
    }
  where
    first_of : List (Tuple × Var) → Option (List (Tuple × Var) × Cnf) → List (Tuple × Var)
    first_of d none = d
    first_of d (some r) = r.0

    last_of : Cnf → Option (List (Tuple × Var) × Cnf) → Cnf
    last_of d none = d
    last_of d (some r) = r.1

    both :
        (P Q : Tuple × Var → Type 0) (fs : List (Tuple × Var))
        → All P fs
        → All Q fs
        → All (λ g. P g × Q g) fs
    both P Q [] h k = tt
    both P Q (g ∷ fs) h k = ((h.0, k.0), both P Q fs h.1 k.1)

    weaker :
        (x : Tuple) (fs : List (Tuple × Var))
        → any fs (λ g. same x g.0 && bit_at a g.1) ≡ true
        → any fs (λ g. same x g.0) ≡ true
    weaker x [] h = absurd (cc h)
    weaker x (g ∷ fs) h = ground (arith, h, weaker x fs)
