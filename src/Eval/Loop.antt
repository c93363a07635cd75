-- ===== src/Eval/Loop.antt =====
-- What the loops of the set algebra insert.
use mettle.Base.{
  ℕ, ◌≡◌, refl, sym, ◌∙◌, arith, Bool, false, ◌||◌, List, [], ◌∷◌, Option, none, some, length, any,
  All, not, subst,
}
use mettle.Bounds.{Tuple, TupleSet, same, contains}
use mettle.Bounds.Sets.{IsWellFormed, insert_tuple_lem, insert_tuple-arity}
use mettle.Eval.{Turn, and_then, insert_option, insert_each, insert_pairs}

-- Whether a turn inserts the tuple.
abbrev pub inserts : Turn → Tuple → Bool
inserts none x = false
inserts (some none) x = false
inserts (some (some t)) x = same x t

abbrev pub IsSized : ℕ → Option Tuple → Type 0
IsSized n none = Unit
IsSized n (some t) = length t ≡ n

-- A turn that does not panic, and inserts a tuple of the right length or none.
abbrev pub IsTurn : ℕ → Turn → Type 0
IsTurn n none = ⊥
IsTurn n (some p) = IsSized n p

-- A loop from `out` that inserts the tuples of `P`.
pub record Inserts (out : TupleSet) (o : Option TupleSet) (P : Tuple → Bool) : Type 0 where
  pub set : TupleSet
  pub returns : o ≡ some set
  pub valid : IsWellFormed set
  pub same_arity : set.arity ≡ out.arity
  pub members : (x : Tuple) → contains set x ≡ (contains out x || P x)

pub turn_lem :
    (out : TupleSet) (n : ℕ) (p : Option Tuple)
    → IsWellFormed out
    → out.arity ≡ n
    → IsSized n p
    → Inserts out (insert_option out p) (λ x. inserts (some p) x)
turn_lem out n none h e k = record {
  set = out;
  returns = refl;
  valid = h;
  same_arity = refl;
  members = λ x. or-false (contains out x);
}
  where
    or-false : (b : Bool) → b ≡ (b || false)
    or-false b = ground arith
turn_lem out n (some t) h e k =
    let (u, q, v, m) = insert_tuple_lem out t h (k ∙ sym e) in
    record {
      set = u;
      returns = rw q refl;
      valid = v;
      same_arity = insert_tuple-arity out t (not (contains out t)) u q;
      members = m;
    }

-- A turn and the rest of the loop.
followed_by :
    (out : TupleSet) (turn : Turn) (rest : TupleSet → Option TupleSet) (P : Tuple → Bool)
    → IsWellFormed out
    → IsTurn out.arity turn
    → ((next : TupleSet) → IsWellFormed next → next.arity ≡ out.arity → Inserts next (rest next) P)
    → Inserts out
        (and_then turn (λ p. and_then (insert_option out p) rest))
        (λ x. inserts turn x || P x)
followed_by out none rest P h k r = absurd k
followed_by out (some p) rest P h k r =
    let one = turn_lem out out.arity p h refl k in
    let more = r one.set one.valid one.same_arity in
    record {
      set = more.set;
      returns = rw one.returns more.returns;
      valid = more.valid;
      same_arity = more.same_arity ∙ one.same_arity;
      members = λ x. ground (arith, more.members x, one.members x);
    }

nothing_more : (out : TupleSet) → IsWellFormed out → Inserts out (some out) (λ x. false)
nothing_more out h = record {
  set = out;
  returns = refl;
  valid = h;
  same_arity = refl;
  members = λ x. ground arith;
}

pub insert_each_lem :
    (f : Tuple → Turn) (out : TupleSet) (ts : List Tuple)
    → IsWellFormed out
    → All (λ t. IsTurn out.arity (f t)) ts
    → Inserts out (insert_each f out ts) (λ x. any ts (λ t. inserts (f t) x))
unfolding insert_each
insert_each_lem f out [] h k = nothing_more out h
insert_each_lem f out (t ∷ ts) h k =
    followed_by out (f t) (λ next. insert_each f next ts) (λ x. any ts (λ u. inserts (f u) x)) h k.0
      (λ next v e.
        insert_each_lem f next ts v (subst (λ n. All (λ u. IsTurn n (f u)) ts) (sym e) k.1))

pub insert_pairs_lem :
    (f : Tuple → Tuple → Turn) (out : TupleSet) (ts us : List Tuple)
    → IsWellFormed out
    → All (λ t. All (λ u. IsTurn out.arity (f t u)) us) ts
    → Inserts out (insert_pairs f out ts us) (λ x. any ts (λ t. any us (λ u. inserts (f t u) x)))
unfolding insert_pairs
insert_pairs_lem f out [] us h k = nothing_more out h
insert_pairs_lem f out (t ∷ ts) us h k =
    let one = insert_each_lem (f t) out us h k.0 in
    let more =
      insert_pairs_lem f one.set ts us one.valid
        (subst (λ n. All (λ v. All (λ u. IsTurn n (f v u)) us) ts) (sym one.same_arity) k.1) in
    record {
      set = more.set;
      returns = rw one.returns more.returns;
      valid = more.valid;
      same_arity = more.same_arity ∙ one.same_arity;
      members = λ x. ground (arith, more.members x, one.members x);
    }
