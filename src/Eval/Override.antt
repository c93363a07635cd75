-- ===== src/Eval/Override.antt =====
-- The override of a relation by another.
use mettle.Base.{
  ◌<◌, ◌≡◌, refl, sym, ap, subst, ◌∙◌, arith, Bool, false, not, ◌&&◌, ◌||◌, ◌==◌, List, [], ◌∷◌,
  Option, some, length, any, All, All-map,
}
use mettle.Bounds.{AtomId, Tuple, TupleSet, contains}
use mettle.Eval.{
  Turn, and_then, first_atom, insert_each, whole, only_if, domain, unless_in, override,
}
use mettle.Eval.Loop.{inserts, IsTurn, insert_each_lem}
use mettle.Eval.Members.{
  IsRelation, Returns, returns_same, from_empty, any_same, kept_member, only_if-IsTurn,
}

-- Whether a tuple starts with an atom, and with that of another.
abbrev pub starts_with : AtomId → Tuple → Bool
starts_with a [] = false
starts_with a (b ∷ t) = b == a

abbrev pub same_start : Tuple → Tuple → Bool
same_start [] u = false
same_start (a ∷ t) u = starts_with a u

record Domain (ts : List Tuple) : Type 0 where
  atoms : List AtomId
  returns : domain ts ≡ some atoms
  members : (a : AtomId) → any atoms (λ x. x == a) ≡ any ts (λ t. starts_with a t)

domain_lem : (ts : List Tuple) → All (λ t. 0 < length t) ts → Domain ts
unfolding domain
domain_lem [] h = record { atoms = []; returns = refl; members = λ a. refl }
domain_lem ([] ∷ ts) h = absurd (omega (arith, h.0))
domain_lem ((b ∷ t) ∷ ts) h =
    let d = domain_lem ts h.1 in
    record {
      atoms = b ∷ d.atoms;
      returns = rw d.returns refl;
      members = λ a. ap (λ r. (b == a) || r) (d.members a);
    }

module _ (b : TupleSet) (d : Domain b.tuples) where
  unless_in_lem :
      (t : Tuple)
      → 0 < length t
      → unless_in d.atoms t (first_atom t) ≡ only_if (not (any b.tuples (λ u. same_start t u))) t
  unless_in_lem [] h = absurd (omega arith)
  unless_in_lem (a ∷ t) h = ap (λ c. only_if (not c) (a ∷ t)) (d.members a)

nonempty : (a : TupleSet) → IsRelation a → All (λ t. 0 < length t) a.tuples
nonempty a h =
    All-map (λ t. length t ≡ a.arity) (λ t. 0 < length t) a.tuples (λ t l. omega (arith, h.0)) h.1.1

pub override_lem :
    (a b : TupleSet)
    → IsRelation a
    → IsRelation b
    → b.arity ≡ a.arity
    → Returns
        (override a b)
        a.arity
        (λ x. contains b x || (contains a x && not (any b.tuples (λ u. same_start x u))))
unfolding override contains
override_lem a b ha hb e =
    let d = domain_lem b.tuples (nonempty b hb) in
    let keeps : Tuple → Bool = λ x. not (any b.tuples (λ u. same_start x u)) in
    let survives : Tuple → Turn = λ t. unless_in d.atoms t (first_atom t) in
    let survives_if : (t : Tuple) → 0 < length t → survives t ≡ only_if (keeps t) t =
      unless_in_lem b d in
    let loop : TupleSet → Option TupleSet = λ out.
      and_then (insert_each survives out a.tuples) (λ next. insert_each whole next b.tuples) in
    rw d.returns (
      returns_same (λ x. contains b x || (contains a x && keeps x))
        (λ x.
          ap (λ r. r || contains b x)
            (any_same a.tuples (λ t. 0 < length t) (λ t. inserts (survives t) x)
                (λ t. inserts (only_if (keeps t) t) x) (nonempty a ha)
                (λ t l. ap (λ w. inserts w x) (survives_if t l))
              ∙ kept_member a.tuples keeps x)
          ∙ or_comm (contains a x && keeps x) (contains b x))
        (from_empty a.arity loop (λ x. any a.tuples (λ t. inserts (survives t) x) || contains b x)
          ha.0
          (λ out v f.
            let one = insert_each_lem survives out a.tuples v (
              All-map (λ t. length t ≡ a.arity) (λ t. IsTurn out.arity (survives t)) a.tuples
                (λ t l.
                  subst (λ w. IsTurn out.arity w) (sym (survives_if t (omega (arith, ha.0))))
                    (only_if-IsTurn out.arity (keeps t) t (l ∙ sym f)))
                ha.1.1) in
            let two = insert_each_lem whole one.set b.tuples one.valid (
              All-map (λ t. length t ≡ b.arity) (λ t. length t ≡ one.set.arity) b.tuples
                (λ t l. l ∙ (e ∙ (sym f ∙ sym one.same_arity))) hb.1.1) in
            record {
              set = two.set;
              returns = rw one.returns two.returns;
              valid = two.valid;
              same_arity = two.same_arity ∙ one.same_arity;
              members = λ x. ground (arith, two.members x, one.members x);
            })))
  where
    or_comm : (x y : Bool) → (x || y) ≡ (y || x)
    or_comm x y = ground arith
