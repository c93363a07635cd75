-- ===== src/World/Tests.antt =====
-- A world with the builtins and two sigs of a module, one an extension of the other.
use mettle.Base.{
  ℕ, zero, suc, ◌<◌, ◌≡◌, refl, subst, arith, Bool, true, false, [], ◌∷◌, Option, none, some,
  get_elem?, ◌↔◌,
}
use mettle.World.{SigId, SigKind, prim, ResolvedWorld, descent_run, is_same_or_descendent}
use mettle.World.Descent.{IsAcyclic, descent_run_lem}
use mettle.World.Hierarchy.{Above, Descends, parent, up, IsWellFormed, Hierarchy, hierarchy}

-- univ, Int, seq/Int, String, none, and the sigs 5 and 6.
abbrev pub small : ResolvedWorld
small = record {
  sigs =
      prim none
      ∷ prim (some 0)
      ∷ prim (some 1)
      ∷ prim (some 0)
      ∷ prim (some 0)
      ∷ prim (some 0)
      ∷ prim (some 5)
      ∷ [];
  builtins = record { univ = 0; int = 1; seq_int = 2; string = 3; none_sig = 4 };
}

abbrev small_depth : SigId → ℕ
small_depth zero = 0
small_depth (suc zero) = 1
small_depth (suc (suc zero)) = 2
small_depth (suc (suc (suc zero))) = 1
small_depth (suc (suc (suc (suc zero)))) = 1
small_depth (suc (suc (suc (suc (suc zero))))) = 1
small_depth (suc (suc (suc (suc (suc (suc zero)))))) = 2
small_depth (suc (suc (suc (suc (suc (suc (suc s))))))) = 0

small_depth-lt : (s : SigId) → small_depth s < 7
small_depth-lt zero = omega arith
small_depth-lt (suc zero) = omega arith
small_depth-lt (suc (suc zero)) = omega arith
small_depth-lt (suc (suc (suc zero))) = omega arith
small_depth-lt (suc (suc (suc (suc zero)))) = omega arith
small_depth-lt (suc (suc (suc (suc (suc zero))))) = omega arith
small_depth-lt (suc (suc (suc (suc (suc (suc zero)))))) = omega arith
small_depth-lt (suc (suc (suc (suc (suc (suc (suc s))))))) = omega arith

parent_eq :
    (m p : SigId) → ◌≡◌ {A = Option SigKind} (some (prim (some m))) (some (prim (some p))) → m ≡ p
parent_eq m p e = cc e

small_nearer :
    (s p : SigId)
    → get_elem? small.sigs s ≡ some (prim (some p))
    → (small_depth p < small_depth s) × (p < 7)
small_nearer zero p e = absurd (no_parent e)
  where
    no_parent : ◌≡◌ {A = Option SigKind} (some (prim none)) (some (prim (some p))) → ⊥
    no_parent q = cc q
small_nearer (suc zero) p e =
    subst (λ n. (small_depth n < 1) × (n < 7)) (parent_eq 0 p e) (omega arith)
small_nearer (suc (suc zero)) p e =
    subst (λ n. (small_depth n < 2) × (n < 7)) (parent_eq 1 p e) (omega arith)
small_nearer (suc (suc (suc zero))) p e =
    subst (λ n. (small_depth n < 1) × (n < 7)) (parent_eq 0 p e) (omega arith)
small_nearer (suc (suc (suc (suc zero)))) p e =
    subst (λ n. (small_depth n < 1) × (n < 7)) (parent_eq 0 p e) (omega arith)
small_nearer (suc (suc (suc (suc (suc zero))))) p e =
    subst (λ n. (small_depth n < 1) × (n < 7)) (parent_eq 0 p e) (omega arith)
small_nearer (suc (suc (suc (suc (suc (suc zero)))))) p e =
    subst (λ n. (small_depth n < 2) × (n < 7)) (parent_eq 5 p e) (omega arith)
small_nearer (suc (suc (suc (suc (suc (suc (suc s))))))) p e = absurd (cc e)

pub small-IsWellFormed : IsWellFormed small
small-IsWellFormed = record {
  depth = small_depth;
  shallow = small_depth-lt;
  nearer = λ s p e. (small_nearer s p e).0;
  kinds = λ s p e. (small_nearer s p e).1;
  root = λ p e. cc e;
  distinct = refl;
}

hierarchy_example : Hierarchy small
hierarchy_example = hierarchy small small-IsWellFormed

extension_descends : is_same_or_descendent small 6 5 ≡ true
unfolding is_same_or_descendent descent_run
extension_descends = refl

other_sig_apart : is_same_or_descendent small 6 1 ≡ false
unfolding is_same_or_descendent descent_run
other_sig_apart = refl

small_deeper : (a s : SigId) → Above small.sigs a s → small_depth a < small_depth s
small_deeper a s (parent e) = (small_nearer s a e).0
small_deeper a s (up {p} e h) = omega (arith, (small_nearer s p e).0, small_deeper a p h)

small-IsAcyclic : IsAcyclic small
small-IsAcyclic = record {
  closed = λ s p e. (small_nearer s p e).1;
  acyclic = λ s h. omega (arith, small_deeper s s h);
}

descent_run_example :
    (b : Bool) × (descent_run small 6 5 ≡ some b) × ((b ≡ true) ↔ Descends small 6 5)
descent_run_example = descent_run_lem small 6 5 small-IsAcyclic (omega arith)

abbrev looped : ResolvedWorld
looped = record small { sigs = prim (some 1) ∷ prim (some 0) ∷ [] }

-- A cycle of parents is a walk without end, and a sig outside of the arena a panic.
looped_run : descent_run looped 1 3 ≡ none
unfolding descent_run
looped_run = refl

outside_run : descent_run small 9 1 ≡ none
unfolding descent_run
outside_run = refl
