-- ===== src/World.antt =====
-- crates/als-types/src/world.rs: the hierarchy of the prim sigs of a resolved world. An index out of
-- range is a panic, which the walk up the parents returns as `none`.
pub mod Hierarchy
pub mod Descent
pub mod Tests
use mettle.Base.{
  ℕ, zero, suc, Bool, true, false, ◌||◌, if◌then◌else◌, ◌==◌, List, [], ◌∷◌, Option, none, some,
  length, get_elem?,
}

abbrev pub SigId : Type 0
SigId = ℕ

-- Of a subset sig only the kind is read here.
pub data SigKind : Type 0 where
  prim : Option SigId → SigKind
  subset : SigKind

pub record Builtins : Type 0 where
  pub univ : SigId
  pub int : SigId
  pub seq_int : SigId
  pub string : SigId
  pub none_sig : SigId

-- The fields that the descent and the types read; the others are tables of the resolver.
pub record ResolvedWorld : Type 0 where
  pub sigs : List SigKind
  pub builtins : Builtins

-- One turn of the loop, at a sig of the given kind; `next` is the rest of the loop.
abbrev pub at_kind : (SigId → Option Bool) → SigId → Option SigKind → Option Bool
at_kind next sup none = none
at_kind next sup (some subset) = some false
at_kind next sup (some (prim none)) = some false
at_kind next sup (some (prim (some p))) = if p == sup then some true else next p

-- The loop up the parent chain, with fuel.
unfoldable pub climb : ℕ → List SigKind → SigId → SigId → Option Bool
climb zero sigs sup cur = none
climb (suc n) sigs sup cur = at_kind (λ p. climb n sigs sup p) sup (get_elem? sigs cur)

-- The method: `none` is a panic, or a walk that passes as many sigs as the arena has and, from
-- there, never ends.
unfoldable pub descent_run : ResolvedWorld → SigId → SigId → Option Bool
unfolding climb
descent_run w sub sup =
    if (sub == sup) || ((sup == w.builtins.univ) || (sub == w.builtins.none_sig))
    then some true
    else if (sub == w.builtins.univ) || (sup == w.builtins.none_sig)
    then some false
    else climb (length w.sigs) w.sigs sup sub

-- Whether a run returns `true`.
abbrev pub answer : Option Bool → Bool
answer none = false
answer (some b) = b

-- Whether the method returns `true`: this is `false` too where it panics or does not end, which
-- only a sig outside of the arena or a cycle of parents makes it do. The types read the method
-- through this test.
unfoldable pub is_same_or_descendent : ResolvedWorld → SigId → SigId → Bool
unfolding descent_run
is_same_or_descendent w sub sup = answer (descent_run w sub sup)
