-- ===== src/Solve/Dimacs.antt =====
-- `dimacs_lit` of crates/als-solve/src/dimacs.rs: the signed numbers that a solver and a proof checker
-- read for literals. A failed assertion is `none`.
use mettle.Base.{
  ℕ, ◌+◌, ◌-◌, ◌^◌, ◌*◌, ◌≡◌, ap, sym, ◌∙◌, arith, Bool, true, false, Bool-cases, Option, none,
  some, ltb, if◌then◌else◌, inl, inr,
}
use mettle.Base.Int.{ℤ, pos, negsuc}
use mettle.Solve.{Lit, var, is_positive}
use mettle.Solve.Lits.{bit_and-one}

-- `i32::MAX`
abbrev pub i32_max : ℕ
i32_max = 2 ^ 31 - 1

-- The cast to `i32` is exact below the bound.
unfoldable pub dimacs_lit : Lit → Option ℤ
dimacs_lit lit =
    if ltb (var lit) i32_max
    then if is_positive lit then some (pos (var lit + 1)) else some (negsuc (var lit))
    else none

code_of : (l : Lit) → l ≡ var l * 2 + (if is_positive l then 0 else 1)
unfolding var is_positive
code_of l = ground (arith, bit_and-one l)

abbrev magnitude : Option ℤ → ℕ
magnitude none = 0
magnitude (some (pos n)) = n
magnitude (some (negsuc n)) = n + 1

abbrev is_above : Option ℤ → Bool
is_above (some (pos n)) = true
is_above _ = false

in_range :
    (l : Lit) (z : ℤ)
    → dimacs_lit l ≡ some z
    → (magnitude (some z) ≡ var l + 1) × (is_above (some z) ≡ is_positive l)
unfolding dimacs_lit
in_range l z e = elim (Bool-cases (ltb (var l) i32_max)) [
  | inr h ↦ absurd (cc (rw h at e))
  | inl h ↦ elim (Bool-cases (is_positive l)) [
    | inl p ↦
        let q : some (pos (var l + 1)) ≡ some z = rw (h, p) at e in
        (sym (ap magnitude q), sym (ap is_above q) ∙ sym p)
    | inr p ↦
        let q : some (negsuc (var l)) ≡ some z = rw (h, p) at e in
        (sym (ap magnitude q), sym (ap is_above q) ∙ sym p)
  ]
]

-- Two literals that dimacs_lit gives the same number are the same literal, and that number is not
-- 0.
pub dimacs_lit-injective :
    (l m : Lit) (z : ℤ) → dimacs_lit l ≡ some z → dimacs_lit m ≡ some z → (l ≡ m) × ¬ (z ≡ pos 0)
dimacs_lit-injective l m z e k =
    let a = in_range l z e in
    let b = in_range m z k in
    let vars : var l ≡ var m = omega (arith, a.0, b.0) in
    let signs : is_positive l ≡ is_positive m = sym a.1 ∙ b.1 in
    (
      code_of l
          ∙ (ap (λ v. v * 2 + (if is_positive l then 0 else 1)) vars
              ∙ (ap (λ p. var m * 2 + (if p then 0 else 1)) signs ∙ sym (code_of m))),
      λ q. omega (arith, a.0, ap (λ y. magnitude (some y)) q),
    )
