-- ===== src/Base/Equality.antt =====
-- Go's `==` on comparable values, for every type that has an instance.
use Prim.Native.Nat.{ℕ}
use Prim.Native.String.{String}
use mathlib.Core.Path.{◌≡◌, refl}
use mathlib.Core.Logic.{◌↔◌}
use mathlib.Core.Bool.{Bool, true, false, ◌||◌}
use mathlib.Core.List.{List, [], ◌∷◌}
use text.Mathlib.Text.{◌==◌ as string_same}
use text.Mathlib.TextEquality.{eq_iff}
use native.Mathlib.Omega.{arith}
use subctl.Base.Tests.{nat_eq, nat_eq_iff}
use subctl.Base.Strings.{Text, text_eq}

-- `sound` and `complete` together say that the test decides equality.
pub record Comparable {κ} (T : Type κ) : Type κ where
  pub same : T → T → Bool
  pub sound : (x y : T) → same x y ≡ true → x ≡ y
  pub complete : (x y : T) → x ≡ y → same x y ≡ true

pub text_eq_iff : (s t : Text) → (text_eq s t ≡ true) ↔ (s ≡ t)
unfolding text_eq
text_eq_iff [] [] = (λ _. refl, λ _. refl)
text_eq_iff [] (b ∷ t) = (λ h. cc, λ h. cc)
text_eq_iff (a ∷ s) [] = (λ h. cc, λ h. cc)
text_eq_iff (a ∷ s) (b ∷ t) =
    (λ h. ground (arith, (text_eq_iff s t).0), λ h. ground (arith, (text_eq_iff s t).1))

module _ {κ} {T : Type κ} ⦃c : Comparable T⦄ where
  infix 50 ◌==◌
  abbrev pub ◌==◌ : T → T → Bool
  x == y = c.same x y

  pub ==_iff : (x y : T) → ((x == y) ≡ true) ↔ (x ≡ y)
  ==_iff x y = (c.sound x y, c.complete x y)

  pub ==_refl : (x : T) → (x == x) ≡ true
  ==_refl x = c.complete x x refl

  -- `slices.Contains`
  unfoldable pub contains : List T → T → Bool
  contains [] v = false
  contains (w ∷ rest) v = v == w || contains rest v

instance abbrev pub ℕ_eq : Comparable ℕ
ℕ_eq = record {
  same = nat_eq;
  sound = λ x y. (nat_eq_iff x y).0;
  complete = λ x y. (nat_eq_iff x y).1;
}

instance abbrev pub String_eq : Comparable String
String_eq = record {
  same = string_same;
  sound = λ x y. (eq_iff x y).0;
  complete = λ x y. (eq_iff x y).1;
}

-- Shut in proofs, where `==_iff` is listed.
instance abbrev pub Text_eq : Comparable Text
Text_eq = record {
  same = text_eq;
  sound = λ x y. (text_eq_iff x y).0;
  complete = λ x y. (text_eq_iff x y).1;
}
