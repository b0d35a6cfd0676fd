-- ===== src/Base/Eq.antt =====
-- `PartialEq`: a Boolean equality with the law that it decides `≡`.
use mathlib.Core.Path.{◌≡◌, refl, ap}
use mathlib.Core.Logic.{◌↔◌}
use mathlib.Core.Bool.{Bool, true, false}
use mathlib.Core.Option.{Option, none, some}
use Prim.Native.Nat.{ℕ}
use openfortivpn.Base.Tests.{nat_beq, nat_beq_iff}

pub record Equality {ℓ} (A : Type ℓ) : Type ℓ where
  pub same : A → A → Bool
  pub beq_iff : (x y : A) → (same x y ≡ true) ↔ (x ≡ y)

infix 50 ◌==◌
abbrev pub ◌==◌ {ℓ} : {A : Type ℓ} ⦃e : Equality A⦄ → A → A → Bool
◌==◌ ⦃e⦄ = e.same

instance abbrev pub nat_equality : Equality ℕ
nat_equality = record { same = nat_beq; beq_iff = nat_beq_iff }

-- A derived `PartialEq`, from a decision procedure.
abbrev pub of_dec {ℓ} : {A : Type ℓ} → Dec A → Bool
of_dec (yes _) = true
of_dec (no _) = false

pub of_dec_iff {ℓ} : {A : Type ℓ} (d : Dec A) → (of_dec d ≡ true) ↔ A
of_dec_iff (yes a) = (λ h. a, λ x. refl)
of_dec_iff (no n) = (λ h. cc, λ x. absurd (n x))

abbrev pub of_discrete {ℓ} : {A : Type ℓ} → Discrete A → Equality A
of_discrete d = record { same = λ a b. of_dec (d a b); beq_iff = λ a b. of_dec_iff (d a b) }

module _ {ℓ} {A : Type ℓ} ⦃e : Equality A⦄ where
  unfoldable pub option_beq : Option A → Option A → Bool
  option_beq none none = true
  option_beq (some a) (some b) = a == b
  option_beq _ _ = false

  pub option_beq_iff : (a b : Option A) → (option_beq a b ≡ true) ↔ (a ≡ b)
  unfolding option_beq
  option_beq_iff none none = (λ h. refl, λ h. refl)
  option_beq_iff none (some b) = (λ h. cc, λ h. cc)
  option_beq_iff (some a) none = (λ h. cc, λ h. cc)
  option_beq_iff (some a) (some b) =
      (λ h. ap some ((e.beq_iff a b).0 h), λ h. (e.beq_iff a b).1 (cc))

  pub eq_refl : (a : A) → (a == a) ≡ true
  eq_refl a = (e.beq_iff a a).1 refl

instance abbrev pub option_equality {ℓ} : {A : Type ℓ} ⦃e : Equality A⦄ → Equality (Option A)
option_equality = record { same = option_beq; beq_iff = option_beq_iff }
