-- ===== src/Network/Conflict.antt =====
-- `domain_overlaps`, `shareable` and `conflicts` of crates/manager-core/src/network.rs.
pub mod Domains
use openfortivpn.Base.{
  ◌≡◌, refl, ◌∙◌, Bool, true, false, not, ◌&&◌, ◌||◌, List, [], ◌∷◌, arith, if◌then◌else◌, ◌==◌,
  any, is_empty,
}
use openfortivpn.Base.Text.{Str, ends_with, str_equality, str_beq_iff}
use openfortivpn.Network.Model.{Route, Dns, Resource, route_equality}
use openfortivpn.Network.Cidr.{overlaps}
use openfortivpn.Network.Cidr.Overlap.{overlaps_comm}

-- `format!(".{b}")`
unfoldable pub domain_overlaps : Str → Str → Bool
domain_overlaps a b = a == b || ends_with a (b'.' ∷ b) || ends_with b (b'.' ∷ a)

unfoldable pub shareable : Resource → Resource → Bool
shareable (Resource.route a) (Resource.route b) =
    a.gateway_exception && b.gateway_exception && a == b
shareable _ _ = false

abbrev bool_beq : Bool → Bool → Bool
bool_beq true b = b
bool_beq false b = not b

abbrev routes_conflict : Route → Route → Bool
routes_conflict a b =
    if not (bool_beq a.gateway_exception b.gateway_exception)
    then a.destination == b.destination
    else overlaps a.destination b.destination

abbrev domains_overlap : List Str → List Str → Bool
domains_overlap xs ys = any (λ a. any (λ b. domain_overlaps a b) ys) xs

abbrev dns_conflict : Dns → Dns → Bool
dns_conflict a b = is_empty a.domains || is_empty b.domains || domains_overlap a.domains b.domains

unfoldable pub conflicts : Resource → Resource → Bool
conflicts (Resource.route a) (Resource.route b) = routes_conflict a b
conflicts (Resource.dns a) (Resource.dns b) = dns_conflict a b
conflicts _ _ = false

-- The test of `preview` on one resource of each plan.
abbrev pub clash : Resource → Resource → Bool
clash a b = not (shareable a b) && conflicts a b

domain_overlaps_comm : (a b : Str) → domain_overlaps a b ≡ domain_overlaps b a
unfolding domain_overlaps
domain_overlaps_comm a b = ground (arith, str_beq_iff a b, str_beq_iff b a)

shareable_comm : (a b : Resource) → shareable a b ≡ shareable b a
unfolding shareable
shareable_comm (Resource.route a) (Resource.route b) =
    ground (arith, route_equality.beq_iff a b, route_equality.beq_iff b a)
shareable_comm (Resource.route a) (Resource.dns b) = refl
shareable_comm (Resource.dns a) (Resource.route b) = refl
shareable_comm (Resource.dns a) (Resource.dns b) = refl

any-or {ℓ} :
    {A : Type ℓ} (p q : A → Bool) (xs : List A) → any (λ x. p x || q x) xs ≡ any p xs || any q xs
any-or p q [] = refl
any-or p q (x ∷ xs) = ground (arith, any-or p q xs)

any-false {ℓ} : {A : Type ℓ} (xs : List A) → any (λ x. false) xs ≡ false
any-false [] = refl
any-false (x ∷ xs) = any-false xs

-- The order of two nested searches does not matter.
pub any_swap {ℓ κ} :
    {A : Type ℓ} {B : Type κ} (r : A → B → Bool) (xs : List A) (ys : List B)
    → any (λ a. any (λ b. r a b) ys) xs ≡ any (λ b. any (λ a. r a b) xs) ys
any_swap r [] ys = rw (any-false ys)
any_swap r (x ∷ xs) ys =
    rw (any_swap r xs ys, ← any-or (λ b. r x b) (λ b. any (λ a. r a b) xs) ys) refl

pub any_ext {ℓ} :
    {A : Type ℓ} (p q : A → Bool) (xs : List A) → ((x : A) → p x ≡ q x) → any p xs ≡ any q xs
any_ext p q [] h = refl
any_ext p q (x ∷ xs) h = ground (arith, h x, any_ext p q xs h)

domains_overlap_comm : (xs ys : List Str) → domains_overlap xs ys ≡ domains_overlap ys xs
domains_overlap_comm xs ys =
    any_swap domain_overlaps xs ys
    ∙ any_ext _ _ ys (λ b. any_ext _ _ xs (λ a. domain_overlaps_comm a b))

conflicts_comm : (a b : Resource) → conflicts a b ≡ conflicts b a
unfolding conflicts
conflicts_comm (Resource.route a) (Resource.route b) = ground (
  arith,
  overlaps_comm a.destination b.destination,
  str_beq_iff a.destination b.destination,
  str_beq_iff b.destination a.destination,
)
conflicts_comm (Resource.route a) (Resource.dns b) = refl
conflicts_comm (Resource.dns a) (Resource.route b) = refl
conflicts_comm (Resource.dns a) (Resource.dns b) =
    ground (arith, domains_overlap_comm a.domains b.domains)

pub clash_comm : (a b : Resource) → clash a b ≡ clash b a
clash_comm a b = cc (shareable_comm a b, conflicts_comm a b)
