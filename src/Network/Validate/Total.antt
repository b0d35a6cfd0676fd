-- ===== src/Network/Validate/Total.antt =====
-- The comparison of two validated plans never panics.
use openfortivpn.Base.{refl, arith, ◌≡◌, true, false, [], ◌∷◌, Bool, List, all, any}
use openfortivpn.Base.Error.{ok, is_ok}
use openfortivpn.Network.Model.{Plan, BackendCapabilities, Resource}
use openfortivpn.Network.Cidr.{prefix, overlaps_panics}
use openfortivpn.Network.Validate.{validate, validate_resources, checked_interface}

abbrev route_parses : Resource → Bool
route_parses (Resource.route r) = is_ok (prefix r.destination)
route_parses (Resource.dns d) = true

-- The comparison of two resources evaluates an `expect` that fails.
unfoldable pub comparison_panics : Resource → Resource → Bool
comparison_panics (Resource.route a) (Resource.route b) =
    overlaps_panics a.destination b.destination
comparison_panics _ _ = false

validate_resources_parses :
    (caps : BackendCapabilities) (seen rs : List Resource)
    → validate_resources caps seen rs ≡ ok tt
    → all route_parses rs ≡ true
unfolding validate_resources checked_interface
validate_resources_parses caps seen [] h = refl
validate_resources_parses caps seen (Resource.route r ∷ rs) h =
    ground (arith, h, validate_resources_parses caps (Resource.route r ∷ seen) rs)
validate_resources_parses caps seen (Resource.dns d ∷ rs) h =
    ground (arith, h, validate_resources_parses caps (Resource.dns d ∷ seen) rs)

one_against_all :
    (a : Resource) (bs : List Resource)
    → route_parses a ≡ true
    → all route_parses bs ≡ true
    → any (λ b. comparison_panics a b) bs ≡ false
unfolding comparison_panics overlaps_panics
one_against_all a [] ha h = refl
one_against_all (Resource.route a) (Resource.route b ∷ bs) ha h =
    ground (arith, ha, h, one_against_all (Resource.route a) bs)
one_against_all (Resource.route a) (Resource.dns b ∷ bs) ha h =
    ground (arith, ha, h, one_against_all (Resource.route a) bs)
one_against_all (Resource.dns a) (b ∷ bs) ha h =
    ground (arith, ha, h, one_against_all (Resource.dns a) bs)

all_against_all :
    (xs bs : List Resource)
    → all route_parses xs ≡ true
    → all route_parses bs ≡ true
    → any (λ a. any (λ b. comparison_panics a b) bs) xs ≡ false
all_against_all [] bs ha hb = refl
all_against_all (a ∷ xs) bs ha hb = ground (arith, ha, one_against_all a bs, all_against_all xs bs)

-- Between the resources of two plans that validate, under whatever capabilities, no comparison
-- panics.
pub validated_never_panics :
    (p q : Plan) (caps caps' : BackendCapabilities)
    → validate p caps ≡ ok tt
    → validate q caps' ≡ ok tt
    → any (λ a. any (λ b. comparison_panics a b) q.resources) p.resources ≡ false
unfolding validate
validated_never_panics p q caps caps' hp hq =
    all_against_all p.resources q.resources
      (validate_resources_parses caps [] p.resources (ground (arith, hp)))
      (validate_resources_parses caps' [] q.resources (ground (arith, hq)))
