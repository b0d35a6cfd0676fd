-- ===== src/Profile/Codec.antt =====
-- The metadata codec of crates/manager-core/src/repository.rs, over the JSON library.
pub mod RoundTrip
use openfortivpn.Base.{
  refl, arith, ◌≡◌, some, none, true, false, [], ◌∷◌, inl, inr, Bool-cases, Option-cases,
  if◌then◌else◌, Bool, List, ℕ, Option, not, ◌==◌, ltb, length, nat_equality, ◌*◌,
}
use openfortivpn.Base.Error.{ok, err, Result, Result-cases, recovery_required}
use openfortivpn.Profile.Model.{max_profiles}

pub record Document (A : Type 0) : Type 0 where
  pub schema_version : ℕ
  pub profiles : List A

pub record Decoded (A : Type 0) : Type 0 where
  pub profiles : List A
  pub legacy : Bool

-- The calls of serde_json, on its values `V`.
pub record Json (V A : Type 0) : Type 0 where
  pub from_slice : List ℕ → Option V
  pub is_array : V → Bool
  pub to_profiles : V → Option (List A)
  pub to_document : V → Option (Document A)
  pub to_vec_pretty : Document A → Option (List ℕ)

abbrev pub max_profile_bytes : ℕ
max_profile_bytes = 16 * 1024 * 1024

module _ {V A : Type 0} (json : Json V A) where
  -- The profiles that are returned, unless they are too many.
  abbrev pub decoded : List A → Bool → Result (Decoded A)
  decoded profiles legacy =
      if ltb max_profiles (length profiles)
      then err recovery_required
      else ok (record { profiles = profiles; legacy = legacy })

  -- `decode_value`
  unfoldable pub decode_value : V → Result (Decoded A)
  decode_value value =
      if json.is_array value
      then elim (json.to_profiles value) [
        | none ↦ err recovery_required
        | some profiles ↦ decoded profiles true
      ]
      else elim (json.to_document value) [
        | none ↦ err recovery_required
        | some document ↦
            if not (document.schema_version == 1)
            then err recovery_required
            else decoded document.profiles false
      ]

  -- `decode`
  unfoldable pub decode : List ℕ → Result (Decoded A)
  decode bytes =
      if ltb max_profile_bytes (length bytes)
      then err recovery_required
      else elim (json.from_slice bytes) [
        | none ↦ err recovery_required
        | some value ↦ decode_value value
      ]

  -- `encode`
  unfoldable pub encode : List A → Result (List ℕ)
  encode profiles =
      if ltb max_profiles (length profiles)
      then err recovery_required
      else elim (json.to_vec_pretty (record { schema_version = 1; profiles = profiles })) [
        | none ↦ err recovery_required
        | some bytes ↦
            if ltb max_profile_bytes (length bytes) then err recovery_required else ok bytes
      ]
