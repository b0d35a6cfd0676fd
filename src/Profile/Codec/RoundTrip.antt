-- ===== src/Profile/Codec/RoundTrip.antt =====
-- What is written is read back.
use openfortivpn.Base.{arith, ◌≡◌, some, false, inl, inr, Option-cases, List, ℕ}
use openfortivpn.Base.Error.{ok}
use openfortivpn.Profile.Codec.{Json, Document, encode, decode, decode_value}

-- The JSON library reads a document that it has written: an object, with the same content.
pub record IsFaithful {V A : Type 0} (json : Json V A) : Type 0 where
  pub reads :
      (d : Document A) (b : List ℕ)
      → json.to_vec_pretty d ≡ some b
      → (v : V) × (json.from_slice b ≡ some v)
        × (json.is_array v ≡ false)
        × (json.to_document v ≡ some d)

-- With a faithful JSON library, metadata that is encoded is decoded to the same profiles, as a
-- versioned document: neither limit that the writer keeps to stops the reader.
pub decode-encode :
    {V A : Type 0} (json : Json V A) (profiles : List A) (b : List ℕ)
    → IsFaithful json
    → encode json profiles ≡ ok b
    → decode json b ≡ ok (record { profiles = profiles; legacy = false })
unfolding encode decode decode_value
decode-encode json profiles b faithful written =
    let d : Document _ = record { schema_version = 1; profiles = profiles } in
    elim (Option-cases (json.to_vec_pretty d)) [
      | inl failed ↦ absurd (ground (arith, failed))
      | inr (bytes, encoded) ↦
          let (v, parsed, object, content) = faithful.reads d bytes encoded in
          ground (arith, encoded, parsed, object, content)
    ]
