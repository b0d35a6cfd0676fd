-- ===== src/Network/Store/Saved.antt =====
-- The coordinator saves loadable snapshots only, at every call of the journal.
use openfortivpn.Base.{◌≡◌}
use openfortivpn.Base.Text.{Str, str_equality}
use openfortivpn.Base.Error.{Result, ok, err}
use openfortivpn.Network.Model.{Resource, Snapshot}
use openfortivpn.Network.Monad.{M, Backend, Journal, ◌>>=◌, continue}
use openfortivpn.Network.Keeps.{Keeps}
use openfortivpn.Network.Store.{load}
use openfortivpn.Network.Store.Loadable.{IsLoadable}

-- What the calls of the backend keep, and what saving a snapshot keeps of which `S` holds.
pub record KeptBy {W : Type 0} (S : Snapshot → Type 0) (Q : W → Type 0) (backend : Backend W)
    (journal : Journal W) : Type 0 where
  pub inspecting : (r : Resource) (w : W) → Q w → Q (backend.inspect r w).1
  pub applying_it : (r : Resource) (w : W) → Q w → Q (backend.apply r w).1
  pub removing : (r : Resource) (f : Str) (w : W) → Q w → Q (backend.remove r f w).1
  pub saving : (s : Snapshot) (w : W) → S s → Q w → Q (journal.save s w).1

-- What saving a snapshot that loads keeps.
abbrev pub KeptBySaving : {W : Type 0} → (W → Type 0) → Backend W → Journal W → Type 0
KeptBySaving Q backend journal = KeptBy (λ s. load s ≡ ok s) Q backend journal

-- The snapshot loads, and the world is as the saves have left it.
abbrev pub IsSound : {W : Type 0} → (W → Type 0) → Snapshot → W → Type 0
IsSound Q s w = IsLoadable s × Q w

-- After an error the state is sound; after a success the result and the state are as stated.
abbrev pub Ends :
    {W A : Type 0} → (W → Type 0) → (A → Snapshot → W → Type 0) → Result A → Snapshot → W → Type 0
Ends Q V (ok a) s w = V a s w
Ends Q V (err e) s w = IsSound Q s w

pub record Yields {W A : Type 0} (Q : W → Type 0) (P : Snapshot → W → Type 0)
    (V : A → Snapshot → W → Type 0) (m : M W A) : Type 0 where
  pub at : (s : Snapshot) (w : W) → P s w → Ends Q V (m s w).0 (m s w).1 (m s w).2

module _ {W : Type 0} {Q : W → Type 0} where
  continue-Yields :
      {A B : Type 0} (V : A → Snapshot → W → Type 0) (U : B → Snapshot → W → Type 0) (f : A → M W B)
      → ((a : A) → Yields Q (V a) U (f a))
      → (r : Result A) (s : Snapshot) (w : W) → Ends Q V r s w
      → Ends Q U (continue r f s w).0 (continue r f s w).1 (continue r f s w).2
  unfolding continue
  continue-Yields V U f kf (ok a) s w h = (kf a).at s w h
  continue-Yields V U f kf (err e) s w h = h

  pub bind-Yields :
      {A B : Type 0} {P : Snapshot → W → Type 0} (V : A → Snapshot → W → Type 0)
      {U : B → Snapshot → W → Type 0} {m : M W A} {f : A → M W B}
      → Yields Q P V m
      → ((a : A) → Yields Q (V a) U (f a))
      → Yields Q P U (m >>= f)
  unfolding ◌>>=◌
  bind-Yields V {U} {m} {f} km kf = record {
    at = λ s w h. continue-Yields V U f kf (m s w).0 (m s w).1 (m s w).2 (km.at s w h);
  }

  -- An action that keeps the state sound.
  pub kept-Yields :
      {A : Type 0} {m : M W A} → Keeps (IsSound Q) m → Yields Q (IsSound Q) (λ a. IsSound Q) m
  kept-Yields {A} {m} k = record {
    at = λ s w h. by_result (m s w).0 (m s w).1 (m s w).2 (k.at s w h);
  }
    where
      by_result :
          (r : Result A) (s : Snapshot) (w : W)
          → IsSound Q s w
          → Ends Q (λ (a : A). IsSound Q) r s w
      by_result (ok a) s w h = h
      by_result (err e) s w h = h

  pub Yields-Keeps :
      {A : Type 0} {m : M W A} → Yields Q (IsSound Q) (λ a. IsSound Q) m → Keeps (IsSound Q) m
  Yields-Keeps {A} {m} k = record {
    at = λ s w h. by_result (m s w).0 (m s w).1 (m s w).2 (k.at s w h);
  }
    where
      by_result :
          (r : Result A) (s : Snapshot) (w : W)
          → Ends Q (λ (a : A). IsSound Q) r s w
          → IsSound Q s w
      by_result (ok a) s w h = h
      by_result (err e) s w h = h
