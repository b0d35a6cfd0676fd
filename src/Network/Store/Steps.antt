-- ===== src/Network/Store/Steps.antt =====
-- The steps of apply and release keep the snapshot loadable.
use openfortivpn.Base.{
  ◌≡◌, refl, ◌+◌, Option, none, some, true, false, not, ◌==◌, arith, ℕ, zero, suc, Bool, is_some,
  option_equality,
}
use openfortivpn.Base.Text.{Str, str_equality}
use openfortivpn.Base.Dict.{length-modify}
use openfortivpn.Base.Error.{Result, ok, err, ErrorCode, recovery_required}
use openfortivpn.Network.Model.{Resource, Entry, Lease, Snapshot, Phase}
use openfortivpn.Network.Monad.{
  M, Backend, Journal, ◌>>◌, pure, fail, gets, call, attempt_call, update, choose, on_option,
  on_result,
}
use openfortivpn.Network.Keeps.{
  Keeps, keeps_rules, Keeps-bind, Keeps-fail, Keeps-pure, Keeps-gets, Keeps-on_option, Keeps-choose,
}
use openfortivpn.Network.Leases.{
  modify_lease, set_fingerprint, set_phase, shared_creation, valid_fingerprint, entry_at,
}
use openfortivpn.Network.Journaled.{save, try_save, failed}
use openfortivpn.Network.Apply.{
  share, create, obtain, apply_entry, apply_entries, activate, apply_lease, apply,
}
use openfortivpn.Network.Store.Loadable.{load-IsLoadable, KeepsConsistent, modify-Consistent}
use openfortivpn.Network.Store.Changes.{
  IsReportable, fingerprint-KeepsConsistent, phase-KeepsConsistent, shared_creation-IsReportable,
}
use openfortivpn.Network.Store.Saved.{
  KeptBySaving, IsSound, Yields, bind-Yields, kept-Yields, Yields-Keeps,
}

module _ {W : Type 0} {Q : W → Type 0} {backend : Backend W} {journal : Journal W}
    (kept : KeptBySaving Q backend journal) where
  abbrev pub KeepsSound : {A : Type 0} → M W A → Type 0
  KeepsSound m = Keeps (IsSound Q) m

  pub inspect-KeepsSound : (r : Resource) → KeepsSound (call (backend.inspect r))
  unfolding call
  inspect-KeepsSound r = record { at = λ s w h. (h.0, kept.inspecting r w h.1) }

  pub try_inspect-KeepsSound : (r : Resource) → KeepsSound (attempt_call (backend.inspect r))
  unfolding attempt_call
  try_inspect-KeepsSound r = record { at = λ s w h. (h.0, kept.inspecting r w h.1) }

  pub try_apply-KeepsSound : (r : Resource) → KeepsSound (attempt_call (backend.apply r))
  unfolding attempt_call
  try_apply-KeepsSound r = record { at = λ s w h. (h.0, kept.applying_it r w h.1) }

  pub try_remove-KeepsSound :
      (r : Resource) (f : Str) → KeepsSound (attempt_call (backend.remove r f))
  unfolding attempt_call
  try_remove-KeepsSound r f = record { at = λ s w h. (h.0, kept.removing r f w h.1) }

  pub save-KeepsSound : KeepsSound (save journal)
  unfolding save
  save-KeepsSound = record { at = λ s w h. (h.0, kept.saving s w (load-IsLoadable s h.0) h.1) }

  pub try_save-KeepsSound : KeepsSound (try_save journal)
  unfolding try_save
  try_save-KeepsSound = record { at = λ s w h. (h.0, kept.saving s w (load-IsLoadable s h.0) h.1) }

  modify-KeepsSound :
      (attempt : Str) (f : Lease → Lease)
      → KeepsConsistent f
      → KeepsSound (update (modify_lease attempt f))
  unfolding update
  modify-KeepsSound attempt f k = record {
    at = λ s w h. (
      record {
        versioned = h.0.versioned;
        few = omega (arith, h.0.few, length-modify attempt f s.records);
        consistent = modify-Consistent attempt f s.records k h.0.consistent;
      },
      h.1,
    );
  }

  pub phase-KeepsSound :
      (attempt : Str) (p : Phase) (u : Bool)
      → KeepsSound (update (modify_lease attempt (set_phase p u)))
  phase-KeepsSound attempt p u =
      modify-KeepsSound attempt (set_phase p u) (phase-KeepsConsistent p u)

  pub fingerprint-KeepsSound :
      (attempt : Str) (index : ℕ) (f : Option Str)
      → IsReportable f
      → KeepsSound (update (modify_lease attempt (set_fingerprint index f)))
  fingerprint-KeepsSound attempt index f k =
      modify-KeepsSound attempt (set_fingerprint index f) (fingerprint-KeepsConsistent index f k)

  pub failed-KeepsSound : (A : Type 0) (attempt : Str) → KeepsSound (failed journal {A = A} attempt)
  unfolding failed
  failed-KeepsSound A attempt =
      Keeps-bind _ _
        (Keeps-bind _ _
          (modify-KeepsSound attempt (λ lease. record lease { phase = Phase.needs_recovery })
            (λ id lease h. h))
          (λ u. save-KeepsSound))
        (λ u. Keeps-fail _)

  pub ruleset sound_rules = (
    keeps_rules, inspect-KeepsSound, try_inspect-KeepsSound, try_apply-KeepsSound,
    try_remove-KeepsSound, save-KeepsSound, try_save-KeepsSound, phase-KeepsSound,
    failed-KeepsSound,
  )

  -- A fingerprint that may be recorded.
  abbrev Obtained : Str → Snapshot → W → Type 0
  Obtained f s w = IsSound Q s w × IsReportable (some f)

  pub fail-Yields :
      (A : Type 0) (V : A → Snapshot → W → Type 0) (e : ErrorCode) → Yields Q (IsSound Q) V (fail e)
  unfolding fail
  fail-Yields A V e = record { at = λ s w h. h }

  failed-Yields :
      (A : Type 0) (V : A → Snapshot → W → Type 0) (attempt : Str)
      → Yields Q (IsSound Q) V (failed journal attempt)
  unfolding failed
  failed-Yields A V attempt =
      bind-Yields (λ u. IsSound Q)
        (kept-Yields (
          Keeps-bind _ _
            (modify-KeepsSound attempt (λ lease. record lease { phase = Phase.needs_recovery })
              (λ id lease h. h))
            (λ u. save-KeepsSound)))
        (λ u. fail-Yields A V recovery_required)

  pub choose-Yields :
      {A : Type 0} {V : A → Snapshot → W → Type 0} (b : Bool) {m n : M W A}
      → (b ≡ true → Yields Q (IsSound Q) V m)
      → (b ≡ false → Yields Q (IsSound Q) V n)
      → Yields Q (IsSound Q) V (choose b m n)
  unfolding choose
  choose-Yields true km kn = km refl
  choose-Yields false km kn = kn refl

  pure-Obtained : (f : Str) → IsReportable (some f) → Yields Q (IsSound Q) Obtained (pure f)
  unfolding pure
  pure-Obtained f k = record { at = λ s w h. (h, k) }

  known-Obtained :
      (o : Option Str)
      → IsReportable o
      → Yields Q (IsSound Q) Obtained (on_option o (fail recovery_required) pure)
  unfolding on_option
  known-Obtained none k = fail-Yields Str Obtained recovery_required
  known-Obtained (some f) k = pure-Obtained f k

  share-Obtained :
      (attempt : Str) (entry other : Entry)
      → IsReportable other.fingerprint
      → Yields Q (IsSound Q) Obtained (share backend journal attempt entry other)
  unfolding share
  share-Obtained attempt entry other k =
      bind-Yields (λ current. IsSound Q) (kept-Yields (inspect-KeepsSound entry.resource))
        (λ current.
          choose-Yields (not (current == other.fingerprint))
            (λ e. failed-Yields Str Obtained attempt) (λ e. known-Obtained other.fingerprint k))

  created-Obtained :
      (attempt : Str) (r : Result Str)
      → Yields Q (IsSound Q) Obtained (
          on_result r
            (λ _. failed journal attempt)
            (λ id. choose (valid_fingerprint id) (pure id) (failed journal attempt)))
  unfolding on_result
  created-Obtained attempt (err e) = failed-Yields Str Obtained attempt
  created-Obtained attempt (ok id) =
      choose-Yields (valid_fingerprint id) (λ e. pure-Obtained id (ground (arith, e)))
        (λ e. failed-Yields Str Obtained attempt)

  create-Obtained :
      (attempt : Str) (entry : Entry)
      → Yields Q (IsSound Q) Obtained (create backend journal attempt entry)
  unfolding create
  create-Obtained attempt entry =
      bind-Yields (λ current. IsSound Q) (kept-Yields (inspect-KeepsSound entry.resource))
        (λ current.
          choose-Yields (is_some current) (λ e. failed-Yields Str Obtained attempt)
            (λ e.
              bind-Yields (λ r. IsSound Q) (kept-Yields (try_apply-KeepsSound entry.resource))
                (created-Obtained attempt)))

  -- A shared creation that was found in a sound snapshot.
  abbrev Shared : Option Entry → Snapshot → W → Type 0
  Shared none s w = IsSound Q s w
  Shared (some other) s w = IsSound Q s w × IsReportable other.fingerprint

  shared_creation-Shared :
      (attempt : Str) (r : Resource)
      → Yields Q (IsSound Q) Shared (gets (λ s. shared_creation attempt r s.records))
  unfolding gets
  shared_creation-Shared attempt r = record {
    at = λ s w h. of_answer s w h (shared_creation attempt r s.records) refl;
  }
    where
      of_answer :
          (s : Snapshot) (w : W)
          → IsSound Q s w
          → (o : Option Entry) → shared_creation attempt r s.records ≡ o
          → Shared o s w
      of_answer s w h none e = h
      of_answer s w h (some other) e =
          (h, shared_creation-IsReportable attempt r s.records other h.0.consistent e)

  obtain-Obtained :
      (attempt : Str) (entry : Entry)
      → Yields Q (IsSound Q) Obtained (obtain backend journal attempt entry)
  unfolding obtain on_option
  obtain-Obtained attempt entry =
      bind-Yields Shared (shared_creation-Shared attempt entry.resource) from
    where
      from :
          (o : Option Entry)
          → Yields Q (Shared o) Obtained (
              on_option o
                (create backend journal attempt entry)
                (share backend journal attempt entry))
      from none = create-Obtained attempt entry
      from (some other) = record {
        at = λ s w h. (share-Obtained attempt entry other h.1).at s w h.0;
      }

  record_fingerprint-Yields :
      (attempt : Str) (index : ℕ) (f : Str)
      → Yields Q
          (Obtained f)
          (λ u. IsSound Q)
          (update (modify_lease attempt (set_fingerprint index (some f))) >> save journal)
  record_fingerprint-Yields attempt index f = record {
    at = λ s w h.
        (kept-Yields (
            Keeps-bind _ _ (fingerprint-KeepsSound attempt index (some f) h.1)
              (λ u. save-KeepsSound))).at
          s w h.0;
  }

  apply_entry-KeepsSound :
      (attempt : Str) (index : ℕ) (entry : Entry)
      → KeepsSound (apply_entry backend journal attempt index entry)
  unfolding apply_entry
  apply_entry-KeepsSound attempt index entry =
      Keeps-choose entry.borrowed _ _ (λ e. search sound_rules)
        (λ e. Yields-Keeps (
          bind-Yields Obtained (obtain-Obtained attempt entry)
            (record_fingerprint-Yields attempt index)))

  apply_entries-KeepsSound :
      (attempt : Str) (rounds index : ℕ)
      → KeepsSound (apply_entries backend journal attempt rounds index)
  unfolding apply_entries
  apply_entries-KeepsSound attempt zero index = Keeps-pure tt
  apply_entries-KeepsSound attempt (suc rounds) index =
      Keeps-bind _ _ (Keeps-gets (entry_at attempt index)) λ found.
        Keeps-bind _ _
          (Keeps-on_option found _ _ (Keeps-fail recovery_required)
            λ entry e. apply_entry-KeepsSound attempt index entry)
          (λ u. apply_entries-KeepsSound attempt rounds (index + 1))

  activate-KeepsSound : (attempt : Str) → KeepsSound (activate backend journal attempt)
  unfolding activate
  activate-KeepsSound attempt = search sound_rules depth 7

  apply_lease-KeepsSound :
      (attempt : Str) (count : ℕ) → KeepsSound (apply_lease backend journal attempt count)
  unfolding apply_lease
  apply_lease-KeepsSound attempt count =
      search (sound_rules, apply_entries-KeepsSound, activate-KeepsSound) depth 7

  pub apply-KeepsSound : (attempt : Str) → KeepsSound (apply backend journal attempt)
  unfolding apply
  apply-KeepsSound attempt = search (sound_rules, apply_lease-KeepsSound) depth 7
