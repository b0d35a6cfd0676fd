-- ===== src/Network/Store/Prepared.antt =====
-- `prepare` keeps the snapshot loadable.
use openfortivpn.Base.{
  ◌≡◌, refl, ◌≤◌, ◌<◌, List, [], ◌∷◌, Option, true, false, ◌==◌, length, arith, ℕ, Bool, ap, ◌∙◌,
  inl, nat_equality, inr,
}
use openfortivpn.Base.Text.{Str, str_equality}
use openfortivpn.Base.Dict.{remove, length-remove-le}
use openfortivpn.Base.Error.{
  Result, ok, err, recovery_required, network_conflict, reject_if, Result-cases,
}
use openfortivpn.Network.Model.{Resource, Entry, Snapshot, Plan, BackendCapabilities}
use openfortivpn.Network.Monad.{
  Backend, Journal, ◌>>=◌, ◌>>◌, pure, fail, lift, gets, call, update, choose, on_result,
}
use openfortivpn.Network.Keeps.{Keeps-pure}
use openfortivpn.Network.Leases.{preview, fresh_lease, new_entry, bad_fingerprint}
use openfortivpn.Network.Prepare.{prepare_entry, prepare_entries, record_lease, prepare}
use openfortivpn.Network.Validate.{validate}
use openfortivpn.Network.Store.Loaded.{resources_of}
use openfortivpn.Network.Store.Loadable.{remove-Consistent}
use openfortivpn.Network.Store.Changes.{IsReportable, AllReportable, fresh_lease-IsConsistent}
use openfortivpn.Network.Store.Saved.{
  KeptBySaving, IsSound, Yields, bind-Yields, kept-Yields, Yields-Keeps, Ends,
}
use openfortivpn.Network.Store.Steps.{KeepsSound, fail-Yields, choose-Yields, try_save-KeepsSound}
use openfortivpn.Network.Store.Released.{put_back, Roomy}

module _ {W : Type 0} {Q : W → Type 0} {backend : Backend W} {journal : Journal W}
    (kept : KeptBySaving Q backend journal) where
  -- An entry for the resource, with room for a lease.
  abbrev EntryFor : Resource → Entry → Snapshot → W → Type 0
  EntryFor r e s w = Roomy kept s w × (e.resource ≡ r) × IsReportable e.fingerprint

  abbrev EntriesFor : List Resource → List Entry → Snapshot → W → Type 0
  EntriesFor rs es s w = Roomy kept s w × (resources_of es ≡ rs) × AllReportable es

  inspect-Roomy :
      (r : Resource) → Yields Q (Roomy kept) (λ o. Roomy kept) (call (backend.inspect r))
  unfolding call
  inspect-Roomy r = record {
    at = λ s w h.
        by_result s h (backend.inspect r w).0 (backend.inspect r w).1 (kept.inspecting r w h.0.1);
  }
    where
      by_result :
          (s : Snapshot)
          → {v : W} → Roomy kept s v
          → (a : Result (Option Str)) (w : W) → Q w
          → Ends Q (λ (o : Option Str). Roomy kept) a s w
      by_result s h (ok o) w q = ((h.0.0, q), h.1)
      by_result s h (err e) w q = (h.0.0, q)

  entry-EntryFor :
      (r : Resource) (existing : Option Str)
      → Yields Q (Roomy kept) (EntryFor r) (
          lift (reject_if (bad_fingerprint existing) recovery_required)
          >> gets (λ s. new_entry r existing s.records))
  unfolding lift gets
  entry-EntryFor r existing =
      bind-Yields (λ u s w. Roomy kept s w × IsReportable existing)
        (checked (bad_fingerprint existing) refl) (λ u. read_entry)
    where
      checked :
          (b : Bool)
          → bad_fingerprint existing ≡ b
          → Yields Q
              (Roomy kept)
              (λ u s w. Roomy kept s w × IsReportable existing)
              (lift (reject_if b recovery_required))
      checked true e = record { at = λ s w h. h.0 }
      checked false e = record { at = λ s w h. (h, e) }

      read_entry :
          Yields Q
            (λ s w. Roomy kept s w × IsReportable existing)
            (EntryFor r)
            (gets (λ s. new_entry r existing s.records))
      read_entry = record { at = λ s w h. (h.0, refl, h.1) }

  prepare_entry-EntryFor :
      (r : Resource) → Yields Q (Roomy kept) (EntryFor r) (prepare_entry backend journal r)
  unfolding prepare_entry
  prepare_entry-EntryFor r = bind-Yields (λ o. Roomy kept) (inspect-Roomy r) (entry-EntryFor r)

  prepare_entries-EntriesFor :
      (rs : List Resource)
      → Yields Q (Roomy kept) (EntriesFor rs) (prepare_entries backend journal rs)
  unfolding prepare_entries pure
  prepare_entries-EntriesFor [] = record { at = λ s w h. (h, refl, tt) }
  prepare_entries-EntriesFor (r ∷ rs) =
      bind-Yields (EntryFor r) (prepare_entry-EntryFor r) (λ entry. record {
        at = λ s w h.
            (bind-Yields (EntriesFor rs) (prepare_entries-EntriesFor rs) (λ entries. record {
              at = λ t v k. (
                k.0,
                ap (λ (x : Resource). x ∷ resources_of entries) h.1
                    ∙ ap (λ (xs : List Resource). r ∷ xs) k.1,
                (h.2, k.2),
              );
            })).at
              s w h.0;
      })

  recorded-Sound :
      (plan : Plan) (r : Result (Unit {0}))
      → Yields Q
          (IsSound Q)
          (λ u. IsSound Q)
          (on_result r
            (λ e. update (λ s. record s { records = remove plan.attempt_id s.records }) >> fail e)
            (λ _. pure tt))
  unfolding on_result pure update
  recorded-Sound plan (ok u) = record { at = λ s w h. h }
  recorded-Sound plan (err e) =
      bind-Yields (λ u. IsSound Q) removed (λ u. fail-Yields kept (Unit {0}) (λ v. IsSound Q) e)
    where
      removed :
          Yields Q
            (IsSound Q)
            (λ u. IsSound Q)
            (update (λ s. record s { records = remove plan.attempt_id s.records }))
      removed = record {
        at = λ s w h. (
          record {
            versioned = h.0.versioned;
            few = omega (arith, h.0.few, length-remove-le plan.attempt_id s.records);
            consistent = remove-Consistent plan.attempt_id s.records h.0.consistent;
          },
          h.1,
        );
      }

  record_lease-Sound :
      (plan : Plan) (caps : BackendCapabilities) (entries : List Entry)
      → validate plan caps ≡ ok tt
      → Yields Q
          (EntriesFor plan.resources entries)
          (λ u. IsSound Q)
          (record_lease backend journal plan entries)
  unfolding record_lease
  record_lease-Sound plan caps entries valid = record {
    at = λ s w h.
        (bind-Yields (λ r. IsSound Q)
            (bind-Yields (λ u. IsSound Q)
              (put_back kept plan.attempt_id (fresh_lease plan entries)
                (fresh_lease-IsConsistent plan caps entries valid h.1 h.2))
              (λ u. kept-Yields (try_save-KeepsSound kept)))
            (recorded-Sound plan)).at
          s w h.0;
  }

  -- A snapshot that is not full has room.
  not_full : (n : ℕ) → n ≤ 512 → (n == 512) ≡ false → n < 512
  not_full n h k = ground arith

  prepare_new-Sound :
      (plan : Plan) (caps : BackendCapabilities)
      → validate plan caps ≡ ok tt
      → Yields Q
          (IsSound Q)
          (λ u. IsSound Q)
          (gets (λ s. length s.records == 512) >>= λ full.
            choose full (fail network_conflict) (
              prepare_entries backend journal plan.resources >>= record_lease backend journal plan))
  unfolding gets choose
  prepare_new-Sound plan caps valid =
      bind-Yields (λ full s w. IsSound Q s w × ((length s.records == 512) ≡ full))
        (record { at = λ s w h. (h, refl) }) from
    where
      from :
          (full : Bool)
          → Yields Q
              (λ s w. IsSound Q s w × ((length s.records == 512) ≡ full))
              (λ u. IsSound Q)
              (choose full (fail network_conflict) (
                prepare_entries backend journal plan.resources
                >>= record_lease backend journal plan))
      from true = record {
        at = λ s w h. (fail-Yields kept (Unit {0}) (λ v. IsSound Q) network_conflict).at s w h.0;
      }
      from false = record {
        at = λ s w h.
            (bind-Yields (EntriesFor plan.resources) (prepare_entries-EntriesFor plan.resources)
                (λ entries. record_lease-Sound plan caps entries valid)).at
              s w (h.0, not_full (length s.records) h.0.0.few h.1);
      }

  preview_validates :
      (plan : Plan) (caps : BackendCapabilities) (s : Snapshot)
      → preview plan caps s ≡ ok tt
      → validate plan caps ≡ ok tt
  unfolding preview
  preview_validates plan caps s h = elim (Result-cases (validate plan caps)) [
    | inl (u, e) ↦ e
    | inr (c, e) ↦ absurd (ground (arith, h, e))
  ]

  previewed :
      (plan : Plan) (caps : BackendCapabilities)
      → Yields Q
          (IsSound Q)
          (λ u s w. IsSound Q s w × (validate plan caps ≡ ok tt))
          (gets (preview plan caps) >>= lift)
  unfolding gets lift
  previewed plan caps =
      bind-Yields (λ r s w. IsSound Q s w × (preview plan caps s ≡ r))
        (record { at = λ s w h. (h, refl) }) from
    where
      from :
          (r : Result (Unit {0}))
          → Yields Q
              (λ s w. IsSound Q s w × (preview plan caps s ≡ r))
              (λ u s w. IsSound Q s w × (validate plan caps ≡ ok tt))
              (lift r)
      from (ok u) = record { at = λ s w h. (h.0, preview_validates plan caps s h.1) }
      from (err e) = record { at = λ s w h. h.0 }

  pub prepare-KeepsSound :
      (plan : Plan) (caps : BackendCapabilities)
      → KeepsSound kept (prepare backend journal plan caps)
  unfolding prepare gets
  prepare-KeepsSound plan caps = Yields-Keeps (
      bind-Yields (λ present s w. IsSound Q s w × (validate plan caps ≡ ok tt))
        (bind-Yields (λ u s w. IsSound Q s w × (validate plan caps ≡ ok tt)) (previewed plan caps)
          (λ u. record { at = λ s w h. h }))
        (λ present. record {
          at = λ s w h.
              (choose-Yields kept present (λ e. kept-Yields (Keeps-pure tt))
                  (λ e. prepare_new-Sound plan caps h.1)).at
                s w h.0;
        }))
