-- ===== src/Network/Store/Released.antt =====
-- `release` keeps the snapshot loadable.
use openfortivpn.Base.{
  ◌≡◌, refl, ◌<◌, ◌+◌, List, [], ◌∷◌, Option, none, some, false, length, arith, ℕ, Bool,
}
use openfortivpn.Base.Text.{Str, str_equality}
use openfortivpn.Base.Dict.{lookup, insert, remove, length-insert}
use openfortivpn.Base.Error.{Result, ok, err, recovery_required}
use openfortivpn.Network.Model.{Entry, Lease, Snapshot}
use openfortivpn.Network.Monad.{
  Backend, Journal, ◌>>=◌, ◌>>◌, pure, fail, gets, update, on_option, on_result,
}
use openfortivpn.Network.Keeps.{Keeps-bind, Keeps-pure}
use openfortivpn.Network.Journaled.{try_save}
use openfortivpn.Network.Release.{
  clear_entry, withdraw_current, withdraw, release_entry, release_entries, drop_lease,
  release_lease, release,
}
use openfortivpn.Network.Store.Loaded.{IsConsistent}
use openfortivpn.Network.Store.Loadable.{
  load-IsLoadable, insert-Consistent, remove-Consistent, lookup-Consistent,
}
use openfortivpn.Network.Store.Changes.{length-remove-lt}
use openfortivpn.Network.Store.Saved.{KeptBySaving, IsSound, Yields, bind-Yields, Yields-Keeps}
use openfortivpn.Network.Store.Steps.{
  KeepsSound, sound_rules, fingerprint-KeepsSound, save-KeepsSound, fail-Yields,
}

module _ {W : Type 0} {Q : W → Type 0} {backend : Backend W} {journal : Journal W}
    (kept : KeptBySaving Q backend journal) where
  clear_entry-KeepsSound :
      (attempt : Str) (index : ℕ) (failing : Bool)
      → KeepsSound kept (clear_entry backend journal attempt index failing)
  unfolding clear_entry
  clear_entry-KeepsSound attempt index failing =
      Keeps-bind _ _
        (Keeps-bind _ _ (fingerprint-KeepsSound kept attempt index none refl)
          (λ u. save-KeepsSound kept))
        (λ u. Keeps-pure failing)

  withdraw_current-KeepsSound :
      (attempt : Str) (index : ℕ) (entry : Entry) (f : Str) (failing : Bool) (current : Str)
      → KeepsSound kept (withdraw_current backend journal attempt index entry f failing current)
  unfolding withdraw_current
  withdraw_current-KeepsSound attempt index entry f failing current =
      search (sound_rules, clear_entry-KeepsSound) depth 7

  withdraw-KeepsSound :
      (attempt : Str) (index : ℕ) (entry : Entry) (f : Str) (failing : Bool)
      → KeepsSound kept (withdraw backend journal attempt index entry f failing)
  unfolding withdraw
  withdraw-KeepsSound attempt index entry f failing =
      search (sound_rules, clear_entry-KeepsSound, withdraw_current-KeepsSound) depth 7

  release_entry-KeepsSound :
      (attempt : Str) (uncertain : Bool) (index : ℕ) (entry : Entry) (failing : Bool)
      → KeepsSound kept (release_entry backend journal attempt uncertain index entry failing)
  unfolding release_entry
  release_entry-KeepsSound attempt uncertain index entry failing =
      search (sound_rules, withdraw-KeepsSound) depth 8

  release_entries-KeepsSound :
      (attempt : Str) (uncertain : Bool) (index : ℕ) (entries : List Entry)
      → KeepsSound kept (release_entries backend journal attempt uncertain index entries)
  unfolding release_entries
  release_entries-KeepsSound attempt uncertain index [] = Keeps-pure false
  release_entries-KeepsSound attempt uncertain index (entry ∷ entries) =
      Keeps-bind _ _ (release_entries-KeepsSound attempt uncertain (index + 1) entries)
        (λ failing. release_entry-KeepsSound attempt uncertain index entry failing)

  -- Sound, with room for one more lease.
  abbrev pub Roomy : Snapshot → W → Type 0
  Roomy s w = IsSound Q s w × (length s.records < 512)

  try_save-Roomy : Yields Q Roomy (λ r. Roomy) (try_save journal)
  unfolding try_save
  try_save-Roomy = record {
    at = λ s w h. ((h.0.0, kept.saving s w (load-IsLoadable s h.0.0) h.0.1), h.1);
  }

  pub put_back :
      (attempt : Str) (lease : Lease)
      → IsConsistent attempt lease
      → Yields Q Roomy
          (λ u. IsSound Q)
          (update (λ s. record s { records = insert attempt lease s.records }))
  unfolding update
  put_back attempt lease k = record {
    at = λ s w h. (
      record {
        versioned = h.0.0.versioned;
        few = omega (arith, h.1, length-insert attempt lease s.records);
        consistent = insert-Consistent attempt lease s.records k h.0.0.consistent;
      },
      h.0.1,
    );
  }

  pure-Sound : Yields Q Roomy (λ u. IsSound Q) (pure tt)
  unfolding pure
  pure-Sound = record { at = λ s w h. h.0 }

  -- The lease that is found.
  abbrev Held : Str → Option Lease → Snapshot → W → Type 0
  Held attempt none s w = IsSound Q s w
  Held attempt (some lease) s w = IsSound Q s w × (lookup attempt s.records ≡ some lease)

  lookup-Held :
      (attempt : Str) → Yields Q (IsSound Q) (Held attempt) (gets (λ s. lookup attempt s.records))
  unfolding gets
  lookup-Held attempt = record { at = λ s w h. of_answer s w h (lookup attempt s.records) refl }
    where
      of_answer :
          (s : Snapshot) (w : W)
          → IsSound Q s w
          → (o : Option Lease) → lookup attempt s.records ≡ o
          → Held attempt o s w
      of_answer s w h none e = h
      of_answer s w h (some lease) e = (h, e)

  -- The lease is taken out, and is consistent.
  abbrev Taken : Str → Lease → Snapshot → W → Type 0
  Taken attempt lease s w = Roomy s w × IsConsistent attempt lease

  take_out :
      (attempt : Str) (lease : Lease)
      → Yields Q
          (Held attempt (some lease))
          (λ u. Taken attempt lease)
          (update (λ s. record s { records = remove attempt s.records }))
  unfolding update
  take_out attempt lease = record {
    at = λ s w h.
        let less = length-remove-lt attempt s.records lease h.1 in
        (
          (
            (
              record {
                versioned = h.0.0.versioned;
                few = omega (arith, h.0.0.few, less);
                consistent = remove-Consistent attempt s.records h.0.0.consistent;
              },
              h.0.1,
            ),
            omega (arith, h.0.0.few, less),
          ),
          lookup-Consistent attempt lease s.records h.1 h.0.0.consistent,
        );
  }

  try_save-Taken :
      (attempt : Str) (lease : Lease)
      → Yields Q (Taken attempt lease) (λ r. Taken attempt lease) (try_save journal)
  unfolding try_save
  try_save-Taken attempt lease = record {
    at = λ s w h. (((h.0.0.0, kept.saving s w (load-IsLoadable s h.0.0.0) h.0.0.1), h.0.1), h.1);
  }

  dropped-Sound :
      (attempt : Str) (lease : Lease) (r : Result (Unit {0}))
      → Yields Q
          (Taken attempt lease)
          (λ u. IsSound Q)
          (on_result r
            (λ e. update (λ s. record s { records = insert attempt lease s.records }) >> fail e)
            (λ _. pure tt))
  unfolding on_result
  dropped-Sound attempt lease (ok u) = record { at = λ s w h. pure-Sound.at s w h.0 }
  dropped-Sound attempt lease (err e) = record {
    at = λ s w h.
        (bind-Yields (λ u. IsSound Q) (put_back attempt lease h.1)
            (λ u. fail-Yields kept (Unit {0}) (λ v. IsSound Q) e)).at
          s w h.0;
  }

  drop_lease-KeepsSound : (attempt : Str) → KeepsSound kept (drop_lease backend journal attempt)
  unfolding drop_lease on_option
  drop_lease-KeepsSound attempt =
      Yields-Keeps (bind-Yields (Held attempt) (lookup-Held attempt) from)
    where
      from :
          (o : Option Lease)
          → Yields Q
              (Held attempt o)
              (λ u. IsSound Q)
              (on_option o (fail recovery_required) (λ removed.
                update (λ s. record s { records = remove attempt s.records })
                >> try_save journal
                >>= λ r.
                    on_result r
                      (λ e.
                        update (λ s. record s { records = insert attempt removed s.records })
                        >> fail e)
                      (λ _. pure tt)))
      from none = fail-Yields kept (Unit {0}) (λ v. IsSound Q) recovery_required
      from (some lease) =
          bind-Yields (λ r. Taken attempt lease)
            (bind-Yields (λ u. Taken attempt lease) (take_out attempt lease)
              (λ u. try_save-Taken attempt lease))
            (dropped-Sound attempt lease)

  release_lease-KeepsSound :
      (attempt : Str) (lease : Lease)
      → KeepsSound kept (release_lease backend journal attempt lease)
  unfolding release_lease
  release_lease-KeepsSound attempt lease =
      search (sound_rules, release_entries-KeepsSound, drop_lease-KeepsSound) depth 8

  pub release-KeepsSound : (attempt : Str) → KeepsSound kept (release backend journal attempt)
  unfolding release
  release-KeepsSound attempt = search (sound_rules, release_lease-KeepsSound) depth 7
