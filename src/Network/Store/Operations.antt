-- ===== src/Network/Store/Operations.antt =====
-- Every operation of the coordinator saves loadable snapshots only.
use openfortivpn.Base.{
  ◌≡◌, refl, Bool, Option, none, some, List, [], ◌∷◌, arith, saturating_add, nat_equality,
}
use openfortivpn.Base.Text.{Str, str_equality}
use openfortivpn.Base.Dict.{map_values, length-map_values}
use openfortivpn.Base.Error.{Result, ok, err, recovery_required}
use openfortivpn.Network.Model.{Snapshot, default_snapshot}
use openfortivpn.Network.Monad.{M, Backend, Journal, update}
use openfortivpn.Network.Keeps.{Keeps-bind, Keeps-fail, Keeps-pure, Keeps-gets, Keeps-on_result}
use openfortivpn.Network.Leases.{from_snapshot, recovered_lease, interrupted}
use openfortivpn.Network.Journaled.{network_changed}
use openfortivpn.Network.Rollback.{apply_or_rollback, attempt_action}
use openfortivpn.Network.Store.{load, StoreDirectory, open_locked}
use openfortivpn.Network.Store.Opened.{KeptByOpening, open_locked-Answers}
use openfortivpn.Network.Store.Manager.{
  Request, preparing_plan, applying_attempt, releasing_attempt, changing_network, opening_store,
  opened, dead, serve, serve_request, serve_requests, OfOpen,
}
use openfortivpn.Network.Store.Loadable.{
  IsLoadable, load-IsLoadable, load_sound, map_values-Consistent,
}
use openfortivpn.Network.Store.Changes.{recovered-KeepsConsistent, interrupted-KeepsConsistent}
use openfortivpn.Network.Store.Saved.{KeptBySaving, IsSound}
use openfortivpn.Network.Store.Steps.{KeepsSound, save-KeepsSound, apply-KeepsSound}
use openfortivpn.Network.Store.Released.{release-KeepsSound}
use openfortivpn.Network.Apply.{apply}
use openfortivpn.Network.Release.{release}
use openfortivpn.Network.Store.Prepared.{prepare-KeepsSound}

module _ {W : Type 0} {Q : W → Type 0} {backend : Backend W} {journal : Journal W}
    (kept : KeptBySaving Q backend journal) where
  attempt_action-KeepsSound :
      {A : Type 0} (m : M W A) → KeepsSound kept m → KeepsSound kept (attempt_action m)
  unfolding attempt_action
  attempt_action-KeepsSound m k = record { at = λ s w h. k.at s w h }

  rollback-KeepsSound :
      (attempt : Str) → KeepsSound kept (apply_or_rollback backend journal attempt)
  unfolding apply_or_rollback
  rollback-KeepsSound attempt =
      Keeps-bind _ _
        (attempt_action-KeepsSound (apply backend journal attempt) (apply-KeepsSound kept attempt))
        (λ applied.
          Keeps-on_result applied _ _
            (λ e.
              Keeps-bind _ _
                (attempt_action-KeepsSound (release backend journal attempt)
                  (release-KeepsSound kept attempt))
                (λ released.
                  Keeps-on_result released _ _ (λ d. Keeps-fail recovery_required)
                    (λ u. Keeps-fail e)))
            (λ u. Keeps-pure u))

  network_changed-KeepsSound : KeepsSound kept (network_changed journal)
  unfolding network_changed update
  network_changed-KeepsSound =
      Keeps-bind _ _ (Keeps-bind _ _ changed (λ u. save-KeepsSound kept)) (λ u. Keeps-gets _)
    where
      changed : KeepsSound kept (
          update (λ s. record s {
            network_epoch = saturating_add s.network_epoch 1;
            records = map_values recovered_lease s.records;
          }))
      changed = record {
        at = λ s w h. (
          record {
            versioned = h.0.versioned;
            few = omega (arith, h.0.few, length-map_values recovered_lease s.records);
            consistent =
                map_values-Consistent recovered_lease s.records recovered-KeepsConsistent
                  h.0.consistent;
          },
          h.1,
        );
      }

module _ {W : Type 0} {Q : W → Type 0} {dir : StoreDirectory W} {backend : Backend W}
    {journal : Journal W} (kept : KeptBySaving Q backend journal)
    (opening : KeptByOpening Q dir) where
  from_snapshot-IsLoadable : (s : Snapshot) → IsLoadable s → IsLoadable (from_snapshot s)
  unfolding from_snapshot
  from_snapshot-IsLoadable s h = record {
    versioned = h.versioned;
    few = omega (arith, h.few, length-map_values interrupted s.records);
    consistent =
        map_values-Consistent interrupted s.records interrupted-KeepsConsistent h.consistent;
  }

  -- A coordinator, if there is one, has a snapshot that loads.
  abbrev IsSoundManager : Option Snapshot → W → Type 0
  IsSoundManager o w = OfOpen IsLoadable o × Q w

  open_locked-IsSound :
      (nonblocking : Bool) (w : W)
      → Q w
      → IsSoundManager (opened (open_locked dir nonblocking w).0) (open_locked dir nonblocking w).1
  unfolding default_snapshot
  open_locked-IsSound nonblocking w q =
      let empty : IsLoadable default_snapshot = record {
        versioned = refl;
        few = omega arith;
        consistent = tt;
      } in
      let answers =
        open_locked-Answers opening IsLoadable (from_snapshot-IsLoadable default_snapshot empty)
          (λ v s t q' read loads. from_snapshot-IsLoadable t (load_sound s t loads)) nonblocking in
      by_result (open_locked dir nonblocking w).0 (answers.at w q).1 (answers.at w q).0
    where
      by_result :
          {v : W} (r : Result Snapshot)
          → ((s : Snapshot) → r ≡ ok s → IsLoadable s)
          → Q v
          → IsSoundManager (opened r) v
      by_result (ok s) h q = (h s refl, q)
      by_result (err e) h q = (tt, q)

  dead_keeps : (o : Option Snapshot) (w : W) → Q w → Q (dead dir backend journal o w)
  dead_keeps none w q = q
  dead_keeps (some s) w q = opening.unlocking w q

  serve-IsSound :
      (r : Request) (s : Snapshot) (w : W)
      → IsSound Q s w
      → IsSound Q (serve dir backend journal r s w).0 (serve dir backend journal r s w).1
  unfolding serve
  serve-IsSound (preparing_plan plan caps) s w h = (prepare-KeepsSound kept plan caps).at s w h
  serve-IsSound (applying_attempt attempt) s w h = (rollback-KeepsSound kept attempt).at s w h
  serve-IsSound (releasing_attempt attempt) s w h = (release-KeepsSound kept attempt).at s w h
  serve-IsSound changing_network s w h = (network_changed-KeepsSound kept).at s w h
  serve-IsSound (opening_store nonblocking) s w h = h

  serve_request-IsSound :
      (r : Request) (o : Option Snapshot) (w : W)
      → IsSoundManager o w
      → let (o', w') = serve_request dir backend journal r o w in IsSoundManager o' w'
  unfolding serve_request
  serve_request-IsSound (opening_store nonblocking) o w h =
      open_locked-IsSound nonblocking (dead dir backend journal o w) (dead_keeps o w h.1)
  serve_request-IsSound (preparing_plan plan caps) none w h = h
  serve_request-IsSound (applying_attempt attempt) none w h = h
  serve_request-IsSound (releasing_attempt attempt) none w h = h
  serve_request-IsSound changing_network none w h = h
  serve_request-IsSound (preparing_plan plan caps) (some s) w h =
      serve-IsSound (preparing_plan plan caps) s w h
  serve_request-IsSound (applying_attempt attempt) (some s) w h =
      serve-IsSound (applying_attempt attempt) s w h
  serve_request-IsSound (releasing_attempt attempt) (some s) w h =
      serve-IsSound (releasing_attempt attempt) s w h
  serve_request-IsSound changing_network (some s) w h = serve-IsSound changing_network s w h

  serve_requests-IsSound :
      (rs : List Request) (o : Option Snapshot) (w : W)
      → IsSoundManager o w
      → let (o', w') = serve_requests dir backend journal rs o w in IsSoundManager o' w'
  unfolding serve_requests
  serve_requests-IsSound [] o w h = h
  serve_requests-IsSound (r ∷ rs) o w h =
      let (o', w') = serve_request dir backend journal r o w in
      serve_requests-IsSound rs o' w' (serve_request-IsSound r o w h)

-- Whatever the calls of the backend and of the directory keep, and saving a snapshot that loads
-- keeps, a manager keeps from before it opens its store, through every sequence of operations, deaths
-- and openings of the store from the journal file, failing calls included: no operation ever saves a
-- snapshot that does not load. And the snapshot of a manager that runs at the end loads.
pub saves_loadable :
    {W : Type 0} {Q : W → Type 0} (dir : StoreDirectory W) (backend : Backend W)
    (journal : Journal W) (kept : KeptBySaving Q backend journal) (opening : KeptByOpening Q dir)
    (rs : List Request) (w : W)
    → Q w
    → let (o, w') = serve_requests dir backend journal rs none w in
      OfOpen (λ s. load s ≡ ok s) o × Q w'
saves_loadable dir backend journal kept opening rs w q =
    let (o, w') = serve_requests dir backend journal rs none w in
    let (sound, q') = serve_requests-IsSound kept opening rs none w (tt, q) in (of_open o sound, q')
  where
    of_open : (o : Option Snapshot) → OfOpen IsLoadable o → OfOpen (λ s. load s ≡ ok s) o
    of_open none h = tt
    of_open (some s) h = load-IsLoadable s h
