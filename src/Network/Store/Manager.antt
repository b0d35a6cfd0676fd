-- ===== src/Network/Store/Manager.antt =====
-- A manager over its runs: it opens the store, serves its operations, dies, and opens the store again.
use openfortivpn.Base.{Bool, List, [], ◌∷◌, Option, none, some}
use openfortivpn.Base.Text.{Str}
use openfortivpn.Base.Error.{Result, ok, err}
use openfortivpn.Network.Model.{Snapshot, Plan, BackendCapabilities}
use openfortivpn.Network.Monad.{Backend, Journal}
use openfortivpn.Network.Journaled.{network_changed}
use openfortivpn.Network.Prepare.{prepare}
use openfortivpn.Network.Rollback.{apply_or_rollback}
use openfortivpn.Network.Release.{release}
use openfortivpn.Network.Store.{StoreDirectory, open_locked}

-- An operation of the coordinator, or the opening of the store: at the start, and after a death at
-- any time.
pub data Request : Type 0 where
  preparing_plan : Plan → BackendCapabilities → Request
  applying_attempt releasing_attempt : Str → Request
  changing_network : Request
  opening_store : Bool → Request

-- The coordinator of a store that has opened; none where that failed.
abbrev pub opened : Result Snapshot → Option Snapshot
opened (ok s) = some s
opened (err e) = none

module _ {W : Type 0} (dir : StoreDirectory W) (backend : Backend W) (journal : Journal W) where
  -- The death of a process frees its lock; its coordinator is lost, and what it has not saved.
  abbrev pub dead : Option Snapshot → W → W
  dead none w = w
  dead (some s) w = dir.unlock w

  unfoldable pub serve : Request → Snapshot → W → Snapshot × W
  serve (preparing_plan plan caps) s w =
      let (r, s', w') = prepare backend journal plan caps s w in (s', w')
  serve (applying_attempt attempt) s w =
      let (r, s', w') = apply_or_rollback backend journal attempt s w in (s', w')
  serve (releasing_attempt attempt) s w =
      let (r, s', w') = release backend journal attempt s w in (s', w')
  serve changing_network s w = let (r, s', w') = network_changed journal s w in (s', w')
  serve (opening_store nonblocking) s w = (s, w)

  abbrev pub served : Snapshot × W → Option Snapshot × W
  served (s, w) = (some s, w)

  -- Without a coordinator only the opening of the store does anything.
  unfoldable pub serve_request : Request → Option Snapshot → W → Option Snapshot × W
  unfolding serve
  serve_request (opening_store nonblocking) o w =
      let (r, w') = open_locked dir nonblocking (dead o w) in (opened r, w')
  serve_request r none w = (none, w)
  serve_request r (some s) w = served (serve r s w)

  unfoldable pub serve_requests : List Request → Option Snapshot → W → Option Snapshot × W
  unfolding serve_request
  serve_requests [] o w = (o, w)
  serve_requests (r ∷ rs) o w = let (o', w') = serve_request r o w in serve_requests rs o' w'

-- Of a coordinator, if there is one.
abbrev pub OfOpen : (Snapshot → Type 0) → Option Snapshot → Type 0
OfOpen V none = Unit
OfOpen V (some s) = V s
