-- ===== src/Network/Reachable.antt =====
-- The manager as a state machine: every sequence of its operations, of deaths and openings of its
-- store, and of changes of the world by others keeps the leases isolated.
use mathlib.Core.Path.{subst}
use openfortivpn.Base.{◌≡◌, refl, arith, inl, inr, Bool, Option, none, some}
use openfortivpn.Base.Text.{str_equality}
use openfortivpn.Base.Dict.{lookup}
use openfortivpn.Base.Error.{Result, ok, err, Result-cases}
use openfortivpn.Network.Model.{Snapshot, default_snapshot}
use openfortivpn.Network.Monad.{Backend, Journal}
use openfortivpn.Network.Leases.{plan, from_snapshot, interrupted}
use openfortivpn.Network.Isolation.{IsIsolated}
use openfortivpn.Network.Isolation.Shrinks.{Shrinks-IsIsolated, map_values-plan}
use openfortivpn.Network.Isolation.Saved.{serve-IsSafe}
use openfortivpn.Network.Store.{StoreDirectory, open_locked, load, check_records}
use openfortivpn.Network.Store.Saved.{KeptBy}
use openfortivpn.Network.Store.Opened.{KeptByOpening, open_locked-Answers}
use openfortivpn.Network.Store.Manager.{
  Request, preparing_plan, applying_attempt, releasing_attempt, changing_network, opening_store,
  opened, dead, serve, serve_request, OfOpen,
}

-- A coordinator without a file has no lease.
pub default_snapshot-IsIsolated : IsIsolated default_snapshot
unfolding default_snapshot plan lookup
default_snapshot-IsIsolated = record { keyed = λ i p e. cc; compatible = λ i j p q ne e f. cc }

from_snapshot-IsIsolated : (s : Snapshot) → IsIsolated s → IsIsolated (from_snapshot s)
unfolding from_snapshot
from_snapshot-IsIsolated s v =
    Shrinks-IsIsolated s (from_snapshot s)
      (λ i. inl (map_values-plan interrupted i s (λ lease. ground arith))) v

load_same : (s t : Snapshot) → load s ≡ ok t → s ≡ t
unfolding load
load_same s t h = elim (Result-cases (check_records s.records)) [
  | inr (c, f) ↦ absurd (ground (arith, h, f))
  | inl (u, f) ↦ ground (arith, h, f)
]

module _ {W : Type 0} (dir : StoreDirectory W) (backend : Backend W) (journal : Journal W)
    (Foreign : W → W → Type 0) where
  -- A request, which may open the store after a death, or a change of the world by somebody else.
  pub data Step : Option Snapshot → W → Option Snapshot → W → Type 0 where
    serving :
        (r : Request) (o : Option Snapshot) (w : W)
        → Step o w
            (serve_request dir backend journal r o w).0
            (serve_request dir backend journal r o w).1
    elsewhere : (o : Option Snapshot) (w w' : W) → Foreign w w' → Step o w o w'

  pub data Reach (o : Option Snapshot) (w : W) : Option Snapshot → W → Type 0 where
    here : Reach o w o w
    next : {p q : Option Snapshot} {v x : W} → Reach o w p v → Step p v q x → Reach o w q x

  -- What is relied on: `Q` says of the world that the leases of the journal file are isolated. The
  -- calls keep it, others keep it, and so does a save of isolated leases, even one that fails.
  pub record KeepsFile (Q : W → Type 0) : Type 0 where
    pub serving_it : KeptBy IsIsolated Q backend journal
    pub opening_it : KeptByOpening Q dir
    pub others : (w w' : W) → Foreign w w' → Q w → Q w'
    pub reading : (w : W) (s : Snapshot) → Q w → (dir.read_file w).0 ≡ ok s → IsIsolated s

  module _ {Q : W → Type 0} (kept : KeepsFile Q) where
    abbrev IsSafeManager : Option Snapshot → W → Type 0
    IsSafeManager o w = OfOpen IsIsolated o × Q w

    open_locked-IsSafe :
        (nonblocking : Bool) (w : W)
        → Q w
        → IsSafeManager (opened (open_locked dir nonblocking w).0) (open_locked dir nonblocking w).1
    open_locked-IsSafe nonblocking w q =
        let answers =
          open_locked-Answers kept.opening_it IsIsolated
            (from_snapshot-IsIsolated default_snapshot default_snapshot-IsIsolated)
            (λ v s t q' read loads.
              from_snapshot-IsIsolated t
                (subst IsIsolated (load_same s t loads) (kept.reading v s q' read)))
            nonblocking in
        by_result (open_locked dir nonblocking w).0 (answers.at w q).1 (answers.at w q).0
      where
        by_result :
            {v : W} (r : Result Snapshot)
            → ((s : Snapshot) → r ≡ ok s → IsIsolated s)
            → Q v
            → IsSafeManager (opened r) v
        by_result (ok s) h q = (h s refl, q)
        by_result (err e) h q = (tt, q)

    dead_keeps : (o : Option Snapshot) (w : W) → Q w → Q (dead dir backend journal o w)
    dead_keeps none w q = q
    dead_keeps (some s) w q = kept.opening_it.unlocking w q

    opened_serve :
        (r : Request) (s : Snapshot) (w : W)
        → IsSafeManager (some s) w
        → let (s', w') = serve dir backend journal r s w in IsSafeManager (some s') w'
    opened_serve r s w h = serve-IsSafe backend journal kept.serving_it dir r s w h

    serve_request-IsSafe :
        (r : Request) (o : Option Snapshot) (w : W)
        → IsSafeManager o w
        → let (o', w') = serve_request dir backend journal r o w in IsSafeManager o' w'
    unfolding serve_request
    serve_request-IsSafe (opening_store nonblocking) o w h =
        open_locked-IsSafe nonblocking (dead dir backend journal o w) (dead_keeps o w h.1)
    serve_request-IsSafe (preparing_plan p caps) none w h = h
    serve_request-IsSafe (applying_attempt attempt) none w h = h
    serve_request-IsSafe (releasing_attempt attempt) none w h = h
    serve_request-IsSafe changing_network none w h = h
    serve_request-IsSafe (preparing_plan p caps) (some s) w h =
        opened_serve (preparing_plan p caps) s w h
    serve_request-IsSafe (applying_attempt attempt) (some s) w h =
        opened_serve (applying_attempt attempt) s w h
    serve_request-IsSafe (releasing_attempt attempt) (some s) w h =
        opened_serve (releasing_attempt attempt) s w h
    serve_request-IsSafe changing_network (some s) w h = opened_serve changing_network s w h

    Step-IsIsolated :
        {o : Option Snapshot} {w : W} {p : Option Snapshot} {v : W}
        → Step o w p v
        → IsSafeManager o w
        → IsSafeManager p v
    Step-IsIsolated (serving r o w) h = serve_request-IsSafe r o w h
    Step-IsIsolated (elsewhere o w w' f) h = (h.0, kept.others w w' f h.1)

    -- Where a save of isolated leases, even one that fails, leaves isolated leases in the journal
    -- file, and others and the remaining calls do so too: from a file with isolated leases, or none,
    -- every sequence of operations, of deaths and openings of the store, which reload the file, and of
    -- foreign changes, failing calls of the backend, the journal and the directory included, leads to
    -- isolated leases, in the manager, if one runs, and in the file.
    pub Reach-IsIsolated :
        {w : W} {o : Option Snapshot} {v : W} → Q w → Reach none w o v → OfOpen IsIsolated o × Q v
    Reach-IsIsolated q here = (tt, q)
    Reach-IsIsolated q (next r st) = Step-IsIsolated st (Reach-IsIsolated q r)
