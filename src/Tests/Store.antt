-- ===== src/Tests/Store.antt =====
-- A journal with one lease, and domains.
use openfortivpn.Network.Validate.{validate, valid_identity, validate_resources}
use openfortivpn.Base.{
  Option, is_some, arith, ◌≡◌, refl, ◌≤◌, ◌↔◌, true, false, [], ◌∷◌, some, none, length, List,
}
use openfortivpn.Base.Text.{Str, str_equality, lit, len, str_beq}
use openfortivpn.Base.Dict.{lookup}
use openfortivpn.Base.Error.{Result, ok, err, recovery_required}
use openfortivpn.Network.Model.{Plan, Lease, Snapshot, active, Resource}
use openfortivpn.Network.Monad.{Backend, Journal}
use openfortivpn.Network.Store.Saved.{KeptBySaving}
use openfortivpn.Network.Store.Operations.{saves_loadable}
use openfortivpn.Network.Store.Opened.{KeptByOpening}
use openfortivpn.Network.Store.Manager.{
  Request, serve_request, serve_requests, preparing_plan, applying_attempt, releasing_attempt,
  changing_network, opening_store, OfOpen,
}
use openfortivpn.Network.Isolation.{IsIsolated}
use openfortivpn.Network.Reachable.{Reach-IsIsolated, KeepsFile, next, here, serving}
use mathlib.Core.Path.{subst}
use openfortivpn.Network.Store.{load, StoreDirectory}
use openfortivpn.Network.Store.Loaded.{load-IsConsistent, IsConsistent}
use openfortivpn.Network.Conflict.{domain_overlaps}
use openfortivpn.Network.Conflict.Domains.{domain_overlaps_iff, LiesUnder}

abbrev empty_plan : Plan
empty_plan = record {
  attempt_id = lit "a";
  profile_id = lit "p";
  generation = 1;
  network_epoch = 0;
  resources = [];
}

abbrev empty_lease : Lease
empty_lease = record { plan = empty_plan; phase = active; uncertain = false; entries = [] }

abbrev journal_file : Snapshot
journal_file = record {
  schema_version = 1;
  network_epoch = 0;
  records = (lit "a", empty_lease) ∷ [];
}

journal_loads : load journal_file ≡ ok journal_file
unfolding load validate valid_identity lit len validate_resources str_beq
journal_loads = refl

lease_found : lookup (lit "a") journal_file.records ≡ some empty_lease
unfolding lookup str_beq lit
lease_found = refl

load-IsConsistent_example :
    (journal_file ≡ journal_file)
    × (length journal_file.records ≤ 512)
    × IsConsistent (lit "a") empty_lease
load-IsConsistent_example =
    load-IsConsistent journal_file journal_file (lit "a") empty_lease journal_loads lease_found

domain_overlaps_iff_example :
    (domain_overlaps (lit "vpn.corp.example") (lit "corp.example") ≡ true)
    ↔ ((name : Str) × LiesUnder (lit "vpn.corp.example") name × LiesUnder (lit "corp.example") name)
domain_overlaps_iff_example = domain_overlaps_iff (lit "vpn.corp.example") (lit "corp.example")

-- The world is the journal file.
abbrev File : Type 0
File = Option Snapshot

abbrev remembering : Journal File
remembering = record { save = λ s w. (ok tt, some s) }

abbrev willing : Backend File
willing = record {
  inspect = λ r w. (ok none, w);
  apply = λ r w. (ok (lit "x"), w);
  remove = λ r f w. (ok tt, w);
}

abbrev read_back : File → Result Snapshot
read_back none = err recovery_required
read_back (some s) = ok s

abbrev one_file : StoreDirectory File
one_file = record {
  verify = λ w. (ok tt, w);
  lock = λ nonblocking w. (ok tt, w);
  unlock = λ w. w;
  exists = λ w. (ok (is_some w), w);
  read_file = λ w. (read_back w, w);
  read_dir = λ w. (ok [], w);
}

abbrev Loads : File → Type 0
Loads w = OfOpen (λ s. load s ≡ ok s) w

willing-KeptBySaving : KeptBySaving Loads willing remembering
willing-KeptBySaving = record {
  inspecting = λ r w h. h;
  applying_it = λ r w h. h;
  removing = λ r f w h. h;
  saving = λ s w loads h. loads;
}

one_file-KeptByOpening : (Q : File → Type 0) → KeptByOpening Q one_file
one_file-KeptByOpening Q = record {
  verifying = λ w q. q;
  locking = λ nonblocking w q. q;
  unlocking = λ w q. q;
  looking = λ w q. q;
  reading = λ w q. q;
}

abbrev lan_plan : Plan
lan_plan = record empty_plan {
  resources =
      Resource.route (record {
        destination = lit "10.0.0.0/8";
        gateway = none;
        interface = lit "ppp0";
        metric = 1;
        gateway_exception = false;
      })
      ∷ [];
}

abbrev requests : List Request
requests =
    opening_store false
    ∷ preparing_plan lan_plan (record { split_dns = false })
    ∷ applying_attempt (lit "a")
    ∷ opening_store false
    ∷ changing_network
    ∷ releasing_attempt (lit "a")
    ∷ []

saves_loadable_example :
    let (o, w') = serve_requests one_file willing remembering requests none none in
    OfOpen (λ s. load s ≡ ok s) o × Loads w'
saves_loadable_example =
    saves_loadable one_file willing remembering willing-KeptBySaving (one_file-KeptByOpening Loads)
      requests none tt

abbrev Isolated : File → Type 0
Isolated w = OfOpen IsIsolated w

-- Others let the file be.
abbrev Foreign : File → File → Type 0
Foreign w w' = w ≡ w'

willing-KeepsFile : KeepsFile one_file willing remembering Foreign Isolated
willing-KeepsFile = record {
  serving_it = record {
    inspecting = λ r w h. h;
    applying_it = λ r w h. h;
    removing = λ r f w h. h;
    saving = λ s w isolated h. isolated;
  };
  opening_it = one_file-KeptByOpening Isolated;
  others = λ w w' same h. subst Isolated same h;
  reading = λ w s h e. of_file w s h e;
}
  where
    of_file : (w : File) (s : Snapshot) → Isolated w → read_back w ≡ ok s → IsIsolated s
    of_file none s h e = absurd (ground (arith, e))
    of_file (some t) s h e = let same : t ≡ s = ground (arith, e) in subst IsIsolated same h

-- The store is opened, and a lease prepared.
Reach-IsIsolated_example :
    let (o, v) = serve_request one_file willing remembering (opening_store false) none none in
    let (p, x) =
      serve_request one_file willing remembering
        (preparing_plan lan_plan (record { split_dns = false }))
        o
        v in
    OfOpen IsIsolated p × Isolated x
Reach-IsIsolated_example =
    Reach-IsIsolated one_file willing remembering Foreign willing-KeepsFile {w = none} tt (
      next (next here (serving (opening_store false) none none))
        (serving (preparing_plan lan_plan (record { split_dns = false })) _ _))
