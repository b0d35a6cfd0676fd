-- ===== src/Network/Model.antt =====
-- The data of crates/manager-core/src/network.rs. An `Ipv4Addr` is its number.
use native.Mathlib.Decide.{ℕ_discrete}
use openfortivpn.Base.{ℕ, Bool, List, [], Option, Equality, of_discrete}
use openfortivpn.Base.Text.{Str}
use openfortivpn.Base.Dict.{Dict}

pub record Route : Type 0 where
  pub destination : Str
  pub gateway : Option ℕ
  pub interface : Str
  pub metric : ℕ  -- u32
  pub gateway_exception : Bool

-- `domains` empty means global DNS.
pub record Dns : Type 0 where
  pub interface : Str
  pub servers : List ℕ
  pub domains : List Str

pub data Resource : Type 0 where
  route : Route → Resource
  dns : Dns → Resource

pub record Plan : Type 0 where
  pub attempt_id : Str
  pub profile_id : Str
  pub generation : ℕ  -- u64
  pub network_epoch : ℕ  -- u64
  pub resources : List Resource

pub record BackendCapabilities : Type 0 where
  pub split_dns : Bool

pub data Phase : Type 0 where
  prepared applying active releasing needs_recovery : Phase

-- No fingerprint: the transaction has not completed apply.
pub record Entry : Type 0 where
  pub resource : Resource
  pub fingerprint : Option Str
  pub borrowed : Bool

-- `Record`
pub record Lease : Type 0 where
  pub plan : Plan
  pub phase : Phase
  pub uncertain : Bool
  pub entries : List Entry

pub record Snapshot : Type 0 where
  pub schema_version : ℕ
  pub network_epoch : ℕ
  pub records : Dict Lease

-- `Snapshot::default`
unfoldable pub default_snapshot : Snapshot
default_snapshot = record { schema_version = 1; network_epoch = 0; records = [] }

-- The derived equalities.
unfoldable pub Route-discrete : Discrete Route
unfolding ℕ_discrete
Route-discrete = hlevel ℕ_discrete

unfoldable pub Resource-discrete : Discrete Resource
unfolding ℕ_discrete
Resource-discrete = hlevel ℕ_discrete

unfoldable pub Plan-discrete : Discrete Plan
unfolding ℕ_discrete
Plan-discrete = hlevel ℕ_discrete

unfoldable pub Phase-discrete : Discrete Phase
Phase-discrete = hlevel

instance abbrev pub route_equality : Equality Route
route_equality = of_discrete Route-discrete

instance abbrev pub resource_equality : Equality Resource
resource_equality = of_discrete Resource-discrete

instance abbrev pub plan_equality : Equality Plan
plan_equality = of_discrete Plan-discrete

instance abbrev pub phase_equality : Equality Phase
phase_equality = of_discrete Phase-discrete
