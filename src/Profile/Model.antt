-- ===== src/Profile/Model.antt =====
-- `VpnProfile` and the requests of crates/manager-core/src/domain.rs and profile_service.rs.
use openfortivpn.Base.{Bool, Option, ℕ}
use openfortivpn.Base.Text.{Str}
use openfortivpn.Base.Dict.{Dict}

pub record VpnProfile : Type 0 where
  pub id : Str
  pub revision : ℕ
  pub name : Str
  pub host : Str
  pub port : ℕ
  pub username : Str
  pub realm : Str
  pub trusted_cert : Str
  pub credential_ref : Option Str
  pub set_routes : Bool
  pub set_dns : Bool
  pub pppd_use_peerdns : Bool
  pub half_internet_routes : Bool
  pub use_sudo : Bool
  pub auto_connect : Bool
  pub auto_reconnect : Bool

-- What a client shows of a profile.
pub record ProfileView : Type 0 where
  pub profile : VpnProfile
  pub has_secret : Bool
  pub password_stored : Bool

-- `Catalog`, a `BTreeMap<String, VpnProfile>`
abbrev pub Catalog : Type 0
Catalog = Dict VpnProfile

pub data SecretChange : Type 0 where
  replace : Str → SecretChange
  discard : SecretChange

pub record Mutation : Type 0 where
  pub profiles : Catalog
  pub stored : Dict SecretChange
  pub session : Dict SecretChange
  pub clear_sessions : Bool

pub record SaveRequest : Type 0 where
  pub profile : VpnProfile
  pub password : Option Str
  pub remember_password : Bool
  pub expected_revision : Option ℕ

pub data MissingPasswordPolicy : Type 0 where
  allow require_when_remembering : MissingPasswordPolicy

abbrev pub max_profiles : ℕ
max_profiles = 4096
