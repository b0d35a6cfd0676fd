-- ===== src/Network/Handshake.antt =====
-- The resource handshake between the engine and the manager:
-- crates/manager-core/src/network_control.rs. An event is what the accessors of its JSON value
-- answer: the numbers, the texts, and the two values that serde decodes.
pub mod Committed
pub mod Stream
pub mod Collected
use openfortivpn.Base.{
  refl, ◌≡◌, some, none, true, false, [], ◌∷◌, if◌then◌else◌, Bool, List, Option, ℕ, not, ◌==◌,
  ◌||◌, ◌&&◌, ltb, leb, ◌+◌, ◌++◌, ◌-◌, ◌^◌, length, is_empty, all, is_some, is_some_and,
  nat_equality, option_equality, is_none_or, u64_max,
}
use openfortivpn.Base.Error.{ok, err, Result, invalid_input, ◌>>=◌, reject_if, ◌>>◌}
use openfortivpn.Base.Text.{
  Str, str_equality, lit, len, bytes, is_alphanumeric, split_once, is_digit, str_beq,
}
use openfortivpn.Auth.Frame.{valid_request}
use openfortivpn.Network.Model.{Resource, Plan, Route, Dns}
use openfortivpn.Network.Cidr.{parse_ipv4, masked, or_err, unsigned, value_from}
use openfortivpn.Network.Validate.{validate}

-- An address is its number.
pub record InterfaceBinding : Type 0 where
  pub interface : Str
  pub index : ℕ  -- u32
  pub local_address : ℕ
  pub transport_address : ℕ

pub record Event : Type 0 where
  pub protocol_version : Option ℕ
  pub attempt_id : Option Str
  pub request_id : Option Str
  pub event : Option Str
  pub resource_count : Option ℕ
  pub ordinal : Option ℕ
  pub binding : Option InterfaceBinding
  pub resource : Option Resource

pub record Admission : Type 0 where
  pub attempt : Str
  pub profile : Str
  pub generation : ℕ  -- u64
  pub request : Option Str
  pub binding : Option InterfaceBinding
  pub resources : List Resource
  pub expected : ℕ
  pub committed : Bool

-- What an observation returns.
abbrev pub Answer : Type 0
Answer = Result (Option (Plan × InterfaceBinding))

-- `Admission::new`
unfoldable pub new_admission : Str → Str → ℕ → Admission
new_admission attempt profile generation = record {
  attempt = attempt;
  profile = profile;
  generation = generation;
  request = none;
  binding = none;
  resources = [];
  expected = 0;
  committed = false;
}

-- `Admission::started`
unfoldable pub started : Admission → Bool
started a = is_some a.request

abbrev is_interface_byte : ℕ → Bool
is_interface_byte c = is_alphanumeric c || c == b'_' || c == b'-' || c == b'.'

-- The test on the interface that the engine names.
unfoldable pub bad_binding : InterfaceBinding → Bool
bad_binding b =
    is_empty b.interface
    || ltb 31 (len b.interface)
    || not (all is_interface_byte (bytes b.interface))
    || b.index == 0
    || ltb (2 ^ 31 - 1) b.index
    || b.local_address == 0
    || b.transport_address == 0

-- `network_begin`
unfoldable pub observe_begin : Admission → Str → Event → Admission × Answer
unfolding bad_binding
observe_begin a request e =
    if is_some a.request then (a, err invalid_input) else elim e.resource_count [
      | none ↦ (a, err invalid_input)
      | some count ↦ if ltb 128 count then (a, err invalid_input) else elim e.binding [
        | none ↦ (a, err invalid_input)
        | some b ↦
            if bad_binding b
            then (a, err invalid_input)
            else (record a { request = some request; binding = some b; expected = count }, ok none)
      ]
    ]

unfoldable pub is_unexpected : Admission → Str → Event → Bool
is_unexpected a request e =
    not (a.request == some request)
    || not (e.ordinal == some (length a.resources))
    || leb a.expected (length a.resources)

-- `network_resource`
unfoldable pub observe_resource : Admission → Str → Event → Admission × Answer
unfolding is_unexpected
observe_resource a request e =
    if is_unexpected a request e then (a, err invalid_input) else elim e.resource [
      | none ↦ (a, err invalid_input)
      | some r ↦ (record a { resources = a.resources ++ (r ∷ []) }, ok none)
    ]

-- `u32::from_str`
unfoldable pub parse_u32 : Str → Option ℕ
parse_u32 s =
    let digits = unsigned s in
    if leb 1 (length digits) && all is_digit digits && leb (value_from 0 digits) (2 ^ 32 - 1)
    then some (value_from 0 digits)
    else none

-- The length and the address of a route against the address that the tunnel runs over. The plan is
-- valid, so the length is at most 32.
unfoldable pub check_prefix : InterfaceBinding → Str → Result (Unit {0})
unfolding parse_u32
check_prefix b destination = do
  parts ← or_err (split_once b'/' destination) invalid_input
  address ← or_err (parse_ipv4 parts.0) invalid_input
  bits ← or_err (parse_u32 parts.1) invalid_input
  reject_if (bits == 0 || masked b.transport_address bits == address) invalid_input

-- The checks on one resource of the plan.
unfoldable pub check_resource : InterfaceBinding → Resource → Result (Unit {0})
check_resource b (Resource.route r) =
    reject_if
      (not (r.interface == b.interface)
        || is_some r.gateway
        || r.gateway_exception
        || not (r.metric == 0))
      invalid_input
    >> check_prefix b r.destination
check_resource b (Resource.dns d) =
    reject_if (not (d.interface == b.interface) || is_empty d.domains) invalid_input

unfoldable pub check_resources : InterfaceBinding → List Resource → Result (Unit {0})
check_resources b [] = ok tt
check_resources b (r ∷ rs) = check_resource b r >> check_resources b rs

-- The plan that the manager makes of what it has collected.
unfoldable pub assembled : Admission → ℕ → Plan
assembled a epoch = record {
  attempt_id = a.attempt;
  profile_id = a.profile;
  generation = a.generation;
  network_epoch = epoch;
  resources = a.resources;
}

-- All checks of a commit.
unfoldable pub check_plan : Admission → ℕ → InterfaceBinding → Result (Unit {0})
unfolding assembled check_resources
check_plan a epoch b =
    validate (assembled a epoch) (record { split_dns = true }) >> check_resources b a.resources

unfoldable pub conclude : Admission → ℕ → InterfaceBinding → Result (Unit {0}) → Admission × Answer
unfolding assembled
conclude a epoch b (err code) = (a, err code)
conclude a epoch b (ok done) = (record a { committed = true }, ok (some (assembled a epoch, b)))

-- `network_commit`
unfoldable pub observe_commit : Admission → Str → ℕ → Admission × Answer
unfolding check_plan conclude
observe_commit a request epoch =
    if not (a.request == some request) || not (length a.resources == a.expected)
    then (a, err invalid_input)
    else elim a.binding [
      | none ↦ (a, err invalid_input)
      | some b ↦ conclude a epoch b (check_plan a epoch b)
    ]

unfoldable pub is_foreign_frame : Admission → Event → Bool
is_foreign_frame a e =
    not (e.protocol_version == some 2) || not (e.attempt_id == some a.attempt) || a.committed

-- The `match` on the name of the event.
unfoldable pub observe_request : Admission → Str → Event → ℕ → Admission × Answer
unfolding observe_begin observe_resource observe_commit
observe_request a request e epoch =
    if e.event == some (lit "network_begin")
    then observe_begin a request e
    else if e.event == some (lit "network_resource")
    then observe_resource a request e
    else if e.event == some (lit "network_commit")
    then observe_commit a request epoch
    else (a, err invalid_input)

-- `Admission::observe`
unfoldable pub observe_frame : Admission → Event → ℕ → Admission × Answer
unfolding observe_request is_foreign_frame
observe_frame a e epoch =
    if is_foreign_frame a e then (a, err invalid_input) else elim e.request_id [
      | none ↦ (a, err invalid_input)
      | some request ↦
          if valid_request request
          then observe_request a request e epoch
          else (a, err invalid_input)
    ]
