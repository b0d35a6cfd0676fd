-- ===== src/Tests/Handshake.antt =====
-- The resource handshake on one attempt with one split route.
use openfortivpn.Base.{
  refl, ◌≡◌, some, none, true, false, [], ◌∷◌, ℕ, List, length, All, option_beq,
}
use openfortivpn.Base.Error.{ok}
use openfortivpn.Base.Text.{
  Str, str_equality, lit, str_beq, len, bytes, utf8, is_control, split_once, split,
}
use openfortivpn.Network.Model.{Plan, Resource}
use openfortivpn.Network.Handshake.{
  Event, Admission, InterfaceBinding, observe_frame, new_admission, check_resource, check_prefix,
}
use openfortivpn.Network.Handshake.Committed.{commit_protects, IsProtected}
use openfortivpn.Network.Handshake.Collected.{committed_collects, taken_all, observe_frames}
use openfortivpn.Network.Validate.{
  validate, valid_identity, validate_resources, checked_interface, valid_interface,
}
use openfortivpn.Auth.Frame.{valid_request}
use openfortivpn.Network.Cidr.{prefix, parse_ipv4, parse_u8, masked, show_cidr, show_ipv4, show_u8}

-- 10.1.2.3 towards 93.184.216.34.
abbrev tunnel : InterfaceBinding
tunnel = record {
  interface = lit "ppp0";
  index = 7;
  local_address = 167838211;
  transport_address = 1572395042;
}

abbrev split_route : Resource
split_route = Resource.route (record {
  destination = lit "10.0.0.0/8";
  gateway = none;
  interface = lit "ppp0";
  metric = 0;
  gateway_exception = false;
})

abbrev frame_named : Str → Event
frame_named name = record {
  protocol_version = some 2;
  attempt_id = some (lit "a");
  request_id = some (lit "0123456789abcdef0123456789abcdef");
  event = some name;
  resource_count = some 1;
  ordinal = some 0;
  binding = some tunnel;
  resource = some split_route;
}

abbrev opening : List (Event × ℕ)
opening = (frame_named (lit "network_begin"), 4) ∷ (frame_named (lit "network_resource"), 4) ∷ []

abbrev last_frame : Event
last_frame = frame_named (lit "network_commit")

abbrev attempt_a : Admission
attempt_a = new_admission (lit "a") (lit "p") 3

abbrev collected : Admission
collected = record {
  attempt = lit "a";
  profile = lit "p";
  generation = 3;
  request = some (lit "0123456789abcdef0123456789abcdef");
  binding = some tunnel;
  resources = split_route ∷ [];
  expected = 1;
  committed = false;
}

abbrev the_plan : Plan
the_plan = record {
  attempt_id = lit "a";
  profile_id = lit "p";
  generation = 3;
  network_epoch = 4;
  resources = split_route ∷ [];
}

commits_last : (observe_frame collected last_frame 4).1 ≡ ok (some (the_plan, tunnel))
unfolding observe_frame option_beq str_beq lit len bytes utf8 valid_request validate valid_identity
    validate_resources checked_interface prefix split_once parse_ipv4 split parse_u8 masked
    show_cidr show_ipv4 show_u8 valid_interface is_control check_resource check_prefix
commits_last = refl

opened : observe_frames attempt_a opening ≡ collected
unfolding observe_frame observe_frames option_beq str_beq lit len bytes utf8 valid_request
    new_admission
opened = refl

commit_protects_example :
    (the_plan.attempt_id ≡ collected.attempt)
    × (the_plan.profile_id ≡ collected.profile)
    × (the_plan.generation ≡ collected.generation)
    × (the_plan.network_epoch ≡ 4)
    × (the_plan.resources ≡ collected.resources)
    × (length the_plan.resources ≡ collected.expected)
    × (collected.binding ≡ some tunnel)
    × (validate the_plan (record { split_dns = true }) ≡ ok tt)
    × All (IsProtected tunnel) the_plan.resources
commit_protects_example = commit_protects collected last_frame 4 the_plan tunnel commits_last

commits_after_opening :
    (observe_frame (observe_frames attempt_a opening) last_frame 4).1 ≡ ok (some (the_plan, tunnel))
commits_after_opening = rw opened commits_last

committed_collects_example : the_plan.resources ≡ taken_all attempt_a opening
committed_collects_example =
    committed_collects (lit "a") (lit "p") 3 opening last_frame 4 the_plan tunnel
      commits_after_opening
