-- ===== src/Tests/Network.antt =====
-- The network coordinator on a backend that counts one resource.
use openfortivpn.Base.{
  refl, arith, ◌≡◌, some, none, true, false, [], ◌∷◌, if◌then◌else◌, ℕ, ◌==◌, ◌<◌, ◌≤◌, ◌+◌, ◌↔◌,
  nat_equality, u64_max,
}
use openfortivpn.Base.Error.{ok, is_ok}
use openfortivpn.Base.Text.{str_equality, str_beq_iff, lit, str_beq, len, bytes, utf8, is_control}
use openfortivpn.Network.Monad.{Backend, Journal}
use openfortivpn.Network.Model.{
  Route, Plan, Lease, Snapshot, BackendCapabilities, Resource, active, default_snapshot,
  phase_equality,
}
use openfortivpn.Network.Isolation.{IsIsolated}
use openfortivpn.Network.Prepare.{prepare}
use openfortivpn.Network.Apply.Phases.{Applied, apply_reports}
use openfortivpn.Network.Release.Outcome.{Released, release_outcome}
use openfortivpn.Network.Release.Owned.{KeptByRemoval, release_removes_owned}
use openfortivpn.Base.Dict.{lookup}
use openfortivpn.Network.Apply.Creates.{KeptByCreation, apply_creates_absent}
use openfortivpn.Network.Apply.{apply}
use openfortivpn.Network.Cidr.{masked, overlaps, prefix, show_cidr}
use openfortivpn.Network.Release.{release}
use openfortivpn.Network.Reachable.{default_snapshot-IsIsolated}
use openfortivpn.Network.Cidr.Canonical.{prefix-show_cidr, prefix_iff, IsAligned}
use openfortivpn.Network.Leases.{plan, preview}
use openfortivpn.Network.Cidr.Overlap.{Covers, overlaps_iff}
use openfortivpn.Network.Prepare.Outcome.{prepare_all_or_nothing, Atomic}
use openfortivpn.Network.Validate.{
  validate, valid_identity, validate_resources, checked_interface, valid_interface,
}
use openfortivpn.Network.Journaled.{network_changed}
use openfortivpn.Network.Epoch.{changed_refuses}

abbrev counter : Backend ℕ
counter = record {
  inspect = λ r w. (ok (if w == 0 then none else some (lit "x")), w);
  apply = λ r w. (ok (lit "x"), w + 1);
  remove = λ r f w. (ok tt, if f == lit "x" then 0 else 5);
}

abbrev no_journal : Journal ℕ
no_journal = record { save = λ s w. (ok tt, w) }

abbrev office : Route
office = record {
  destination = lit "10.0.0.0/8";
  gateway = none;
  interface = lit "ppp0";
  metric = 1;
  gateway_exception = false;
}

abbrev office_plan : Plan
office_plan = record {
  attempt_id = lit "a";
  profile_id = lit "p";
  generation = 1;
  network_epoch = 0;
  resources = Resource.route office ∷ [];
}

abbrev office_lease : Lease
office_lease = record {
  plan = office_plan;
  phase = active;
  uncertain = false;
  entries =
      record { resource = Resource.route office; fingerprint = some (lit "x"); borrowed = false }
      ∷ [];
}

abbrev leased : Snapshot
leased = record { schema_version = 1; network_epoch = 0; records = (lit "a", office_lease) ∷ [] }

abbrev plain : BackendCapabilities
plain = record { split_dns = false }

prepare_all_or_nothing_example :
    Atomic counter no_journal office_plan default_snapshot
      (prepare counter no_journal office_plan plain default_snapshot 0)
    × (plan (lit "b") (prepare counter no_journal office_plan plain default_snapshot 0).1
        ≡ plan (lit "b") default_snapshot)
    × IsIsolated (prepare counter no_journal office_plan plain default_snapshot 0).1
unfolding str_beq lit
prepare_all_or_nothing_example =
    prepare_all_or_nothing counter no_journal office_plan plain default_snapshot 0 (lit "b")
      default_snapshot-IsIsolated refl

apply_reports_example :
    Applied (lit "a") counter no_journal (apply counter no_journal (lit "a") leased 0)
apply_reports_example = apply_reports (lit "a") counter no_journal leased 0

release_outcome_example : Released (lit "a") leased (release counter no_journal (lit "a") leased 1)
release_outcome_example = release_outcome counter no_journal (lit "a") leased 1

counter-KeptByRemoval : KeptByRemoval counter no_journal office_lease (λ w. w ≤ 1)
counter-KeptByRemoval = record {
  inspected = λ r w h. h;
  journalled = λ s w h. h;
  removed = λ entry f w owned e h. ground (arith, e, str_beq_iff f (lit "x"));
}

release_removes_owned_example : (release counter no_journal (lit "a") leased 1).2 ≤ 1
unfolding lookup str_beq lit
release_removes_owned_example =
    release_removes_owned counter no_journal (λ w. w ≤ 1) (lit "a") leased 1 office_lease refl
      counter-KeptByRemoval (omega arith)

counter-KeptByCreation : KeptByCreation counter no_journal (λ w. w ≤ 1)
counter-KeptByCreation = record {
  inspected = λ r w h. h;
  journalled = λ s w h. h;
  created = λ r w e h. ground (arith, e);
}

apply_creates_absent_example : (apply counter no_journal (lit "a") leased 0).2 ≤ 1
apply_creates_absent_example =
    apply_creates_absent counter no_journal (λ w. w ≤ 1) counter-KeptByCreation (lit "a") leased 0
      (omega arith)

ten_prefix : prefix (show_cidr 167772160 8) ≡ ok (167772160, 8)
unfolding masked
ten_prefix = prefix-show_cidr 167772160 8 (omega arith) (omega arith) refl

overlaps_iff_example :
    (overlaps (show_cidr 167772160 8) (show_cidr 167772160 8) ≡ true)
    ↔ ((ip : ℕ) × Covers (167772160, 8) ip × Covers (167772160, 8) ip)
overlaps_iff_example =
    overlaps_iff (show_cidr 167772160 8) (show_cidr 167772160 8) (167772160, 8) (167772160, 8)
      ten_prefix ten_prefix

prefix_iff_example : (prefix (lit "10.0.0.0/8") ≡ ok (167772160, 8)) ↔ (
    (167772160 < 4294967296)
    × (8 ≤ 32)
    × IsAligned 167772160 8
    × (lit "10.0.0.0/8" ≡ show_cidr 167772160 8))
prefix_iff_example = prefix_iff (lit "10.0.0.0/8") 167772160 8

changed_refuses_example :
    is_ok (preview office_plan plain (network_changed no_journal leased 0).1) ≡ false
unfolding u64_max
changed_refuses_example =
    changed_refuses no_journal office_plan plain leased 0 (omega arith) (omega arith)

abbrev ten_plan : Plan
ten_plan = record office_plan {
  resources = Resource.route (record office { destination = show_cidr 167772160 8 }) ∷ [];
}

ten_valid : validate ten_plan plain ≡ ok tt
unfolding validate valid_identity validate_resources checked_interface valid_interface lit len bytes
    utf8 is_control
ten_valid = rw ten_prefix refl
