-- ===== src/Tests/Connect.antt =====
-- Admission at concrete facts.
use openfortivpn.Base.{refl, ◌≡◌, some, true, false, [], ◌∷◌}
use openfortivpn.Base.Text.{str_equality, lit, is_control, len, utf8, bytes, str_beq}
use openfortivpn.Connect.{
  ConnectFacts, ConnectionOwner, admit, healthy, own, admit_current, is_bad_identity, automatic,
}
use openfortivpn.Connect.Admission.{reserve_exclusive}

abbrev idle_facts : ConnectFacts
idle_facts = record {
  profile_id = lit "one";
  profile_exists = true;
  shutting_down = false;
  repository_recovery_required = false;
  repository_restoring = false;
  profile_mutating = false;
  orphaned_recovery = false;
  owners = [];
}

abbrev running : ConnectionOwner
running = record { profile_id = lit "one"; instance_id = some (lit "attempt-one"); state = healthy }

abbrev busy_facts : ConnectFacts
busy_facts = record idle_facts { owners = running ∷ [] }

reserve_exclusive_example :
    (idle_facts.owners ≡ [])
    × (idle_facts.profile_exists ≡ true)
    × (idle_facts.shutting_down ≡ false)
    × (idle_facts.repository_recovery_required ≡ false)
    × (idle_facts.repository_restoring ≡ false)
    × (idle_facts.profile_mutating ≡ false)
    × (idle_facts.orphaned_recovery ≡ false)
unfolding admit own admit_current is_bad_identity is_control len utf8 bytes str_beq lit
reserve_exclusive_example = reserve_exclusive idle_facts automatic refl
