-- ===== src/Tests/Recovery.antt =====
-- The journal of credential intents with one intent; the state counts the deletions.
use openfortivpn.Base.{
  ◌≡◌, refl, ◌+◌, ℕ, true, false, [], ◌∷◌, none, some, arith, if◌then◌else◌, ◌==◌,
}
use openfortivpn.Base.Text.{Str, str_equality, lit, str_beq_iff, starts_with, str_beq}
use openfortivpn.Base.Error.{ok, err, Result, recovery_required, is_ok}
use openfortivpn.Profile.Archive.{StrSet}
use openfortivpn.Profile.Journal.{Intent}
use openfortivpn.Profile.Recovery.{IntentStore, recover}
use openfortivpn.Profile.Recovery.Unreadable.{IsUnreadable, recover_reads_all}
use openfortivpn.Profile.Recovery.Spares.{KeptByReading, KeptByDeletion, recover_spares_named}
use openfortivpn.Base.Dict.{lookup}

abbrev intent_a : Intent
intent_a = record {
  profile_id = lit "p";
  old_ref = some (lit "p");
  new_ref = none;
  delete_profile = false;
}

abbrev file_a : Str
file_a = lit ".credential-intent.0.json"

abbrev one_intent : IntentStore ℕ
one_intent = record {
  verify = λ w. (ok tt, w);
  read_dir = λ w. (ok (record { name = file_a; is_file = some true } ∷ []), w);
  nonce = λ w. (ok [], w);
  write_new = λ name intent w. (ok tt, w);
  read = λ name w. (ok intent_a, w);
  remove_file = λ name w. (ok tt, w);
  sync = λ w. (ok tt, w);
}

abbrev unreadable : IntentStore ℕ
unreadable = record one_intent { read = λ name w. (err recovery_required, w) }

-- The deletion of "p" is counted.
abbrev count_deletion : Str → ℕ → Result (Unit {0}) × ℕ
count_deletion k w = (ok tt, if k == lit "p" then w + 1 else w)

abbrev backup_set : StrSet
backup_set = (lit "p", tt) ∷ []

abbrev IsZero : ℕ → Type 0
IsZero w = w ≡ 0

reading_keeps : KeptByReading IsZero one_intent
reading_keeps = record {
  verify = record { at = λ w p. p };
  read_dir = record { at = λ w p. p };
  read = λ name. record { at = λ w p. p };
}

failing_keeps : KeptByReading IsZero unreadable
failing_keeps = record {
  verify = record { at = λ w p. p };
  read_dir = record { at = λ w p. p };
  read = λ name. record { at = λ w p. p };
}

deleting_keeps : KeptByDeletion IsZero [] backup_set count_deletion
unfolding lookup
deleting_keeps k a b = record {
  at = λ w p. ground (arith, p, b, str_beq_iff k (lit "p"), str_beq_iff (lit "p") k);
}

recover_spares_named_example : IsZero (recover one_intent count_deletion [] backup_set 0).1
recover_spares_named_example =
    recover_spares_named one_intent reading_keeps (λ name. record { at = λ w p. p })
      (record { at = λ w p. p }) count_deletion [] backup_set deleting_keeps 0 refl

file_a-IsUnreadable : IsUnreadable IsZero unreadable file_a
unfolding starts_with lit str_beq
file_a-IsUnreadable = record {
  named = refl;
  listed = λ w items p e. ground (arith, e);
  invalid = λ w intent p e. absurd (ground (arith, e));
}

recover_reads_all_example :
    (is_ok (recover unreadable count_deletion [] backup_set 0).0 ≡ false)
    × IsZero (recover unreadable count_deletion [] backup_set 0).1
recover_reads_all_example =
    recover_reads_all unreadable failing_keeps file_a file_a-IsUnreadable count_deletion []
      backup_set 0 refl
