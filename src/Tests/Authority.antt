-- ===== src/Tests/Authority.antt =====
-- The authority over a directory that is a lock and a file.
use openfortivpn.Base.{refl, arith, ◌≡◌, some, none, true, false, [], Option, Bool, inr}
use openfortivpn.Base.Error.{ok, err, network_conflict, Result, ErrorCode}
use openfortivpn.Base.Text.{str_equality, lit, str_beq, len}
use openfortivpn.Base.Action.{◌>>=◌, refuse_if}
use openfortivpn.Network.Authority.{Owner, Record, Directory, acquire, finish}
use openfortivpn.Network.Authority.Exclusive.{IsLawful}
use openfortivpn.Network.Authority.Reservation.{Acquired, acquire_reserves}
use openfortivpn.Network.Authority.Removal.{Because, Settled, finish_settles}
use openfortivpn.Network.Authority.Holders.{
  Exclusive, Reach-Exclusive, next, here, acquiring, with_lease,
}

abbrev Disk : Type 0
Disk = Bool × Option Record

abbrev lock_disk : Disk → Result (Unit {0}) × Disk
lock_disk (true, r) = (err network_conflict, (true, r))
lock_disk (false, r) = (ok tt, (true, r))

abbrev disk : Directory Disk
disk = record {
  barrier = λ w. (ok tt, w);
  try_lock = lock_disk;
  unlock = λ w. (false, w.1);
  read = λ w. (ok w.1, w);
  idle = λ w. (ok tt, w);
  write = λ r w. (ok tt, (w.0, some r));
  remove_file = λ w. (ok tt, (w.0, none));
}

abbrev is_locked : Disk → Bool
is_locked w = w.0

abbrev file_of : Disk → Option Record
file_of w = w.1

lock_disk_ok : (w : Disk) → (lock_disk w).0 ≡ ok tt → (w.0 ≡ false) × ((lock_disk w).1.0 ≡ true)
lock_disk_ok (true, r) h = cc
lock_disk_ok (false, r) h = (refl, refl)

lock_disk_keeps : (w : Disk) → (lock_disk w).1.1 ≡ w.1
lock_disk_keeps (true, r) = refl
lock_disk_keeps (false, r) = refl

lock_disk_err : (w : Disk) (e : ErrorCode) → (lock_disk w).0 ≡ err e → (lock_disk w).1.0 ≡ w.0
lock_disk_err (true, r) e h = refl
lock_disk_err (false, r) e h = cc

disk-IsLawful : IsLawful disk is_locked file_of
disk-IsLawful = record {
  barrier_held = λ w. refl;
  barrier_active = λ w. refl;
  lock_ok = lock_disk_ok;
  lock_err = lock_disk_err;
  lock_active = lock_disk_keeps;
  unlock_active = λ w. refl;
  read_held = λ w. refl;
  read_active = λ w. refl;
  read_ok = λ w r h. ground (arith, h);
  idle_held = λ w. refl;
  idle_active = λ w. refl;
  write_held = λ r w. refl;
  write_ok = λ r w h. refl;
  write_err = λ r w. inr refl;
  remove_held = λ w. refl;
}

abbrev engine : Owner
engine = record {
  attempt_id = lit "a";
  manager = lit "helper";
  uid = 0;
  process_group = 0;
  pre_spawn_gated = true;
}

acquire_reserves_example :
    Acquired disk is_locked file_of disk-IsLawful false none engine
      (acquire disk engine (false, none)).0
      (acquire disk engine (false, none)).1
acquire_reserves_example =
    acquire_reserves disk is_locked file_of disk-IsLawful engine (false, none)

finish_settles_example :
    Because disk is_locked file_of disk-IsLawful
      (Settled disk is_locked file_of disk-IsLawful engine true false none)
      none
      (finish disk engine true false (true, none)).0
      (finish disk engine true false (true, none)).1
finish_settles_example =
    finish_settles disk is_locked file_of disk-IsLawful engine true false (true, none)

abbrev other_engine : Owner
other_engine = record engine { attempt_id = lit "b" }

abbrev first_answer : Result Owner × Disk
first_answer = acquire disk engine (false, none)

abbrev second_answer : Result Owner × Disk
second_answer = acquire disk other_engine first_answer.1

-- Two engines ask for the network.
Reach-Exclusive_example :
    Exclusive disk is_locked file_of
      (with_lease second_answer.0 (with_lease first_answer.0 []))
      second_answer.1
Reach-Exclusive_example =
    Reach-Exclusive disk is_locked file_of disk-IsLawful {hs = []} {w = (false, none)} tt (
      next (next here (acquiring engine [] (false, none)))
        (acquiring other_engine (with_lease first_answer.0 []) first_answer.1))

-- The first engine gets it.
first_gets_it : first_answer.0 ≡ ok engine
unfolding acquire ◌>>=◌ refuse_if str_beq lit len
first_gets_it = refl
