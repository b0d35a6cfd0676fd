-- ===== src/Network/Store/Opened.antt =====
-- What an opened store starts from: the journal file as it loads, or nothing.
use mathlib.Core.Path.{subst}
use openfortivpn.Base.{◌≡◌, refl, Bool, true, false, arith}
use openfortivpn.Base.Error.{Result, ok, err}
use openfortivpn.Base.Action.{Action, Ensures, Ensures-bind, done, answer, holding, drop_on_err}
use openfortivpn.Network.Model.{Snapshot, default_snapshot}
use openfortivpn.Network.Leases.{from_snapshot}
use openfortivpn.Network.Store.{StoreDirectory, as_recovery, or_recovery, stored, open_locked, load}

-- What the calls on the directory keep.
pub record KeptByOpening {W : Type 0} (Q : W → Type 0) (dir : StoreDirectory W) : Type 0 where
  pub verifying : (w : W) → Q w → Q (dir.verify w).1
  pub locking : (nonblocking : Bool) (w : W) → Q w → Q (dir.lock nonblocking w).1
  pub unlocking : (w : W) → Q w → Q (dir.unlock w)
  pub looking : (w : W) → Q w → Q (dir.exists w).1
  pub reading : (w : W) → Q w → Q (dir.read_file w).1

module _ {W : Type 0} {Q : W → Type 0} {dir : StoreDirectory W} (kept : KeptByOpening Q dir)
    (V : Snapshot → Type 0) (fresh : V (from_snapshot default_snapshot))
    (loaded : (w : W) (s t : Snapshot)
      → Q w
      → (dir.read_file w).0 ≡ ok s
      → load s ≡ ok t
      → V (from_snapshot t)) where
  -- The world is kept, and the answer, if any, is as stated.
  abbrev Answers : {A : Type 0} → (A → Type 0) → Result A → W → Type 0
  Answers {A} U r w = Q w × ((a : A) → r ≡ ok a → U a)

  or_recovery-Answers :
      {A : Type 0} (U : A → Type 0) (m : Action W A)
      → Ensures Q (Answers U) m
      → Ensures Q (Answers U) (or_recovery m)
  unfolding or_recovery
  or_recovery-Answers {A} U m k = record {
    at = λ w q. ((k.at w q).0, λ a e. (k.at w q).1 a (as_recovery_ok (m w).0 a e));
  }
    where
      as_recovery_ok : (r : Result A) (a : A) → as_recovery r ≡ ok a → r ≡ ok a
      as_recovery_ok (ok b) a h = h
      as_recovery_ok (err e) a h = cc

  plain-Answers :
      {A : Type 0} (m : Action W A)
      → ((w : W) → Q w → Q (m w).1)
      → Ensures Q (λ r. Q) (or_recovery m)
  unfolding or_recovery
  plain-Answers m k = record { at = λ w q. k w q }

  -- What a snapshot that is read leads to.
  abbrev Leads : Snapshot → Type 0
  Leads s = (t : Snapshot) → load s ≡ ok t → V (from_snapshot t)

  stored-Answers :
      (found : Bool) → Ensures Q (Answers (λ s. V (from_snapshot s))) (stored dir found)
  unfolding stored done answer
  stored-Answers false = record {
    at = λ w q. (
      q,
      λ a e.
          let same : default_snapshot ≡ a = ground (arith, e) in
          subst (λ s. V (from_snapshot s)) same fresh,
    );
  }
  stored-Answers true =
      Ensures-bind (Answers Leads)
        (or_recovery-Answers Leads dir.read_file
          (record { at = λ w q. (kept.reading w q, λ s e t l. loaded w s t q e l) }))
        (λ s. record { at = λ w q. (q.0, λ t l. q.1 s refl t l) }) (λ e w q. (q.0, λ t l. cc))

  holding-Answers :
      {A : Type 0} (U : A → Type 0) (m : Action W A)
      → Ensures Q (Answers U) m
      → Ensures Q (Answers U) (holding dir.unlock m)
  unfolding holding
  holding-Answers {A} U m k = record { at = λ w q. by_result (m w).0 (m w).1 (k.at w q) }
    where
      by_result :
          (r : Result A) (w : W)
          → Answers U r w
          → Answers U (drop_on_err dir.unlock r w).0 (drop_on_err dir.unlock r w).1
      by_result (ok a) w q = q
      by_result (err e) w q = (kept.unlocking w q.0, λ a h. cc)

  -- A store that opens starts from the snapshot of the file, or from none.
  pub open_locked-Answers :
      (nonblocking : Bool) → Ensures Q (Answers V) (open_locked dir nonblocking)
  unfolding open_locked done
  open_locked-Answers nonblocking =
      Ensures-bind (λ r. Q)
        (Ensures-bind (λ r. Q) (plain-Answers dir.verify kept.verifying)
          (λ u. plain-Answers (dir.lock nonblocking) (kept.locking nonblocking)) (λ e w q. q))
        (λ u. holding-Answers V _ (
          Ensures-bind (λ r. Q) (plain-Answers dir.exists kept.looking)
            (λ found.
              Ensures-bind (Answers (λ s. V (from_snapshot s))) (stored-Answers found)
                (λ s. record {
                  at = λ w q. (
                    q.0,
                    λ t e.
                        let same : from_snapshot s ≡ t = ground (arith, e) in
                        subst V same (q.1 s refl),
                  );
                })
                (λ e w q. (q.0, λ t h. cc)))
            (λ e w q. (q, λ t h. cc))))
        (λ e w q. (q, λ t h. cc))
