-- ===== src/Network/Authority.antt =====
-- The exclusive authority over the machine's network: crates/manager-core/src/network_authority.rs.
-- The calls on the directory act on a state `W`; the store of the leases is met only by the check
-- that it is idle.
pub mod Exclusive
pub mod Reservation
pub mod Holders
pub mod Removal
use openfortivpn.Base.{
  ℕ, ◌-◌, ◌^◌, Bool, true, false, not, ◌&&◌, ◌||◌, List, [], ◌∷◌, Option, none, some, ltb, leb,
  ◌==◌, nat_equality, is_empty, all, is_some, of_discrete, Equality, if◌then◌else◌, option_equality,
}
use openfortivpn.Base.Text.{Str, str_equality, lit, len, bytes, is_alphanumeric}
use openfortivpn.Base.Error.{Result, ok, err, ErrorCode, recovery_required, reject_if}
use openfortivpn.Base.Action.{
  Action, ◌>>=◌, ◌>>◌, done, refuse, answer, refuse_if, holding, guarded,
}

pub record Owner : Type 0 where
  pub attempt_id : Str
  pub manager : Str
  pub uid : ℕ  -- u32
  pub process_group : ℕ  -- u32
  pub pre_spawn_gated : Bool

pub record Record : Type 0 where
  pub schema_version : ℕ
  pub owner : Owner

-- The derived equality of `Owner`.
unfoldable pub owner_same : Owner → Owner → Bool
owner_same a b =
    a.attempt_id == b.attempt_id
    && a.manager == b.manager
    && a.uid == b.uid
    && a.process_group == b.process_group
    && not (if a.pre_spawn_gated then not b.pre_spawn_gated else b.pre_spawn_gated)

-- The record is the lease's own.
unfoldable pub is_recorded : Owner → Option Owner → Bool
is_recorded owner none = false
is_recorded owner (some o) = owner_same o owner

-- The calls on the directory: its durable listing, the machine lock, the file `active.json`, and
-- `idle_guard` of the lease store. `read` answers nothing where the file does not exist.
pub record Directory (W : Type 0) : Type 0 where
  pub barrier : Action W (Unit {0})
  pub try_lock : Action W (Unit {0})
  pub unlock : W → W
  pub read : Action W (Option Record)
  pub idle : Action W (Unit {0})
  pub write : Record → Action W (Unit {0})
  pub remove_file : Action W (Unit {0})

abbrev is_identity_byte : ℕ → Bool
is_identity_byte c = is_alphanumeric c || c == b'-' || c == b'_'

-- `validate`
unfoldable pub bad_owner : Owner → Bool
bad_owner o =
    not (o.manager == lit "headless" || o.manager == lit "helper" || o.manager == lit "desktop")
    || is_empty o.attempt_id
    || ltb 128 (len o.attempt_id)
    || not (all is_identity_byte (bytes o.attempt_id))
    || o.process_group == 1
    || ltb (2 ^ 31 - 1) o.process_group

unfoldable pub bad_record : Record → Bool
unfolding bad_owner
bad_record r =
    not (r.schema_version == 1 || r.schema_version == 2)
    || (r.schema_version == 1 && r.owner.pre_spawn_gated)
    || bad_owner r.owner

-- The record that is written for an owner.
abbrev pub current_record : Owner → Record
current_record o = record { schema_version = 2; owner = o }

module _ {W : Type 0} where
  -- What `inspect` makes of the file.
  unfoldable pub inspected : Option Record → Action W (Option Owner)
  unfolding bad_record
  inspected none = done none
  inspected (some r) = if bad_record r then refuse recovery_required else done (some r.owner)

module _ {W : Type 0} (dir : Directory W) where
  -- `guard`
  unfoldable pub guard : Action W (Unit {0})
  guard = dir.barrier >> dir.try_lock

  -- `inspect`
  unfoldable pub inspect : Action W (Option Owner)
  unfolding inspected
  inspect = dir.barrier >> dir.read >>= inspected

  -- `remove`
  unfoldable pub remove_record : Action W (Unit {0})
  remove_record = dir.remove_file >> dir.barrier

  -- Nothing is reserved, and no lease is left.
  unfoldable pub check_free : Action W (Unit {0})
  unfolding inspect
  check_free = inspect >>= λ o. refuse_if (is_some o) recovery_required >> dir.idle

  -- `maintenance_guard`
  unfoldable pub maintenance_guard : Action W (Unit {0})
  unfolding guard check_free holding
  maintenance_guard = guard >> holding dir.unlock check_free

  -- `ExclusiveLease::acquire`; the lease is its owner.
  unfoldable pub acquire : Owner → Action W Owner
  unfolding guard check_free holding
  acquire owner =
      refuse_if (bad_owner owner) recovery_required
      >> guard
      >> holding dir.unlock (check_free >> dir.write (current_record owner) >> done owner)

  -- `ExclusiveLease::bind_process_group`: the lease has the group even where the file does not.
  unfoldable pub bind_process_group : Owner → ℕ → W → Result (Unit {0}) × Owner × W
  bind_process_group owner group w =
      if leb group 1 || ltb (2 ^ 31 - 1) group
      then (err recovery_required, owner, w)
      else let bound : Owner = record owner { process_group = group } in
        let (r, w') = dir.write (current_record bound) w in (r, bound, w')

  -- The body of `finish`.
  unfoldable pub settle : Owner → Bool → Bool → Action W (Unit {0})
  unfolding inspect remove_record
  settle owner reaped confirmed =
      refuse_if (not reaped || not confirmed) recovery_required >> inspect >>= λ current.
      refuse_if (not (is_recorded owner current)) recovery_required >> dir.idle >> remove_record

  -- `ExclusiveLease::finish`: the lease is gone on every branch.
  unfoldable pub finish : Owner → Bool → Bool → Action W (Unit {0})
  unfolding settle guarded
  finish owner reaped confirmed = guarded dir.unlock (settle owner reaped confirmed)

  -- The body of `acknowledge` for the owner that is reserved.
  unfoldable pub acknowledge_owner : Str → ℕ → Action W Bool → Option Owner → Action W (Unit {0})
  unfolding remove_record
  acknowledge_owner attempt uid quiescent none = refuse recovery_required
  acknowledge_owner attempt uid quiescent (some o) =
      refuse_if (not (o.attempt_id == attempt) || not (o.uid == uid)) recovery_required
      >> dir.idle
      >> quiescent
      >>= λ proof. refuse_if (not proof) recovery_required >> remove_record

  -- `acknowledge`, where `quiescent` is the caller's proof.
  unfoldable pub acknowledge : Str → ℕ → Action W Bool → Action W (Unit {0})
  unfolding guard inspect acknowledge_owner guarded
  acknowledge attempt uid quiescent =
      guard >> guarded dir.unlock (inspect >>= acknowledge_owner attempt uid quiescent)
