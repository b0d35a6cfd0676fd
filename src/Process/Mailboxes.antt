-- ===== src/Process/Mailboxes.antt =====
-- The mailboxes of the profiles: `dispatch` of crates/manager-core/src/actor.rs up to the sending. A
-- sender is a value of `S`; whether it is closed, and the one that a new worker gets, are arguments.
use openfortivpn.Base.{
  ◌≡◌, ◌≤◌, ℕ, Bool, not, ◌||◌, none, some, length, leb, ltb, ◌==◌, nat_equality, any, is_empty,
  if◌then◌else◌, arith, Option-cases, Bool-cases, inl, inr, eq_refl,
}
use openfortivpn.Base.Text.{Str, str_equality, len}
use openfortivpn.Base.Dict.{
  Dict, lookup, insert, retain, length-retain-le, length-insert, lookup-insert,
}
use openfortivpn.Base.Error.{Result, ok, err, invalid_input, profile_busy}

abbrev is_break : ℕ → Bool
is_break c = c == 0 || c == 10 || c == 13

unfoldable pub bad_mailbox_id : Str → Bool
bad_mailbox_id profile = is_empty profile || ltb 128 (len profile) || any is_break profile

module _ {S : Type 0} (is_closed : S → Bool) where
  -- The part of `dispatch` under the lock of the mailboxes.
  unfoldable pub claim_mailbox : ℕ → Str → (fresh : S) → Dict S → Result S × Dict S
  claim_mailbox capacity profile fresh mailboxes =
      let open_boxes = retain (λ s. not (is_closed s)) mailboxes in
      elim (lookup profile open_boxes) [
        | some sender ↦ (ok sender, open_boxes)
        | none ↦
            if leb capacity (length open_boxes)
            then (err profile_busy, open_boxes)
            else (ok fresh, insert profile fresh open_boxes)
      ]

  -- `dispatch` up to the sending of the work.
  unfoldable pub dispatch_mailbox : ℕ → Str → (fresh : S) → Dict S → Result S × Dict S
  unfolding claim_mailbox bad_mailbox_id
  dispatch_mailbox capacity profile fresh mailboxes =
      if bad_mailbox_id profile
      then (err invalid_input, mailboxes)
      else claim_mailbox capacity profile fresh mailboxes

  -- The sender of an answer is in the mailboxes, under the profile.
  abbrev pub Registered : Str → Result S × Dict S → Type 0
  Registered profile (ok sender, mailboxes) = lookup profile mailboxes ≡ some sender
  Registered profile (err e, mailboxes) = Unit

  claim-Registered :
      (capacity : ℕ) (profile : Str) (fresh : S) (mailboxes : Dict S)
      → Registered profile (claim_mailbox capacity profile fresh mailboxes)
        × (length mailboxes ≤ capacity
            → length (claim_mailbox capacity profile fresh mailboxes).1 ≤ capacity)
  unfolding claim_mailbox
  claim-Registered capacity profile fresh mailboxes =
      let open_boxes = retain (λ s. not (is_closed s)) mailboxes in
      let fewer = length-retain-le (λ s. not (is_closed s)) mailboxes in
      elim (Option-cases (lookup profile open_boxes)) [
        | inr (sender, e) ↦ rw (claim_mailbox, e) (e, λ h. omega (arith, h, fewer))
        | inl e ↦ elim (Bool-cases (leb capacity (length open_boxes))) [
          | inl full ↦ rw (claim_mailbox, e, full) (tt, λ h. omega (arith, h, fewer))
          | inr room ↦
              rw (claim_mailbox, e, room)
                (
                  ground (arith, lookup-insert profile profile fresh open_boxes, eq_refl profile),
                  λ h. ground (arith, room, length-insert profile fresh open_boxes),
                )
        ]
      ]

  -- On every branch of a dispatch: there are never more mailboxes than the capacity, and the sender
  -- that the work goes to is the one that is registered for the profile.
  pub dispatch_bounded :
      (capacity : ℕ) (profile : Str) (fresh : S) (mailboxes : Dict S)
      → length mailboxes ≤ capacity
      → Registered profile (dispatch_mailbox capacity profile fresh mailboxes)
        × (length (dispatch_mailbox capacity profile fresh mailboxes).1 ≤ capacity)
  unfolding dispatch_mailbox
  dispatch_bounded capacity profile fresh mailboxes h = elim (Bool-cases (bad_mailbox_id profile)) [
    | inl bad ↦ rw (dispatch_mailbox, bad) (tt, h)
    | inr good ↦
        let (registered, few) = claim-Registered capacity profile fresh mailboxes in
        rw (dispatch_mailbox, good) (registered, few h)
  ]
