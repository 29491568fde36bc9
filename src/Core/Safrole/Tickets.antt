-- ===== src/Core/Safrole/Tickets.antt =====
-- packages/jam-core/src/impls/ticket-impl.ts, extrinsics/tickets.ts and gamma-a-impl.ts: the tickets
-- that a block submits, and the accumulator of tickets. The ring VRF is a pair of parameters.
use tsjam.Prelude.{
  ℕ, Bool, not, ◌++◌, List, [], ◌∷◌, map, length, if◌then◌else◌, leb, ltb, ◌==◌, every, any, take,
  ◌%◌,
}
use tsjam.Prelude.Result.{Result, ok, check, ◌>>◌}
use tsjam.Core.Bytes.{Bytes, bytes_lt}
use tsjam.Core.Constants.{Constants, jam_ticket_seal}
use tsjam.Core.IdentitySet.{has, from_values}
use tsjam.Core.Slot.{slot_phase, is_newer_era}
use tsjam.Core.Disputes.Verdicts.{ascending}

pub record Ticket : Type 0 where
  pub id : Bytes
  pub attempt : ℕ

-- `TicketsExtrinsicElementImpl`
pub record TicketProof : Type 0 where
  pub attempt : ℕ
  pub proof : Bytes

pub data EtError : Type 0 where
  lottery_ended : EtError
  invalid_entry_index : EtError
  invalid_vrf_proof : EtError
  max_tickets_exceeded : EtError
  ticket_in_gamma_a : EtError
  unsorted_vrf_proofs : EtError

abbrev pub ids : List Ticket → List Bytes
ids ts = map (λ t. t.id) ts

-- `Bandersnatch.verifyVrfProof(proof, root, context)` and `Bandersnatch.vrfOutputRingProof(proof)`.
module _ (c : Constants) (verify_vrf_proof : Bytes → Bytes → Bytes → Bool)
    (vrf_output : Bytes → Bytes) where
  -- `TicketsExtrinsicElementImpl.checkValidity`
  unfoldable pub check_proof : Bytes → Bytes → TicketProof → Result EtError (Unit {0})
  check_proof gamma_z_root eta_2 x =
      check (not (leb c.max_tickets_per_validator x.attempt)) invalid_entry_index
      >> check
          (verify_vrf_proof x.proof gamma_z_root
            (jam_ticket_seal ++ (eta_2 ++ (x.attempt % 256 ∷ []))))
          invalid_vrf_proof

  -- The loop that checks the elements one after the other.
  unfoldable pub check_proofs : Bytes → Bytes → List TicketProof → Result EtError (Unit {0})
  check_proofs gamma_z_root eta_2 [] = ok tt
  check_proofs gamma_z_root eta_2 (x ∷ xs) =
      let rest = check_proofs gamma_z_root eta_2 xs in check_proof gamma_z_root eta_2 x >> rest

  abbrev pub ticket_of : TicketProof → Ticket
  ticket_of x = record { id = vrf_output x.proof; attempt = x.attempt }

  -- `newTickets`
  unfoldable pub new_tickets :
      ℕ → Bytes → Bytes → List Ticket → List TicketProof → Result EtError (List Ticket)
  new_tickets p_tau gamma_z_root eta_2 gamma_a elements =
      let n = map ticket_of elements in
      if length elements == 0
      then ok []
      else check (not (leb c.lottery_max_slot (slot_phase c p_tau))) lottery_ended
        >> check (not (ltb c.max_tickets_per_block (length elements))) max_tickets_exceeded
        >> check_proofs gamma_z_root eta_2 elements
        >> check (ascending (ids n)) unsorted_vrf_proofs
        >> check (not (any (λ x. has (from_values (ids gamma_a)) x.id) n)) ticket_in_gamma_a
        >> ok n

-- `sort((a, b) => Buffer.compare(a.id, b.id))`: the sort of JavaScript is stable, so a ticket goes
-- before those that come after it and are not smaller.
abbrev pub insert : Ticket → List Ticket → List Ticket
insert t [] = t ∷ []
insert t (u ∷ us) = if bytes_lt u.id t.id then u ∷ insert t us else t ∷ u ∷ us

unfoldable pub sort : List Ticket → List Ticket
sort [] = []
sort (t ∷ ts) = insert t (sort ts)

-- `GammaAError`
pub data GammaAError : Type 0 where
  ticket_not_in_posterior_gamma_a : GammaAError

module _ (c : Constants) where
  -- The elements of the accumulator before the check.
  unfoldable pub accumulated : ℕ → ℕ → List Ticket → List Ticket → List Ticket
  accumulated slot p_tau gamma_a new_tickets =
      take c.epoch_length
        (sort (new_tickets ++ (if is_newer_era c p_tau slot then [] else gamma_a)))

  -- `GammaAImpl.toPosterior`
  unfoldable pub to_posterior : ℕ → ℕ → List Ticket → List Ticket → Result GammaAError (List Ticket)
  to_posterior slot p_tau gamma_a new_tickets =
      let p_gamma_a = accumulated slot p_tau gamma_a new_tickets in
      check (every (λ x. has (from_values (ids p_gamma_a)) x.id) new_tickets)
        ticket_not_in_posterior_gamma_a
      >> ok p_gamma_a
