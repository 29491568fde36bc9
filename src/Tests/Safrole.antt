-- ===== src/Tests/Safrole.antt =====
-- Tickets, seals, epochs and assignments on concrete values, with the small constants.
use tsjam.Core.IdentitySet.{from_values, add}
use tsjam.Core.Disputes.Verdicts.{ascending}
use tsjam.Prelude.{
  ℕ, ◌<◌, ◌≡◌, refl, true, false, some, List, [], ◌∷◌, ◌++◌, replicate, length, SameElements, arith,
}
use tsjam.Prelude.Result.{ok}
use tsjam.Prelude.Int.{pos, negsuc}
use tsjam.Core.Bytes.{Bytes, bytes_lt, bytes_eq}
use tsjam.Core.Constants.{tiny}
use tsjam.Core.Slot.{is_newer_era, is_same_era, is_next_era}
use tsjam.Core.Safrole.Tickets.{
  Ticket, TicketProof, new_tickets, to_posterior, check_proofs, check_proof, accumulated, sort,
}
use tsjam.Core.Safrole.Accumulator.{IsGammaA, IsBest, pool, to_posterior-IsBest}
use tsjam.Core.Safrole.Sealing.{GammaS, keys, tickets, enough_tickets, next_series}
use tsjam.Core.Safrole.Series.{
  AllKeysOf, IsSeries, next_series-tickets, next_series-keys, next_series-IsSeries,
}
use tsjam.Core.Safrole.Epoch.{
  Chain, Block, SameEpoch, WithoutOffenders, apply_block, apply_blocks, apply_blocks-SameEpoch,
  kappa-WithoutOffenders,
}
use tsjam.Core.Shuffle.{fisher_yates_h}
use tsjam.Core.Shuffle.Permutes.{fisher_yates_h-SameElements}
use tsjam.Core.Guarantors.{GuarantorsAssignment, m_fn, rotate}
use tsjam.Core.Guarantors.Assigned.{validators_of, m_fn-three}
use tsjam.Tests.Buffer.{le_buffer}
use tsjam.Tests.Disputes.{hash_of, six_validators, accept}

-- A hash that keeps the first bytes, and the output of a proof that is its bytes.
abbrev pub first_bytes : Bytes → Bytes
first_bytes b = b ++ replicate 32 5

abbrev pub output : Bytes → Bytes
output proof = proof

abbrev ticket : ℕ → Ticket
ticket n = record { id = hash_of n; attempt = 0 }

abbrev two_proofs : List TicketProof
two_proofs =
    record { attempt = 0; proof = hash_of 2 } ∷ record { attempt = 1; proof = hash_of 4 } ∷ []

abbrev new_two : List Ticket
new_two = ticket 2 ∷ record { id = hash_of 4; attempt = 1 } ∷ []

abbrev gamma_a : List Ticket
gamma_a = ticket 1 ∷ ticket 3 ∷ []

two_pass : new_tickets tiny accept output 14 [] [] gamma_a two_proofs ≡ ok new_two
unfolding new_tickets check_proofs check_proof ascending bytes_lt from_values add bytes_eq
two_pass = refl

abbrev four : List Ticket
four = ticket 1 ∷ ticket 2 ∷ ticket 3 ∷ record { id = hash_of 4; attempt = 1 } ∷ []

four_kept : to_posterior tiny 13 14 gamma_a new_two ≡ ok four
unfolding to_posterior from_values accumulated sort is_newer_era bytes_lt add bytes_eq
four_kept = refl

two_sorted : IsGammaA tiny gamma_a
unfolding bytes_lt
two_sorted = ((((refl, tt)), (tt, tt)), omega arith)

to_posterior-IsBest_example : IsBest tiny (pool tiny 13 14 gamma_a new_two) four
to_posterior-IsBest_example =
    to_posterior-IsBest tiny accept output 13 14 [] [] gamma_a new_two four two_proofs two_sorted
      two_pass four_kept

-- As many tickets as the epoch has slots, at its last slot.
abbrev twelve : List Ticket
twelve =
    ticket 0
    ∷ ticket 1
    ∷ ticket 2
    ∷ ticket 3
    ∷ ticket 4
    ∷ ticket 5
    ∷ ticket 6
    ∷ ticket 7
    ∷ ticket 8
    ∷ ticket 9
    ∷ ticket 10
    ∷ ticket 11
    ∷ []

twelve_enough : enough_tickets tiny le_buffer first_bytes 11 12 twelve ≡ true
unfolding is_next_era
twelve_enough = refl

next_series-tickets_example :
    (ts : List Ticket) × (next_series tiny le_buffer first_bytes 11 12 twelve
        (keys [])
        six_validators
        []
      ≡ some (tickets ts))
    × SameElements ts twelve
next_series-tickets_example =
    next_series-tickets tiny le_buffer first_bytes 11 12 twelve (keys []) six_validators [] refl
      twelve_enough

few_tickets : enough_tickets tiny le_buffer first_bytes 11 12 gamma_a ≡ false
unfolding is_next_era
few_tickets = refl

next_epoch : is_same_era tiny 12 11 ≡ false
unfolding is_same_era
next_epoch = refl

next_series-keys_example :
    (ks : List Bytes) × (next_series tiny le_buffer first_bytes 11 12 gamma_a
        (keys [])
        six_validators
        []
      ≡ some (keys ks))
    × (length ks ≡ 12)
    × AllKeysOf six_validators.elements ks
next_series-keys_example =
    next_series-keys tiny le_buffer first_bytes 11 12 gamma_a (keys []) six_validators []
      (omega arith) few_tickets next_epoch

abbrev pub twelve_keys : List Bytes
twelve_keys = replicate 12 (hash_of 1)

next_series-IsSeries_example :
    (g : GammaS) × (next_series tiny le_buffer first_bytes 10 11 gamma_a
        (keys twelve_keys)
        six_validators
        []
      ≡ some g)
    × IsSeries tiny g
next_series-IsSeries_example =
    next_series-IsSeries tiny le_buffer first_bytes 10 11 gamma_a (keys twelve_keys) six_validators
      [] refl (omega arith) refl

abbrev genesis : Chain tiny
genesis = record {
  slot = 3;
  keys = record {
    iota = six_validators;
    gamma_p = six_validators;
    kappa = six_validators;
    lambda = six_validators;
  };
  eta = record { eta_0 = hash_of 0; eta_1 = hash_of 1; eta_2 = hash_of 2; eta_3 = hash_of 3 };
}

abbrev block_at : ℕ → Block tiny
block_at p_tau = record {
  p_tau = p_tau;
  vrf_output_hash = hash_of 9;
  p_offenders = hash_of 2 ∷ [];
  p_iota = six_validators;
}

apply_blocks-SameEpoch_example :
    SameEpoch tiny first_bytes genesis
      (apply_blocks tiny first_bytes genesis (block_at 4 ∷ block_at 11 ∷ []))
apply_blocks-SameEpoch_example =
    apply_blocks-SameEpoch tiny first_bytes genesis (block_at 4 ∷ block_at 11 ∷ [])
      (refl, (refl, tt))

abbrev before_next : Chain tiny
before_next =
    apply_blocks tiny first_bytes (apply_block tiny first_bytes genesis (block_at 12))
      (block_at 13 ∷ [])

opens_next : is_newer_era tiny 25 before_next.slot ≡ true
unfolding is_newer_era apply_blocks apply_block
opens_next = refl

opens_first : is_newer_era tiny 12 3 ≡ true
unfolding is_newer_era
opens_first = refl

kappa-WithoutOffenders_example :
    WithoutOffenders
      (hash_of 2 ∷ [])
      (apply_block tiny first_bytes before_next (block_at 25)).keys.kappa.elements
kappa-WithoutOffenders_example =
    kappa-WithoutOffenders tiny first_bytes genesis (block_at 12) (block_at 13 ∷ []) (block_at 25)
      opens_first (refl, tt) opens_next

fisher_yates_h-SameElements_example :
    (ys : List ℕ) × (fisher_yates_h le_buffer first_bytes (4 ∷ 5 ∷ 6 ∷ []) (hash_of 7) ≡ some ys)
    × SameElements ys (4 ∷ 5 ∷ 6 ∷ [])
fisher_yates_h-SameElements_example =
    fisher_yates_h-SameElements le_buffer first_bytes (4 ∷ 5 ∷ 6 ∷ []) (hash_of 7)

m_fn-three_example :
    (g : GuarantorsAssignment) × (m_fn tiny le_buffer first_bytes
        (hash_of 7)
        (pos 5)
        six_validators
        []
      ≡ some g)
    × ((core : ℕ) → core < 2 → validators_of core g.validators_assigned_core ≡ 3)
m_fn-three_example = m_fn-three tiny le_buffer first_bytes refl (hash_of 7) 5 six_validators []

-- In the first slots of a chain the previous rotation has a core that is no core: a validator of core
-- 0 is assigned to -1.
negative_core : rotate tiny (0 ∷ []) (negsuc 0) ≡ negsuc 0 ∷ []
negative_core = refl
