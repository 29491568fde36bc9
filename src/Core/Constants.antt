-- ===== src/Core/Constants.antt =====
-- The protocol's constants, packages/jam-constants/src/index.ts, and the two variants of them that
-- a node chooses between when it starts. The source keeps them in module variables; here they are a
-- record that the operations take.
use tsjam.Prelude.{ℕ, [], ◌∷◌}
use tsjam.Core.Bytes.{Bytes}

pub record Constants : Type 0 where
  pub number_of_validators : ℕ
  pub minimum_validators : ℕ
  pub cores : ℕ
  pub lottery_max_slot : ℕ
  pub epoch_length : ℕ
  pub max_tickets_per_block : ℕ
  pub max_tickets_per_validator : ℕ
  pub validator_core_rotation : ℕ

-- The variables as they are initialised.
abbrev pub full : Constants
full = record {
  number_of_validators = 1023;
  minimum_validators = 683;
  cores = 341;
  lottery_max_slot = 500;
  epoch_length = 600;
  max_tickets_per_block = 16;
  max_tickets_per_validator = 2;
  validator_core_rotation = 10;
}

abbrev pub tiny : Constants
tiny = record {
  number_of_validators = 6;
  minimum_validators = 5;
  cores = 2;
  lottery_max_slot = 10;
  epoch_length = 12;
  max_tickets_per_block = 3;
  max_tickets_per_validator = 3;
  validator_core_rotation = 4;
}

-- The prefixes of signed messages, in UTF-8.
abbrev pub jam_guarantee : Bytes
jam_guarantee = 106 ∷ 97 ∷ 109 ∷ 95 ∷ 103 ∷ 117 ∷ 97 ∷ 114 ∷ 97 ∷ 110 ∷ 116 ∷ 101 ∷ 101 ∷ []

abbrev pub jam_valid : Bytes
jam_valid = 106 ∷ 97 ∷ 109 ∷ 95 ∷ 118 ∷ 97 ∷ 108 ∷ 105 ∷ 100 ∷ []

abbrev pub jam_invalid : Bytes
jam_invalid = 106 ∷ 97 ∷ 109 ∷ 95 ∷ 105 ∷ 110 ∷ 118 ∷ 97 ∷ 108 ∷ 105 ∷ 100 ∷ []

abbrev pub jam_ticket_seal : Bytes
jam_ticket_seal =
    106 ∷ 97 ∷ 109 ∷ 95 ∷ 116 ∷ 105 ∷ 99 ∷ 107 ∷ 101 ∷ 116 ∷ 95 ∷ 115 ∷ 101 ∷ 97 ∷ 108 ∷ []

abbrev pub jam_available : Bytes
jam_available = 106 ∷ 97 ∷ 109 ∷ 95 ∷ 97 ∷ 118 ∷ 97 ∷ 105 ∷ 108 ∷ 97 ∷ 98 ∷ 108 ∷ 101 ∷ []
