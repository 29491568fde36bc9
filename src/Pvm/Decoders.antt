-- ===== src/Pvm/Decoders.antt =====
-- The argument decoders of packages/jam-pvm-js/src/instructions/decoders.ts, and
-- `readVarIntFromBuffer` of packages/jam-pvm-js/src/utils/varint.ts. `none` is a failed assertion.
use tsjam.Prelude.{ℕ, ◌+◌, ◌-◌, ◌/◌, ◌%◌}
use tsjam.Prelude.{Option, none, some, ◌>>=◌, ◌>>◌, assert, List, [], ◌∷◌, length, take, drop}
use tsjam.Prelude.{ltb, leb, ◌==◌, if◌then◌else◌}
use tsjam.Prelude.Int.{ℤ}
use tsjam.Codec.Buffer.{BigintBuffer, subarray}
use tsjam.Pvm.Words.{z, x_fn, to_number}
use tsjam.Pvm.Memory.{min_ℕ}

pub record OneRegOneImmArgs : Type 0 where
  pub r_a : ℕ
  pub v_x : ℕ

pub record TwoImmArgs : Type 0 where
  pub v_x : ℕ
  pub v_y : ℕ

pub record OneRegTwoImmArgs : Type 0 where
  pub r_a : ℕ
  pub v_x : ℕ
  pub v_y : ℕ

pub record OneRegOneImmOneOffsetArgs : Type 0 where
  pub r_a : ℕ
  pub v_x : ℕ
  pub ip_offset_raw : ℤ

pub record TwoRegArgs : Type 0 where
  pub r_a : ℕ
  pub r_d : ℕ

pub record TwoRegOneImmArgs : Type 0 where
  pub r_a : ℕ
  pub r_b : ℕ
  pub v_x : ℕ

pub record TwoRegOneOffsetArgs : Type 0 where
  pub r_a : ℕ
  pub r_b : ℕ
  pub ip_offset_raw : ℤ

pub record TwoRegTwoImmArgs : Type 0 where
  pub r_a : ℕ
  pub r_b : ℕ
  pub v_x : ℕ
  pub v_y : ℕ

pub record ThreeRegArgs : Type 0 where
  pub r_a : ℕ
  pub r_b : ℕ
  pub r_d : ℕ

-- The register numbers in the low and in the high half of the byte that is there, or NaN, which
-- names no register; 13 stands for it.
abbrev pub no_register : ℕ
no_register = 13

unfoldable pub low_reg : List ℕ → ℕ
low_reg [] = no_register
low_reg (b ∷ bs) = min_ℕ 12 (b % 16)

unfoldable pub high_reg : List ℕ → ℕ
high_reg [] = no_register
high_reg (b ∷ bs) = min_ℕ 12 (b / 16)

unfoldable pub no_arg_ix_decoder : List ℕ → Option (Unit {0})
no_arg_ix_decoder bytes = some tt

unfoldable pub two_reg_ix_decoder : List ℕ → Option TwoRegArgs
unfolding low_reg high_reg
two_reg_ix_decoder bytes = do
  assert (ltb 0 (length bytes))
  some (record { r_d = low_reg bytes; r_a = high_reg bytes })

unfoldable pub three_reg_ix_decoder : List ℕ → Option ThreeRegArgs
unfolding low_reg high_reg
three_reg_ix_decoder [] = none
three_reg_ix_decoder (b₀ ∷ []) = none
three_reg_ix_decoder (b₀ ∷ b₁ ∷ bs) =
    some (record { r_a = low_reg (b₀ ∷ b₁ ∷ bs); r_b = high_reg (b₀ ∷ b₁ ∷ bs); r_d = min_ℕ 12 b₁ })

module _ (buffer : BigintBuffer) where
  open buffer use {to_bigint_le}

  -- `E_sub(n).decode(bytes).value`.
  unfoldable pub e_sub_value : ℕ → List ℕ → ℕ
  e_sub_value n bytes = to_bigint_le (take n bytes)

  unfoldable pub read_var_int_from_buffer : List ℕ → ℕ → Option ℕ
  unfolding e_sub_value
  read_var_int_from_buffer buf len = do
    assert (leb len 8)
    let result = e_sub_value len buf
    if len == 0 then some result else some (x_fn len result)

  unfoldable pub one_imm_ix_decoder : List ℕ → Option ℕ
  one_imm_ix_decoder bytes = do
    let lx = min_ℕ 4 (length bytes)
    imm ← read_var_int_from_buffer bytes lx
    let v_x = to_number imm
    assert (leb v_x 255)
    some v_x

  unfoldable pub one_reg_one_ext_imm_args_ix_decoder : List ℕ → Option OneRegOneImmArgs
  unfolding low_reg e_sub_value
  one_reg_one_ext_imm_args_ix_decoder bytes = do
    assert (ltb 0 (length bytes))
    some (record { r_a = low_reg bytes; v_x = e_sub_value 8 (subarray bytes 1 (1 + 8)) })

  -- With no byte the first length is NaN, and the assertion fails.
  unfoldable pub two_imm_ix_decoder : List ℕ → Option TwoImmArgs
  two_imm_ix_decoder [] = none
  two_imm_ix_decoder (b ∷ bs) = do
    let bytes = b ∷ bs
    let l_x = min_ℕ 4 (b % 8)
    assert (leb (1 + l_x + (if l_x == 0 then 1 else 0)) (length bytes))
    v_x ← read_var_int_from_buffer (subarray bytes 1 (1 + l_x)) l_x
    let second_arg_length = min_ℕ 4 (length bytes - (1 + l_x))
    v_y ←
        read_var_int_from_buffer (subarray bytes (1 + l_x) (1 + l_x + second_arg_length))
          second_arg_length
    some (record { v_x = to_number v_x; v_y = v_y })

  unfoldable pub one_offset_ix_decoder : List ℕ → Option ℤ
  unfolding e_sub_value
  one_offset_ix_decoder bytes =
      let lx = min_ℕ 4 (length bytes) in some (z lx (e_sub_value lx (subarray bytes 0 lx)))

  unfoldable pub one_reg_one_imm_ix_decoder : List ℕ → Option OneRegOneImmArgs
  unfolding low_reg
  one_reg_one_imm_ix_decoder bytes = do
    assert (ltb 0 (length bytes))
    let lx = min_ℕ 4 (length bytes - 1)
    v_x ← read_var_int_from_buffer (drop 1 bytes) lx
    some (record { r_a = low_reg bytes; v_x = v_x })

  unfoldable pub one_reg_two_imm_ix_decoder : List ℕ → Option OneRegTwoImmArgs
  unfolding low_reg
  one_reg_two_imm_ix_decoder [] = none
  one_reg_two_imm_ix_decoder (b ∷ bs) = do
    let bytes = b ∷ bs
    let lx = min_ℕ 4 (b / 16 % 8)
    assert (leb (lx + 1) (length bytes))
    let ly = min_ℕ 4 (length bytes - 1 - lx)
    v_x ← read_var_int_from_buffer (subarray bytes 1 (1 + lx)) lx
    v_y ← read_var_int_from_buffer (drop (1 + lx) bytes) ly
    some (record { r_a = low_reg bytes; v_x = v_x; v_y = v_y })

  unfoldable pub one_reg_one_imm_one_offset_ix_decoder : List ℕ → Option OneRegOneImmOneOffsetArgs
  unfolding low_reg e_sub_value
  one_reg_one_imm_one_offset_ix_decoder [] = none
  one_reg_one_imm_one_offset_ix_decoder (b ∷ bs) = do
    let bytes = b ∷ bs
    let lx = min_ℕ 4 (b / 16 % 8)
    assert (leb (lx + 1) (length bytes))
    let ly = min_ℕ 4 (length bytes - 1 - lx)
    v_x ← read_var_int_from_buffer (subarray bytes 1 (1 + lx)) lx
    let ip_offset_raw = z ly (e_sub_value ly (subarray bytes (1 + lx) (1 + lx + ly)))
    some (record { r_a = low_reg bytes; v_x = v_x; ip_offset_raw = ip_offset_raw })

  unfoldable pub two_reg_one_imm_ix_decoder : List ℕ → Option TwoRegOneImmArgs
  unfolding low_reg high_reg
  two_reg_one_imm_ix_decoder bytes = do
    let l_x = min_ℕ 4 (length bytes - 1)
    v_x ← read_var_int_from_buffer (subarray bytes 1 (1 + l_x)) l_x
    some (record { r_a = low_reg bytes; r_b = high_reg bytes; v_x = v_x })

  unfoldable pub two_reg_one_offset_ix_decoder : List ℕ → Option TwoRegOneOffsetArgs
  unfolding low_reg high_reg e_sub_value
  two_reg_one_offset_ix_decoder bytes =
      let l_x = min_ℕ 4 (length bytes - 1) in
      some (record {
        r_a = low_reg bytes;
        r_b = high_reg bytes;
        ip_offset_raw = z l_x (e_sub_value l_x (subarray bytes 1 (1 + l_x)));
      })

  unfoldable pub two_reg_two_imm_ix_decoder : List ℕ → Option TwoRegTwoImmArgs
  unfolding low_reg high_reg
  two_reg_two_imm_ix_decoder [] = none
  two_reg_two_imm_ix_decoder (b₀ ∷ []) = none
  two_reg_two_imm_ix_decoder (b₀ ∷ b₁ ∷ bs) = do
    let bytes = b₀ ∷ b₁ ∷ bs
    let l_x = min_ℕ 4 (b₁ % 8)
    let l_y = min_ℕ 4 (length bytes - 2 - l_x)
    assert (leb (2 + l_x) (length bytes))
    v_x ← read_var_int_from_buffer (subarray bytes 2 (2 + l_x)) l_x
    v_y ← read_var_int_from_buffer (subarray bytes (2 + l_x) (2 + l_x + l_y)) l_y
    some (record { r_a = low_reg bytes; r_b = high_reg bytes; v_x = v_x; v_y = v_y })
