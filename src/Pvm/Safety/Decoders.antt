-- ===== src/Pvm/Safety/Decoders.antt =====
-- The immediates that the decoders give are 64-bit values.
use tsjam.Prelude.{ℕ, zero, suc, ◌+◌, ◌-◌, ◌/◌, ◌%◌, ◌^◌, ◌≤◌, ◌<◌, ◌≡◌, arith}
use tsjam.Prelude.{some, assert, List, [], ◌∷◌, length, take, drop, leb, ltb}
use tsjam.Prelude.{>>=-eq-some, some_eq, subst, All-take, All-drop}
use native.Mathlib.Nat.{pow-suc}
use tsjam.Codec.Buffer.{BigintBuffer, IsByte, IsBytes, subarray}
use tsjam.Pvm.Words.{x_fn}
use tsjam.Pvm.Memory.{min_ℕ}
use tsjam.Pvm.Memory.Invariant.{min_ℕ-le}
use tsjam.Pvm.Ops.Bounds.{IsU64}
use tsjam.Pvm.Decoders.{
  OneRegOneImmArgs, OneRegOneImmOneOffsetArgs, TwoRegOneImmArgs, TwoRegTwoImmArgs,
  read_var_int_from_buffer, one_reg_one_ext_imm_args_ix_decoder, one_reg_one_imm_ix_decoder,
  one_reg_one_imm_one_offset_ix_decoder, two_reg_one_imm_ix_decoder, two_reg_two_imm_ix_decoder,
}

subarray-IsBytes : (bytes : List ℕ) (from to : ℕ) → IsBytes bytes → IsBytes (subarray bytes from to)
unfolding subarray
subarray-IsBytes bytes from to h = All-take IsByte (to - from) _ (All-drop IsByte from bytes h)

pub x_fn-IsU64 : (n x : ℕ) → n ≤ 4 → x < 256 ^ n → IsU64 (x_fn n x)
unfolding x_fn
x_fn-IsU64 zero x h p = omega arith
x_fn-IsU64 (suc zero) x h p = omega arith
x_fn-IsU64 (suc (suc zero)) x h p = omega arith
x_fn-IsU64 (suc (suc (suc zero))) x h p = omega arith
x_fn-IsU64 (suc (suc (suc (suc zero)))) x h p = omega arith
x_fn-IsU64 (suc (suc (suc (suc (suc n))))) x h p = absurd (omega arith)

module _ (buffer : BigintBuffer) where
  open buffer use {to_bigint_le, to_bigint_le-nil, to_bigint_le-cons}

  -- A number of at most `n` bytes.
  pub to_bigint_le-take-lt : (n : ℕ) (bs : List ℕ) → IsBytes bs → to_bigint_le (take n bs) < 256 ^ n
  to_bigint_le-take-lt zero bs h = omega (arith, to_bigint_le-nil)
  to_bigint_le-take-lt (suc n) [] h =
      omega (arith, to_bigint_le-nil, to_bigint_le-take-lt n [] tt, pow-suc 256 n)
  to_bigint_le-take-lt (suc n) (b ∷ bs) h = omega (
    arith,
    h.0,
    to_bigint_le-cons b (take n bs) (h.0, All-take IsByte n bs h.1),
    to_bigint_le-take-lt n bs h.1,
    pow-suc 256 n,
  )

  -- An immediate of at most four bytes, sign extended.
  pub read_var_int_from_buffer-IsU64 :
      (bs : List ℕ) (n v : ℕ)
      → n ≤ 4
      → IsBytes bs
      → read_var_int_from_buffer buffer bs n ≡ some v
      → IsU64 v
  unfolding read_var_int_from_buffer
  read_var_int_from_buffer-IsU64 bs n v small h e =
      ground (arith, to_bigint_le-take-lt n bs h, x_fn-IsU64 n (to_bigint_le (take n bs)) small)

  pub one_reg_one_ext_imm-IsU64 :
      (bytes : List ℕ) (args : OneRegOneImmArgs)
      → IsBytes bytes
      → one_reg_one_ext_imm_args_ix_decoder buffer bytes ≡ some args
      → IsU64 args.v_x
  unfolding one_reg_one_ext_imm_args_ix_decoder
  one_reg_one_ext_imm-IsU64 bytes args h e =
      let (u, a, eq) = >>=-eq-some (assert (ltb 0 (length bytes))) _ e in
      subst (λ (x : OneRegOneImmArgs). IsU64 x.v_x) (some_eq eq)
        (to_bigint_le-take-lt 8 (subarray bytes 1 9) (subarray-IsBytes bytes 1 9 h))

  pub one_reg_one_imm-IsU64 :
      (bytes : List ℕ) (args : OneRegOneImmArgs)
      → IsBytes bytes
      → one_reg_one_imm_ix_decoder buffer bytes ≡ some args
      → IsU64 args.v_x
  unfolding one_reg_one_imm_ix_decoder
  one_reg_one_imm-IsU64 bytes args h e =
      let lx = min_ℕ 4 (length bytes - 1) in
      let (u, a, rest) = >>=-eq-some (assert (ltb 0 (length bytes))) _ e in
      let (v, read, eq) = >>=-eq-some (read_var_int_from_buffer buffer (drop 1 bytes) lx) _ rest in
      subst (λ (x : OneRegOneImmArgs). IsU64 x.v_x) (some_eq eq)
        (read_var_int_from_buffer-IsU64 (drop 1 bytes) lx v (min_ℕ-le 4 (length bytes - 1)).0
          (All-drop IsByte 1 bytes h) read)

  pub one_reg_one_imm_one_offset-IsU64 :
      (bytes : List ℕ) (args : OneRegOneImmOneOffsetArgs)
      → IsBytes bytes
      → one_reg_one_imm_one_offset_ix_decoder buffer bytes ≡ some args
      → IsU64 args.v_x
  unfolding one_reg_one_imm_one_offset_ix_decoder
  one_reg_one_imm_one_offset-IsU64 [] args h e = cc
  one_reg_one_imm_one_offset-IsU64 (b ∷ bs) args h e =
      let lx = min_ℕ 4 (b / 16 % 8) in
      let view = subarray (b ∷ bs) 1 (1 + lx) in
      let (u, a, rest) = >>=-eq-some (assert (leb (lx + 1) (length (b ∷ bs)))) _ e in
      let (v, read, eq) = >>=-eq-some (read_var_int_from_buffer buffer view lx) _ rest in
      subst (λ (x : OneRegOneImmOneOffsetArgs). IsU64 x.v_x) (some_eq eq)
        (read_var_int_from_buffer-IsU64 view lx v (min_ℕ-le 4 (b / 16 % 8)).0
          (subarray-IsBytes (b ∷ bs) 1 (1 + lx) h) read)

  pub two_reg_one_imm-IsU64 :
      (bytes : List ℕ) (args : TwoRegOneImmArgs)
      → IsBytes bytes
      → two_reg_one_imm_ix_decoder buffer bytes ≡ some args
      → IsU64 args.v_x
  unfolding two_reg_one_imm_ix_decoder
  two_reg_one_imm-IsU64 bytes args h e =
      let lx = min_ℕ 4 (length bytes - 1) in
      let view = subarray bytes 1 (1 + lx) in
      let (v, read, eq) = >>=-eq-some (read_var_int_from_buffer buffer view lx) _ e in
      subst (λ (x : TwoRegOneImmArgs). IsU64 x.v_x) (some_eq eq)
        (read_var_int_from_buffer-IsU64 view lx v (min_ℕ-le 4 (length bytes - 1)).0
          (subarray-IsBytes bytes 1 (1 + lx) h) read)

  pub two_reg_two_imm-IsU64 :
      (bytes : List ℕ) (args : TwoRegTwoImmArgs)
      → IsBytes bytes
      → two_reg_two_imm_ix_decoder buffer bytes ≡ some args
      → IsU64 args.v_x
  unfolding two_reg_two_imm_ix_decoder
  two_reg_two_imm-IsU64 [] args h e = cc
  two_reg_two_imm-IsU64 (b ∷ []) args h e = cc
  two_reg_two_imm-IsU64 (b ∷ c ∷ bs) args h e =
      let bytes = b ∷ c ∷ bs in
      let lx = min_ℕ 4 (c % 8) in
      let ly = min_ℕ 4 (length bytes - 2 - lx) in
      let view = subarray bytes 2 (2 + lx) in
      let behind = subarray bytes (2 + lx) (2 + lx + ly) in
      let (u, a, rest) = >>=-eq-some (assert (leb (2 + lx) (length bytes))) _ e in
      let (v, read, more) = >>=-eq-some (read_var_int_from_buffer buffer view lx) _ rest in
      let (w, read', eq) = >>=-eq-some (read_var_int_from_buffer buffer behind ly) _ more in
      subst (λ (x : TwoRegTwoImmArgs). IsU64 x.v_x) (some_eq eq)
        (read_var_int_from_buffer-IsU64 view lx v (min_ℕ-le 4 (c % 8)).0
          (subarray-IsBytes bytes 2 (2 + lx) h) read)
