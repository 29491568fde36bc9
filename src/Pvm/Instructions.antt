-- ===== src/Pvm/Instructions.antt =====
-- `Ixdb` of packages/jam-pvm-js/src/instructions/ixdb.ts with the instructions that the decorators
-- of packages/jam-pvm-js/src/instructions/instructions.ts register.
use tsjam.Prelude.{List, [], ◌∷◌, ◌++◌, true, false}
use tsjam.Codec.Buffer.{BigintBuffer}
use tsjam.Pvm.Decoders
use tsjam.Pvm.Ops.Imm
use tsjam.Pvm.Ops.Regs
use tsjam.Pvm.Ops.One
use tsjam.Pvm.Ixdb.{Ix, ix}
use tsjam.Pvm.Handlers.{one_op, imm_op, imm_cmov, regs_op, regs_cmov}
use tsjam.Pvm.Handlers.Flow
use tsjam.Pvm.Handlers.Mem

-- Control flow, immediates and the heap.
unfoldable pub flow_ixs : BigintBuffer → List Ix
flow_ixs buffer =
    ix 0 "trap" true true Decoders.no_arg_ix_decoder Flow.trap
    ∷ ix 1 "fallthrough" true true Decoders.no_arg_ix_decoder Flow.fallthrough
    ∷ ix 10 "ecalli" false false (Decoders.one_imm_ix_decoder buffer) Flow.ecalli
    ∷ ix 20 "load_imm_64" false true (Decoders.one_reg_one_ext_imm_args_ix_decoder buffer)
        Flow.load_imm_64
    ∷ ix 40 "jump" true true (Decoders.one_offset_ix_decoder buffer) Flow.jump
    ∷ ix 50 "jump_ind" true true (Decoders.one_reg_one_imm_ix_decoder buffer) Flow.jump_ind
    ∷ ix 51 "load_imm" false false (Decoders.one_reg_one_imm_ix_decoder buffer) Flow.load_imm
    ∷ ix 80 "load_imm_jump" true true (Decoders.one_reg_one_imm_one_offset_ix_decoder buffer)
        Flow.load_imm_jump
    ∷ ix 81 "branch_eq_imm" true true (Decoders.one_reg_one_imm_one_offset_ix_decoder buffer)
        Flow.branch_eq_imm
    ∷ ix 82 "branch_ne_imm" true true (Decoders.one_reg_one_imm_one_offset_ix_decoder buffer)
        Flow.branch_ne_imm
    ∷ ix 83 "branch_lt_u_imm" true true (Decoders.one_reg_one_imm_one_offset_ix_decoder buffer)
        Flow.branch_lt_u_imm
    ∷ ix 84 "branch_le_u_imm" true true (Decoders.one_reg_one_imm_one_offset_ix_decoder buffer)
        Flow.branch_le_u_imm
    ∷ ix 85 "branch_ge_u_imm" true true (Decoders.one_reg_one_imm_one_offset_ix_decoder buffer)
        Flow.branch_ge_u_imm
    ∷ ix 86 "branch_gt_u_imm" true true (Decoders.one_reg_one_imm_one_offset_ix_decoder buffer)
        Flow.branch_gt_u_imm
    ∷ ix 87 "branch_lt_s_imm" true true (Decoders.one_reg_one_imm_one_offset_ix_decoder buffer)
        Flow.branch_lt_s_imm
    ∷ ix 88 "branch_le_s_imm" true true (Decoders.one_reg_one_imm_one_offset_ix_decoder buffer)
        Flow.branch_le_s_imm
    ∷ ix 89 "branch_ge_s_imm" true true (Decoders.one_reg_one_imm_one_offset_ix_decoder buffer)
        Flow.branch_ge_s_imm
    ∷ ix 90 "branch_gt_s_imm" true true (Decoders.one_reg_one_imm_one_offset_ix_decoder buffer)
        Flow.branch_gt_s_imm
    ∷ ix 101 "sbrk" false false Decoders.two_reg_ix_decoder Flow.sbrk
    ∷ ix 180 "load_imm_jump_ind" true true (Decoders.two_reg_two_imm_ix_decoder buffer)
        Flow.load_imm_jump_ind
    ∷ ix 170 "branch_eq" true true (Decoders.two_reg_one_offset_ix_decoder buffer) Flow.branch_eq
    ∷ ix 171 "branch_ne" true true (Decoders.two_reg_one_offset_ix_decoder buffer) Flow.branch_ne
    ∷ ix 172 "branch_lt_u" true true (Decoders.two_reg_one_offset_ix_decoder buffer)
        Flow.branch_lt_u
    ∷ ix 173 "branch_lt_s" true true (Decoders.two_reg_one_offset_ix_decoder buffer)
        Flow.branch_lt_s
    ∷ ix 174 "branch_ge_u" true true (Decoders.two_reg_one_offset_ix_decoder buffer)
        Flow.branch_ge_u
    ∷ ix 175 "branch_ge_s" true true (Decoders.two_reg_one_offset_ix_decoder buffer)
        Flow.branch_ge_s
    ∷ []

-- Loads and stores.
unfoldable pub mem_ixs : BigintBuffer → List Ix
mem_ixs buffer =
    ix 30 "store_imm_u8" false false (Decoders.two_imm_ix_decoder buffer) Mem.store_imm_u8
    ∷ ix 31 "store_imm_u16" false false (Decoders.two_imm_ix_decoder buffer) Mem.store_imm_u16
    ∷ ix 32 "store_imm_u32" false false (Decoders.two_imm_ix_decoder buffer) Mem.store_imm_u32
    ∷ ix 33 "store_imm_u64" false false (Decoders.two_imm_ix_decoder buffer) Mem.store_imm_u64
    ∷ ix 52 "load_u8" false false (Decoders.one_reg_one_imm_ix_decoder buffer) Mem.load_u8
    ∷ ix 54 "load_u16" false false (Decoders.one_reg_one_imm_ix_decoder buffer) Mem.load_u16
    ∷ ix 56 "load_u32" false false (Decoders.one_reg_one_imm_ix_decoder buffer) Mem.load_u32
    ∷ ix 58 "load_u64" false false (Decoders.one_reg_one_imm_ix_decoder buffer) Mem.load_u64
    ∷ ix 53 "load_i8" false false (Decoders.one_reg_one_imm_ix_decoder buffer) Mem.load_i8
    ∷ ix 55 "load_i16" false false (Decoders.one_reg_one_imm_ix_decoder buffer) Mem.load_i16
    ∷ ix 57 "load_i32" false false (Decoders.one_reg_one_imm_ix_decoder buffer) Mem.load_i32
    ∷ ix 59 "store_u8" false false (Decoders.one_reg_one_imm_ix_decoder buffer) Mem.store_u8
    ∷ ix 60 "store_u16" false false (Decoders.one_reg_one_imm_ix_decoder buffer) Mem.store_u16
    ∷ ix 61 "store_u32" false false (Decoders.one_reg_one_imm_ix_decoder buffer) Mem.store_u32
    ∷ ix 62 "store_u64" false false (Decoders.one_reg_one_imm_ix_decoder buffer) Mem.store_u64
    ∷ ix 70 "store_imm_ind_u8" false false (Decoders.one_reg_two_imm_ix_decoder buffer)
        Mem.store_imm_ind_u8
    ∷ ix 71 "store_imm_ind_u16" false false (Decoders.one_reg_two_imm_ix_decoder buffer)
        Mem.store_imm_ind_u16
    ∷ ix 72 "store_imm_ind_u32" false false (Decoders.one_reg_two_imm_ix_decoder buffer)
        Mem.store_imm_ind_u32
    ∷ ix 73 "store_imm_ind_u64" false false (Decoders.one_reg_two_imm_ix_decoder buffer)
        Mem.store_imm_ind_u64
    ∷ ix 120 "store_ind_u8" false false (Decoders.two_reg_one_imm_ix_decoder buffer)
        Mem.store_ind_u8
    ∷ ix 121 "store_ind_u16" false false (Decoders.two_reg_one_imm_ix_decoder buffer)
        Mem.store_ind_u16
    ∷ ix 122 "store_ind_u32" false false (Decoders.two_reg_one_imm_ix_decoder buffer)
        Mem.store_ind_u32
    ∷ ix 123 "store_ind_u64" false false (Decoders.two_reg_one_imm_ix_decoder buffer)
        Mem.store_ind_u64
    ∷ ix 124 "load_ind_u8" false false (Decoders.two_reg_one_imm_ix_decoder buffer) Mem.load_ind_u8
    ∷ ix 126 "load_ind_u16" false false (Decoders.two_reg_one_imm_ix_decoder buffer)
        Mem.load_ind_u16
    ∷ ix 128 "load_ind_u32" false false (Decoders.two_reg_one_imm_ix_decoder buffer)
        Mem.load_ind_u32
    ∷ ix 130 "load_ind_u64" false false (Decoders.two_reg_one_imm_ix_decoder buffer)
        Mem.load_ind_u64
    ∷ ix 125 "load_ind_i8" false false (Decoders.two_reg_one_imm_ix_decoder buffer) Mem.load_ind_i8
    ∷ ix 127 "load_ind_i16" false false (Decoders.two_reg_one_imm_ix_decoder buffer)
        Mem.load_ind_i16
    ∷ ix 129 "load_ind_i32" false false (Decoders.two_reg_one_imm_ix_decoder buffer)
        Mem.load_ind_i32
    ∷ []

-- Two registers.
unfoldable pub one_ixs : BigintBuffer → List Ix
one_ixs buffer =
    ix 100 "move_reg" false false Decoders.two_reg_ix_decoder (one_op One.move_reg)
    ∷ ix 102 "count_set_bits_64" false false Decoders.two_reg_ix_decoder
        (one_op One.count_set_bits_64)
    ∷ ix 103 "count_set_bits_32" false false Decoders.two_reg_ix_decoder
        (one_op One.count_set_bits_32)
    ∷ ix 104 "leading_zero_bits_64" false false Decoders.two_reg_ix_decoder
        (one_op One.leading_zero_bits_64)
    ∷ ix 105 "leading_zero_bits_32" false false Decoders.two_reg_ix_decoder
        (one_op One.leading_zero_bits_32)
    ∷ ix 106 "trailing_zero_bits_64" false false Decoders.two_reg_ix_decoder
        (one_op One.trailing_zero_bits_64)
    ∷ ix 107 "trailing_zero_bits_32" false false Decoders.two_reg_ix_decoder
        (one_op One.trailing_zero_bits_32)
    ∷ ix 108 "sign_extend_8" false false Decoders.two_reg_ix_decoder (one_op One.sign_extend_8)
    ∷ ix 109 "sign_extend_16" false false Decoders.two_reg_ix_decoder (one_op One.sign_extend_16)
    ∷ ix 110 "zero_extend_16" false false Decoders.two_reg_ix_decoder (one_op One.zero_extend_16)
    ∷ ix 111 "reverse_bytes" false false Decoders.two_reg_ix_decoder (one_op One.reverse_bytes)
    ∷ []

-- Two registers and an immediate.
unfoldable pub imm_ixs : BigintBuffer → List Ix
imm_ixs buffer =
    ix 131 "add_imm_32" false false (Decoders.two_reg_one_imm_ix_decoder buffer)
      (imm_op Imm.add_imm_32)
    ∷ ix 132 "and_imm" false false (Decoders.two_reg_one_imm_ix_decoder buffer) (imm_op Imm.and_imm)
    ∷ ix 133 "xor_imm" false false (Decoders.two_reg_one_imm_ix_decoder buffer) (imm_op Imm.xor_imm)
    ∷ ix 134 "or_imm" false false (Decoders.two_reg_one_imm_ix_decoder buffer) (imm_op Imm.or_imm)
    ∷ ix 135 "mul_imm_32" false false (Decoders.two_reg_one_imm_ix_decoder buffer)
        (imm_op Imm.mul_imm_32)
    ∷ ix 136 "set_lt_u_imm" false false (Decoders.two_reg_one_imm_ix_decoder buffer)
        (imm_op Imm.set_lt_u_imm)
    ∷ ix 137 "set_lt_s_imm" false false (Decoders.two_reg_one_imm_ix_decoder buffer)
        (imm_op Imm.set_lt_s_imm)
    ∷ ix 138 "shlo_l_imm_32" false false (Decoders.two_reg_one_imm_ix_decoder buffer)
        (imm_op Imm.shlo_l_imm_32)
    ∷ ix 139 "shlo_r_imm_32" false false (Decoders.two_reg_one_imm_ix_decoder buffer)
        (imm_op Imm.shlo_r_imm_32)
    ∷ ix 140 "shar_r_imm_32" false false (Decoders.two_reg_one_imm_ix_decoder buffer)
        (imm_op Imm.shar_r_imm_32)
    ∷ ix 141 "neg_add_imm_32" false false (Decoders.two_reg_one_imm_ix_decoder buffer)
        (imm_op Imm.neg_add_imm_32)
    ∷ ix 142 "set_gt_u_imm" false false (Decoders.two_reg_one_imm_ix_decoder buffer)
        (imm_op Imm.set_gt_u_imm)
    ∷ ix 143 "set_gt_s_imm" false false (Decoders.two_reg_one_imm_ix_decoder buffer)
        (imm_op Imm.set_gt_s_imm)
    ∷ ix 144 "shlo_l_imm_alt_32" false false (Decoders.two_reg_one_imm_ix_decoder buffer)
        (imm_op Imm.shlo_l_imm_alt_32)
    ∷ ix 145 "shlo_r_imm_alt_32" false false (Decoders.two_reg_one_imm_ix_decoder buffer)
        (imm_op Imm.shlo_r_imm_alt_32)
    ∷ ix 146 "shar_r_imm_alt_32" false false (Decoders.two_reg_one_imm_ix_decoder buffer)
        (imm_op Imm.shar_r_imm_alt_32)
    ∷ ix 147 "cmov_iz_imm" false false (Decoders.two_reg_one_imm_ix_decoder buffer)
        (imm_cmov Imm.cmov_iz_imm)
    ∷ ix 148 "cmov_nz_imm" false false (Decoders.two_reg_one_imm_ix_decoder buffer)
        (imm_cmov Imm.cmov_nz_imm)
    ∷ ix 149 "add_imm_64" false false (Decoders.two_reg_one_imm_ix_decoder buffer)
        (imm_op Imm.add_imm_64)
    ∷ ix 150 "mul_imm_64" false false (Decoders.two_reg_one_imm_ix_decoder buffer)
        (imm_op Imm.mul_imm_64)
    ∷ ix 151 "shlo_l_imm_64" false false (Decoders.two_reg_one_imm_ix_decoder buffer)
        (imm_op Imm.shlo_l_imm_64)
    ∷ ix 152 "shlo_r_imm_64" false false (Decoders.two_reg_one_imm_ix_decoder buffer)
        (imm_op Imm.shlo_r_imm_64)
    ∷ ix 153 "shar_r_imm_64" false false (Decoders.two_reg_one_imm_ix_decoder buffer)
        (imm_op Imm.shar_r_imm_64)
    ∷ ix 154 "neg_add_imm_64" false false (Decoders.two_reg_one_imm_ix_decoder buffer)
        (imm_op Imm.neg_add_imm_64)
    ∷ ix 155 "shlo_l_imm_alt_64" false false (Decoders.two_reg_one_imm_ix_decoder buffer)
        (imm_op Imm.shlo_l_imm_alt_64)
    ∷ ix 156 "shlo_r_imm_alt_64" false false (Decoders.two_reg_one_imm_ix_decoder buffer)
        (imm_op Imm.shlo_r_imm_alt_64)
    ∷ ix 157 "shar_r_imm_alt_64" false false (Decoders.two_reg_one_imm_ix_decoder buffer)
        (imm_op Imm.shar_r_imm_alt_64)
    ∷ ix 158 "rot_r_64_imm" false false (Decoders.two_reg_one_imm_ix_decoder buffer)
        (imm_op Imm.rot_r_64_imm)
    ∷ ix 159 "rot_r_64_imm_alt" false false (Decoders.two_reg_one_imm_ix_decoder buffer)
        (imm_op Imm.rot_r_64_imm_alt)
    ∷ ix 160 "rot_r_32_imm" false false (Decoders.two_reg_one_imm_ix_decoder buffer)
        (imm_op Imm.rot_r_32_imm)
    ∷ ix 161 "rot_r_32_imm_alt" false false (Decoders.two_reg_one_imm_ix_decoder buffer)
        (imm_op Imm.rot_r_32_imm_alt)
    ∷ []

-- Three registers.
unfoldable pub regs_ixs : BigintBuffer → List Ix
regs_ixs buffer =
    ix 190 "add_32" false false Decoders.three_reg_ix_decoder (regs_op Regs.add_32)
    ∷ ix 191 "sub_32" false false Decoders.three_reg_ix_decoder (regs_op Regs.sub_32)
    ∷ ix 192 "mul_32" false false Decoders.three_reg_ix_decoder (regs_op Regs.mul_32)
    ∷ ix 193 "div_u_32" false false Decoders.three_reg_ix_decoder (regs_op Regs.div_u_32)
    ∷ ix 194 "div_s_32" false false Decoders.three_reg_ix_decoder (regs_op Regs.div_s_32)
    ∷ ix 195 "rem_u_32" false false Decoders.three_reg_ix_decoder (regs_op Regs.rem_u_32)
    ∷ ix 196 "rem_s_32" false false Decoders.three_reg_ix_decoder (regs_op Regs.rem_s_32)
    ∷ ix 197 "shlo_l_32" false false Decoders.three_reg_ix_decoder (regs_op Regs.shlo_l_32)
    ∷ ix 198 "shlo_r_32" false false Decoders.three_reg_ix_decoder (regs_op Regs.shlo_r_32)
    ∷ ix 199 "shar_r_32" false false Decoders.three_reg_ix_decoder (regs_op Regs.shar_r_32)
    ∷ ix 200 "add_64" false false Decoders.three_reg_ix_decoder (regs_op Regs.add_64)
    ∷ ix 201 "sub_64" false false Decoders.three_reg_ix_decoder (regs_op Regs.sub_64)
    ∷ ix 202 "mul_64" false false Decoders.three_reg_ix_decoder (regs_op Regs.mul_64)
    ∷ ix 203 "div_u_64" false false Decoders.three_reg_ix_decoder (regs_op Regs.div_u_64)
    ∷ ix 204 "div_s_64" false false Decoders.three_reg_ix_decoder (regs_op Regs.div_s_64)
    ∷ ix 205 "rem_u_64" false false Decoders.three_reg_ix_decoder (regs_op Regs.rem_u_64)
    ∷ ix 206 "rem_s_64" false false Decoders.three_reg_ix_decoder (regs_op Regs.rem_s_64)
    ∷ ix 207 "shlo_l_64" false false Decoders.three_reg_ix_decoder (regs_op Regs.shlo_l_64)
    ∷ ix 208 "shlo_r_64" false false Decoders.three_reg_ix_decoder (regs_op Regs.shlo_r_64)
    ∷ ix 209 "shar_r_64" false false Decoders.three_reg_ix_decoder (regs_op Regs.shar_r_64)
    ∷ ix 210 "and" false false Decoders.three_reg_ix_decoder (regs_op Regs.and)
    ∷ ix 211 "xor" false false Decoders.three_reg_ix_decoder (regs_op Regs.xor)
    ∷ ix 212 "or" false false Decoders.three_reg_ix_decoder (regs_op Regs.or)
    ∷ ix 213 "mul_upper_s_s" false false Decoders.three_reg_ix_decoder (regs_op Regs.mul_upper_s_s)
    ∷ ix 214 "mul_upper_u_u" false false Decoders.three_reg_ix_decoder (regs_op Regs.mul_upper_u_u)
    ∷ ix 215 "mul_upper_s_u" false false Decoders.three_reg_ix_decoder (regs_op Regs.mul_upper_s_u)
    ∷ ix 216 "set_lt_u" false false Decoders.three_reg_ix_decoder (regs_op Regs.set_lt_u)
    ∷ ix 217 "set_lt_s" false false Decoders.three_reg_ix_decoder (regs_op Regs.set_lt_s)
    ∷ ix 218 "cmov_iz" false false Decoders.three_reg_ix_decoder (regs_cmov Regs.cmov_iz)
    ∷ ix 219 "cmov_nz" false false Decoders.three_reg_ix_decoder (regs_cmov Regs.cmov_nz)
    ∷ ix 220 "rot_l_64" false false Decoders.three_reg_ix_decoder (regs_op Regs.rot_l_64)
    ∷ ix 221 "rot_l_32" false false Decoders.three_reg_ix_decoder (regs_op Regs.rot_l_32)
    ∷ ix 222 "rot_r_64" false false Decoders.three_reg_ix_decoder (regs_op Regs.rot_r_64)
    ∷ ix 223 "rot_r_32" false false Decoders.three_reg_ix_decoder (regs_op Regs.rot_r_32)
    ∷ ix 224 "and_inv" false false Decoders.three_reg_ix_decoder (regs_op Regs.and_inv)
    ∷ ix 225 "or_inv" false false Decoders.three_reg_ix_decoder (regs_op Regs.or_inv)
    ∷ ix 226 "xnor" false false Decoders.three_reg_ix_decoder (regs_op Regs.xnor)
    ∷ ix 227 "max" false false Decoders.three_reg_ix_decoder (regs_op Regs.max)
    ∷ ix 228 "max_u" false false Decoders.three_reg_ix_decoder (regs_op Regs.max_u)
    ∷ ix 229 "min" false false Decoders.three_reg_ix_decoder (regs_op Regs.min)
    ∷ ix 230 "min_u" false false Decoders.three_reg_ix_decoder (regs_op Regs.min_u)
    ∷ []

-- Every instruction that the class registers.
unfoldable pub instructions : BigintBuffer → List Ix
unfolding flow_ixs mem_ixs one_ixs imm_ixs regs_ixs
instructions buffer =
    flow_ixs buffer ++ (mem_ixs buffer ++ (one_ixs buffer ++ (imm_ixs buffer ++ regs_ixs buffer)))
