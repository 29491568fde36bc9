-- ===== src/Pvm/Handlers/Mem.antt =====
-- Loads and stores. The buffers of the module are written before every use, so they carry no state.
use tsjam.Prelude.{ℕ, zero, suc, ◌+◌, ◌*◌, ◌/◌, ◌%◌, ◌^◌, bit_and, Option, none, some, ◌>>=◌}
use tsjam.Prelude.{List, [], ◌∷◌, replicate, ltb, if◌then◌else◌}
use tsjam.Pvm.Words.{z, z8_inv, x_fn}
use tsjam.Pvm.Memory.{first_unreadable, read_into, to_safe_memory_address}
use tsjam.Pvm.Vm.{Pvm, Outcome, handle_memory_fault, store_safe, reg, set_reg}
use tsjam.Pvm.Decoders.{TwoImmArgs, OneRegOneImmArgs, OneRegTwoImmArgs, TwoRegOneImmArgs}

-- `buf.writeUint16LE(v)` and its kin: `n` bytes of `v`, which fits them.
unfoldable pub write_le : ℕ → ℕ → List ℕ
write_le zero v = []
write_le (suc n) v = v % 256 ∷ write_le n (v / 256)

-- `buf.readUint16LE()` and its kin.
unfoldable pub read_le : List ℕ → ℕ
read_le [] = 0
read_le (b ∷ bs) = b + 256 * read_le bs

-- `_8_Buf.writeBigUint64LE(v)`: a range error from 2^64 on.
unfoldable pub write_big_uint64_le : ℕ → Option (List ℕ)
unfolding write_le
write_big_uint64_le v = if ltb v (2 ^ 64) then some (write_le 8 v) else none

-- `Buffer.from([v])`.
abbrev pub byte_buffer : ℕ → List ℕ
byte_buffer v = v % 256 ∷ []

unfoldable pub store_imm_u8 : TwoImmArgs → Pvm → ℕ → Outcome
store_imm_u8 args pvm skip = store_safe args.v_x (byte_buffer (args.v_y % 256)) pvm

unfoldable pub store_imm_u16 : TwoImmArgs → Pvm → ℕ → Outcome
store_imm_u16 args pvm skip = store_safe args.v_x (write_le 2 (args.v_y % 2 ^ 16)) pvm

unfoldable pub store_imm_u32 : TwoImmArgs → Pvm → ℕ → Outcome
store_imm_u32 args pvm skip = store_safe args.v_x (write_le 4 (args.v_y % 2 ^ 32)) pvm

unfoldable pub store_imm_u64 : TwoImmArgs → Pvm → ℕ → Outcome
store_imm_u64 args pvm skip = do buf ← write_big_uint64_le args.v_y; store_safe args.v_x buf pvm

-- What every load does: the check, the fault, the read of `n` bytes at `address`, and the write of
-- the converted number to register `r`.
unfoldable pub load_at : ℕ → (ℕ → ℕ) → ℕ → ℕ → Pvm → Outcome
unfolding read_le
load_at n convert r address pvm = elim (first_unreadable pvm.memory address n) [
  | some fault ↦ some (pvm, some (handle_memory_fault fault))
  | none ↦ do
    buf ← read_into pvm.memory address (replicate n 0)
    set_reg pvm r (convert (read_le buf))
]

abbrev pub unsigned : ℕ → ℕ
unsigned v = v

unfoldable pub load_imm_at : ℕ → (ℕ → ℕ) → OneRegOneImmArgs → Pvm → ℕ → Outcome
unfolding load_at
load_imm_at n convert args pvm skip =
    load_at n convert args.r_a (to_safe_memory_address args.v_x) pvm

unfoldable pub load_u8 : OneRegOneImmArgs → Pvm → ℕ → Outcome
unfolding load_imm_at
load_u8 = load_imm_at 1 unsigned

unfoldable pub load_u16 : OneRegOneImmArgs → Pvm → ℕ → Outcome
unfolding load_imm_at
load_u16 = load_imm_at 2 unsigned

unfoldable pub load_u32 : OneRegOneImmArgs → Pvm → ℕ → Outcome
unfolding load_imm_at
load_u32 = load_imm_at 4 unsigned

unfoldable pub load_u64 : OneRegOneImmArgs → Pvm → ℕ → Outcome
unfolding load_imm_at
load_u64 = load_imm_at 8 unsigned

unfoldable pub load_i8 : OneRegOneImmArgs → Pvm → ℕ → Outcome
unfolding load_imm_at
load_i8 = load_imm_at 1 (x_fn 1)

unfoldable pub load_i16 : OneRegOneImmArgs → Pvm → ℕ → Outcome
unfolding load_imm_at
load_i16 = load_imm_at 2 (x_fn 2)

unfoldable pub load_i32 : OneRegOneImmArgs → Pvm → ℕ → Outcome
unfolding load_imm_at
load_i32 = load_imm_at 4 (x_fn 4)

unfoldable pub store_u8 : OneRegOneImmArgs → Pvm → ℕ → Outcome
store_u8 args pvm skip = do
  w_a ← reg pvm args.r_a
  store_safe (to_safe_memory_address args.v_x) (byte_buffer (w_a % 256)) pvm

unfoldable pub store_u16 : OneRegOneImmArgs → Pvm → ℕ → Outcome
store_u16 args pvm skip = do
  w_a ← reg pvm args.r_a
  store_safe (to_safe_memory_address args.v_x) (write_le 2 (w_a % 2 ^ 16)) pvm

unfoldable pub store_u32 : OneRegOneImmArgs → Pvm → ℕ → Outcome
store_u32 args pvm skip = do
  w_a ← reg pvm args.r_a
  store_safe (to_safe_memory_address args.v_x) (write_le 4 (w_a % 2 ^ 32)) pvm

unfoldable pub store_u64 : OneRegOneImmArgs → Pvm → ℕ → Outcome
store_u64 args pvm skip = do
  w_a ← reg pvm args.r_a
  buf ← write_big_uint64_le w_a
  store_safe (to_safe_memory_address args.v_x) buf pvm

-- The byte is the immediate modulo 0xff.
unfoldable pub store_imm_ind_u8 : OneRegTwoImmArgs → Pvm → ℕ → Outcome
store_imm_ind_u8 args pvm skip = do
  w_a ← reg pvm args.r_a
  store_safe (to_safe_memory_address (w_a + args.v_x)) (byte_buffer (args.v_y % 0xff)) pvm

unfoldable pub store_imm_ind_u16 : OneRegTwoImmArgs → Pvm → ℕ → Outcome
store_imm_ind_u16 args pvm skip = do
  w_a ← reg pvm args.r_a
  store_safe (to_safe_memory_address (w_a + args.v_x)) (write_le 2 (args.v_y % 2 ^ 16)) pvm

unfoldable pub store_imm_ind_u32 : OneRegTwoImmArgs → Pvm → ℕ → Outcome
store_imm_ind_u32 args pvm skip = do
  w_a ← reg pvm args.r_a
  store_safe (to_safe_memory_address (w_a + args.v_x)) (write_le 4 (args.v_y % 2 ^ 32)) pvm

unfoldable pub store_imm_ind_u64 : OneRegTwoImmArgs → Pvm → ℕ → Outcome
store_imm_ind_u64 args pvm skip = do
  w_a ← reg pvm args.r_a
  buf ← write_big_uint64_le args.v_y
  store_safe (to_safe_memory_address (w_a + args.v_x)) buf pvm

-- The address of the indirect instructions.
unfoldable pub location : ℕ → ℕ → ℕ
location w_b v_x = to_safe_memory_address (w_b + v_x)

unfoldable pub store_ind_u8 : TwoRegOneImmArgs → Pvm → ℕ → Outcome
unfolding location
store_ind_u8 args pvm skip = do
  w_a ← reg pvm args.r_a
  w_b ← reg pvm args.r_b
  store_safe (location w_b args.v_x) (byte_buffer (bit_and w_a 0xff)) pvm

unfoldable pub store_ind_u16 : TwoRegOneImmArgs → Pvm → ℕ → Outcome
unfolding location
store_ind_u16 args pvm skip = do
  w_a ← reg pvm args.r_a
  w_b ← reg pvm args.r_b
  store_safe (location w_b args.v_x) (write_le 2 (bit_and w_a 0xffff)) pvm

unfoldable pub store_ind_u32 : TwoRegOneImmArgs → Pvm → ℕ → Outcome
unfolding location
store_ind_u32 args pvm skip = do
  w_a ← reg pvm args.r_a
  w_b ← reg pvm args.r_b
  store_safe (location w_b args.v_x) (write_le 4 (w_a % 2 ^ 32)) pvm

unfoldable pub store_ind_u64 : TwoRegOneImmArgs → Pvm → ℕ → Outcome
unfolding location
store_ind_u64 args pvm skip = do
  w_a ← reg pvm args.r_a
  w_b ← reg pvm args.r_b
  buf ← write_big_uint64_le w_a
  store_safe (location w_b args.v_x) buf pvm

unfoldable pub load_ind_at : ℕ → (ℕ → ℕ) → TwoRegOneImmArgs → Pvm → ℕ → Outcome
unfolding load_at location
load_ind_at n convert args pvm skip = do
  w_b ← reg pvm args.r_b
  load_at n convert args.r_a (location w_b args.v_x) pvm

unfoldable pub load_ind_u8 : TwoRegOneImmArgs → Pvm → ℕ → Outcome
unfolding load_ind_at
load_ind_u8 = load_ind_at 1 unsigned

unfoldable pub load_ind_u16 : TwoRegOneImmArgs → Pvm → ℕ → Outcome
unfolding load_ind_at
load_ind_u16 = load_ind_at 2 unsigned

unfoldable pub load_ind_u32 : TwoRegOneImmArgs → Pvm → ℕ → Outcome
unfolding load_ind_at
load_ind_u32 = load_ind_at 4 unsigned

unfoldable pub load_ind_u64 : TwoRegOneImmArgs → Pvm → ℕ → Outcome
unfolding load_ind_at
load_ind_u64 = load_ind_at 8 unsigned

unfoldable pub load_ind_i8 : TwoRegOneImmArgs → Pvm → ℕ → Outcome
unfolding load_ind_at
load_ind_i8 = load_ind_at 1 (λ v. z8_inv (z 1 v))

unfoldable pub load_ind_i16 : TwoRegOneImmArgs → Pvm → ℕ → Outcome
unfolding load_ind_at
load_ind_i16 = load_ind_at 2 (λ v. z8_inv (z 2 v))

unfoldable pub load_ind_i32 : TwoRegOneImmArgs → Pvm → ℕ → Outcome
unfolding load_ind_at
load_ind_i32 = load_ind_at 4 (λ v. z8_inv (z 4 v))
