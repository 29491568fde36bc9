-- ===== src/Lib.antt =====
-- tsjam is an implementation of the JAM protocol in TypeScript. This library models its virtual
-- machine PVM, its number codecs and the core's state transition, and proves what they promise.
--
-- Parts of the codecs and the virtual machine
--   Codec/Buffer       byte arrays, and the package bigint-buffer, which is not part of the
--                      repository: a record of its two conversions and of what it documents
--   Codec/Ints         packages/jam-codec/src/ints: E, E_sub, LittleEndian, E4star
--   Codec/BitSequence  packages/jam-codec/src/bit-sequence.ts
--   Pvm/Words          packages/jam-pvm-js/src/utils/zed.ts and the conversions of
--                      packages/jam-pvm-js/src/instructions/utils.ts
--   Pvm/Ops            the arithmetic of packages/jam-pvm-js/src/instructions/instructions.ts
--   Pvm/Memory         packages/jam-pvm-base/src/pvm-base-memory.ts, the paged memory and its heap
--   Pvm/Vm             the state of PVMJS with branch and djump (packages/jam-pvm-js/src/utils)
--   Pvm/Decoders       packages/jam-pvm-js/src/instructions/decoders.ts
--   Pvm/Handlers       the other instructions of instructions.ts
--   Pvm/Ixdb           packages/jam-pvm-js/src/instructions/ixdb.ts
--   Pvm/Instructions   what the decorators of instructions.ts register
--   Pvm/Run            the constructor and the loop of packages/jam-pvm-js/src/index.ts
--   Pvm/Safety         what every instruction keeps, up to a round of the loop and to whole runs
--
-- Parts of the core, of packages/jam-core/src where no other package is named
--   Core/Bytes         the order and the equality of hashes, Buffer.compare
--   Core/Constants     packages/jam-constants/src
--   Core/IdentitySet   data-structures/identity-set.ts
--   Core/Validators    impls/validators-impl.ts and validator-data-impl.ts
--   Core/Disputes      impls/disputes-state-impl.ts, impls/extrinsics/disputes.ts and the verdicts,
--                      culprits and faults of impls/extrinsics/disputes
--   Core/Slot          impls/slot-impl.ts
--   Core/Entropy       impls/jam-entropy-impl.ts
--   Core/Safrole       impls/extrinsics/tickets.ts, gamma-a-impl.ts, gamma-s-impl.ts,
--                      gamma-p-impl.ts, kappa-impl.ts, lambda-impl.ts of impls, and utils.ts
--   Core/Shuffle       fisher-yates.ts
--   Core/Guarantors    impls/guarantors-assignment-impl.ts
--   Core/Reports       the fields of impls/work-report-impl.ts that the others read
--   Core/Accumulation  new-work-reports-impl.ts, accumulation-queue-item.ts,
--                      accumulation-history-impl.ts and accumulation-queue-impl.ts of impls
--   Core/Rho           impls/rho-impl.ts
--   Core/Assurances    impls/extrinsics/assurances.ts
--   Core/Authorizers   impls/authorizer-pool-impl.ts
--   Core/Merkle        merklization/merkle-state.ts, and the append of merklization/mmr.ts
--   Core/Chain         applyBlock of impls/jam-state-impl.ts, which composes the disputes, the slot,
--                      the entropy and Safrole in the order and with the early returns of the source
--   Tests              runs on concrete values
--
-- A handler of the machine takes the arguments that its decoder gives and the state of the machine,
-- and gives the state afterwards with an exit reason, if it stops the run. The loop finds the
-- instruction at the program counter in the pointer table that the constructor built, decodes, and
-- evaluates. An exception of JavaScript is `none`. BigInt values that are never negative are natural
-- numbers, the others are integers.
--
-- An operation of the core takes the fields of the state that the source passes to it and gives the
-- posterior field, or the error of the source. A check keeps the order of its tests. The wrappers
-- Posterior, Dagger and Validated are types only and do not appear. The hash, Ed25519, Bandersnatch
-- and bigint-buffer are parameters. A field of an object that was never set does not occur, and
-- where the source would go on with an array element that is not there the model gives `none`.
--
-- Bounds and fuel. The loops over bytes and pages recurse on their number of rounds, which the models
-- take from the lengths at hand. The loop of the interpreter runs on a bound, and the gas is enough.
-- The order of accumulation runs on one round for every item and one more, the trie on one level for
-- every bit of a key, and the append to a mountain range on one round for every peak and one more;
-- all are enough. Conversions to Number round as a double does.
--
-- Not modelled: the header and its seals, the checks of guarantees, the preimages, the
-- accumulation of services and the host calls, the history and the statistics, the class codecs with
-- their decorators and JSON, the program codec, the other Merkle functions, erasure coding,
-- networking, cryptography and logging.
pub mod Prelude
pub mod Codec
pub mod Core
pub mod Pvm
pub mod Tests
