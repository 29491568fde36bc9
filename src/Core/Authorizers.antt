-- ===== src/Core/Authorizers.antt =====
-- packages/jam-core/src/impls/authorizer-pool-impl.ts: the authorizers that a core may use.
pub mod Consumed
use tsjam.Prelude.{
  ℕ, zero, suc, ◌+◌, ◌%◌, Bool, true, false, Option, none, some, ◌>>=◌, List, [], ◌∷◌, ◌++◌, length,
  take, drop, get_elem?, if◌then◌else◌,
}
use tsjam.Core.Bytes.{Bytes, bytes_eq}
use tsjam.Core.Reports.{WorkReport}
use tsjam.Core.Rho.{element_for_core}

abbrev pub reverse {ℓ} : {A : Type ℓ} → List A → List A
reverse [] = []
reverse (x ∷ xs) = reverse xs ++ (x ∷ [])

-- `findIndex`; none is -1.
unfoldable pub find_index : List Bytes → Bytes → Option ℕ
find_index [] h = none
find_index (x ∷ xs) h =
    let rest = find_index xs h in if bytes_eq x h then some 0 else rest >>= (λ i. some (suc i))

-- All but the last element, `slice(0, -1)`.
abbrev pub but_last {ℓ} : {A : Type ℓ} → List A → List A
but_last [] = []
but_last (x ∷ []) = []
but_last (x ∷ y ∷ ys) = x ∷ but_last (y ∷ ys)

-- The pool without an authorizer. For one that is not there, the index -1 cuts the last element
-- off, and the whole pool follows.
unfoldable pub without : List Bytes → Bytes → List Bytes
without pool h = elim (find_index pool h) [
  | none ↦ but_last pool ++ pool
  | some index ↦ take index pool ++ drop (suc index) pool
]

-- The pool of a core after a block, for the authorizer of the report that the block guarantees on it;
-- `AUTHPOOL_SIZE` is 8.
unfoldable pub next_pool : List Bytes → Bytes → Option Bytes → List Bytes
next_pool pool from_queue none = reverse (take 8 (reverse (pool ++ (from_queue ∷ []))))
next_pool pool from_queue (some h) =
    reverse (take 8 (reverse (without pool h ++ (from_queue ∷ []))))

abbrev pub authorizer : Option WorkReport → Option Bytes
authorizer none = none
authorizer (some report) = some report.authorizer_hash

-- `toPosterior`, from a core on; `AUTHQUEUE_MAX_SIZE` is 80. A queue has that many elements for every
-- core, where the source goes on with `undefined` the model stops.
unfoldable pub next_pools :
    ℕ → List WorkReport → List (List Bytes) → ℕ → List (List Bytes) → Option (List (List Bytes))
next_pools core guaranteed p_queue p_tau [] = some []
next_pools core guaranteed p_queue p_tau (pool ∷ pools) = do
  queue ← get_elem? p_queue core
  from_queue ← get_elem? queue (p_tau % 80)
  rest ← next_pools (suc core) guaranteed p_queue p_tau pools
  some (next_pool pool from_queue (authorizer (element_for_core guaranteed core)) ∷ rest)
