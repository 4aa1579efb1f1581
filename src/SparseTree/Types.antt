-- ===== src/SparseTree/Types.antt =====
-- The data of smt-v3/smt.go: nodes, pairs of a batch, errors, and the `MemoryStore`. A node's bytes
-- are read and written through its fields: the type, the bitmap and the hashes of the children that
-- it marks, or the key and the value.
use onchain_exchange_homewor.Prelude.{
  ℕ, Bool, Option, none, some, List, [], ◌∷◌, if◌then◌else◌, replicate,
}
use onchain_exchange_homewor.MerkleTree.Types.{Hash, bytes_eq}

-- `EmptyHash`
abbrev pub empty_hash : Hash
empty_hash = replicate 32 0

-- A node that is stored.
pub data Node : Type 0 where
  internal : List Bool → List Hash → Node
  leaf : List ℕ → List ℕ → Node

-- `kv`; a value of `none` is nil, which deletes.
pub record Pair : Type 0 where
  pub k : List ℕ
  pub v : Option (List ℕ)

-- The errors; `panic` is an index out of range.
pub data SmtError : Type 0 where
  not_found : SmtError
  key_deleted : SmtError
  key_not_found : SmtError
  shortcut_mismatch : SmtError
  branch_empty : SmtError
  panic : SmtError

pub data Result (A : Type 0) : Type 0 where
  ok : A → Result A
  err : SmtError → Result A

-- A value that was read, or none.
abbrev pub value_of : {A : Type 0} → Result A → Option A
value_of (ok a) = some a
value_of (err e) = none

-- A Go map whose keys are bytes.
abbrev pub BytesMap {ℓ} : Type ℓ → Type ℓ
BytesMap V = List (List ℕ × V)

module _ {ℓ} {V : Type ℓ} where
  abbrev pub find : List ℕ → BytesMap V → Option V
  find h [] = none
  find h ((i, n) ∷ m) = if bytes_eq i h then some n else find h m

  abbrev pub put : List ℕ → V → BytesMap V → BytesMap V
  put h n [] = (h, n) ∷ []
  put h n ((i, w) ∷ m) = if bytes_eq i h then (h, n) ∷ m else (i, w) ∷ put h n m

  -- `delete(m, k)`
  abbrev pub delete_key : List ℕ → BytesMap V → BytesMap V
  delete_key k [] = []
  delete_key k ((i, w) ∷ m) = if bytes_eq i k then delete_key k m else (i, w) ∷ delete_key k m

-- `MemoryStore`
abbrev pub Store : Type 0
Store = BytesMap Node

-- `Get` of the store, and `loadNode` without a cache.
unfoldable pub load_node : Store → Hash → Result Node
load_node st h = elim (find h st) [ none ↦ err not_found | some n ↦ ok n ]

-- A step that writes to the store.
abbrev pub Run : Type 0 → Type 0
Run A = Store → Result A × Store

abbrev pub pure : {A : Type 0} → A → Run A
pure a st = (ok a, st)

abbrev pub raise : {A : Type 0} → SmtError → Run A
raise e st = (err e, st)

abbrev pub continue : {A B : Type 0} → Result A × Store → (A → Run B) → Result B × Store
continue (ok a, st) f = f a st
continue (err e, st) f = (err e, st)

infixl 5 ◌>>=◌
abbrev pub ◌>>=◌ : {A B : Type 0} → Run A → (A → Run B) → Run B
◌>>=◌ m f st = continue (m st) f
