-- ===== src/MerkleTree/Types.antt =====
-- The data of mt-manager/merkletree/tree.go and types.go: what a tree asks of its items
-- (`Hashable`), Blake3, and the nodes.
use onchain_exchange_homewor.Prelude.{
  ℕ, Bool, true, false, ◌&&◌, List, [], ◌∷◌, ◌==◌, replicate, ◌≡◌, arith, refl,
}
use Prim.Native.String.{String}
use Prim.Native.Char.{code}

-- A hash is its bytes.
abbrev pub Hash : Type 0
Hash = List ℕ

-- `[32]byte{}`
abbrev pub zero_hash : Hash
zero_hash = replicate 32 0

-- `Hashable`, with Go's zero value of the item type, and the function `blake3.Sum256`.
pub record Hashable (T : Type 0) : Type 0 where
  pub hash : T → Hash
  pub key : T → List ℕ
  pub id : T → ℕ
  pub zero_value : T
  pub blake3 : List ℕ → Hash

abbrev pub bytes_of : String → List ℕ
bytes_of String.[] = []
bytes_of (String.◌∷◌ c s) = code c ∷ bytes_of s

-- `DeletedNodeHash`
unfoldable pub deleted_node_hash : {T : Type 0} → Hashable T → Hash
deleted_node_hash hashable = hashable.blake3 (bytes_of "__DELETED_NODE__")

-- `==` on arrays.
unfoldable pub bytes_eq : List ℕ → List ℕ → Bool
bytes_eq [] [] = true
bytes_eq [] (y ∷ ys) = false
bytes_eq (x ∷ xs) [] = false
bytes_eq (x ∷ xs) (y ∷ ys) = x == y && bytes_eq xs ys

-- The fields of a `Node` but for its children.
pub record Cell (T : Type 0) : Type 0 where
  pub hash : Hash
  pub value : T
  pub is_leaf : Bool
  pub dirty : Bool

-- A `Node`: `Keys` and `Children` are one list of keys with children, in the order of insertion.
mutual
  pub data Node (T : Type 0) : Type 0 where
    node : Cell T → Children T → Node T

  pub data Children (T : Type 0) : Type 0 where
    none_left : Children T
    child : ℕ → Node T → Children T → Children T

module _ {T : Type 0} where
  abbrev pub empty_cell : Hashable T → Cell T
  empty_cell hashable = record {
    hash = zero_hash;
    value = hashable.zero_value;
    is_leaf = false;
    dirty = false;
  }

  -- A node from the arena.
  unfoldable pub alloc : Hashable T → Node T
  alloc hashable = node (empty_cell hashable) none_left

  abbrev pub cell : Node T → Cell T
  cell (node c kids) = c

  abbrev pub children : Node T → Children T
  children (node c kids) = kids

pub bytes_eq_refl : (xs : List ℕ) → bytes_eq xs xs ≡ true
unfolding bytes_eq
bytes_eq_refl [] = refl
bytes_eq_refl (x ∷ xs) = ground (arith, bytes_eq_refl xs)
