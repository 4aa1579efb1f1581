-- ===== src/SparseTree/Nodes/Reads.antt =====
-- `get`, `storeLeaf` and `storeInternal` of smt-v3/smt.go, for a hash without collisions: what a root
-- gives for a key, and the store after a write.
use onchain_exchange_homewor.Prelude.{
  ℕ, zero, suc, ◌+◌, ◌<◌, false, none, some, List, [], ◌∷◌, ◌++◌, if◌then◌else◌, get_or, length,
  length-append, ◌≡◌, inl, inr, refl, sym, ap, ◌∙◌, arith, Bool-cases,
}
use mathlib.Core.Path.{subst}
use mathlib.Core.Option.{some-injective}
use onchain_exchange_homewor.MerkleTree.Types.{Hash, bytes_eq, bytes_eq_refl}
use onchain_exchange_homewor.MerkleTree.Hashing.Caching.{bytes_eq_sound}
use onchain_exchange_homewor.SparseTree.Types.{empty_hash, Node, leaf, find, put, Store, load_node}
use onchain_exchange_homewor.SparseTree.Nodes.{node_of, byte_at, get_at}
use onchain_exchange_homewor.SparseTree.Nodes.Stored.{
  Below, Extends, IsStored, value_at, find-put_same, find-put_other, at_child-node_of,
}

pub byte_at-append : (path rest : List ℕ) (b : ℕ) → byte_at (length path) (path ++ (b ∷ rest)) ≡ b
byte_at-append [] rest b = refl
byte_at-append (x ∷ path) rest b = byte_at-append path rest b

pub append_snoc : (path rest : List ℕ) (b : ℕ) → path ++ (b ∷ rest) ≡ (path ++ (b ∷ [])) ++ rest
append_snoc [] rest b = refl
append_snoc (x ∷ path) rest b = ap (◌∷◌ x) (append_snoc path rest b)

-- The next byte of a key is one, and the key is below the child for it.
pub Below-next :
    (path : List ℕ) (levels : ℕ) (key : List ℕ)
    → Below path (suc levels) key
    → (byte_at (length path) key < 256)
      × Below (path ++ (byte_at (length path) key ∷ [])) levels key
Below-next path levels key ([], e, n, small) = absurd (omega arith)
Below-next path levels key (b ∷ rest, e, n, small) =
    let byte = ap (byte_at (length path)) e ∙ byte_at-append path rest b in
    rw byte (small.0, (rest, e ∙ append_snoc path rest b, omega arith, small.1))

-- A key below a child is below the node, and its byte leads to the child.
pub Below-back :
    (path : List ℕ) (levels i : ℕ) (key : List ℕ)
    → i < 256
    → Below (path ++ (i ∷ [])) levels key
    → (byte_at (length path) key ≡ i) × Below path (suc levels) key
Below-back path levels i key small (rest, e, n, bytes) =
    let same = e ∙ sym (append_snoc path rest i) in
    (
      ap (byte_at (length path)) same ∙ byte_at-append path rest i,
      (i ∷ rest, same, omega arith, (small, bytes)),
    )

same_key :
    (st : Store) (root : Hash) (j k w v : List ℕ)
    → find root st ≡ some (leaf j w)
    → find root st ≡ some (leaf k v)
    → j ≡ k
same_key st root j k w v a b = let same = some-injective _ _ (sym a ∙ b) in cc

pub not_both {ℓ} : {A : Type ℓ} (h : Hash) → bytes_eq h empty_hash ≡ false → h ≡ empty_hash → A
not_both h live e = absurd (
    let f = sym (ap (λ i. bytes_eq i empty_hash) e) ∙ live in
    let r = bytes_eq_refl empty_hash in cc)

-- No two nodes have a hash in common, and none has that of the empty tree.
pub record IsCollisionFree (node_hash : Node → Hash) : Type 0 where
  pub same_node : (n m : Node) → node_hash n ≡ node_hash m → n ≡ m
  pub not_empty : (n : Node) → bytes_eq (node_hash n) empty_hash ≡ false

pub value_at-empty_hash :
    (levels : ℕ) (st : Store) (key : List ℕ) (depth : ℕ)
    → value_at levels st empty_hash key depth ≡ none
unfolding get_at bytes_eq
value_at-empty_hash zero st key depth = refl
value_at-empty_hash (suc levels) st key depth = refl

module _ (node_hash : Node → Hash) where
  -- Every node is stored under its hash.
  abbrev pub IsContent : Store → Type 0
  IsContent st = (h : Hash) (n : Node) → find h st ≡ some n → h ≡ node_hash n

  module _ (free : IsCollisionFree node_hash) where
    pub not-empty_hash :
        (st : Store) (root : Hash) (n : Node)
        → IsContent st
        → find root st ≡ some n
        → bytes_eq root empty_hash ≡ false
    not-empty_hash st root n content at = rw (content root n at) (free.not_empty n)

    pub value_at-leaf :
        (levels : ℕ) (st : Store) (root : Hash) (key : List ℕ) (depth : ℕ) (k v : List ℕ)
        → IsContent st
        → find root st ≡ some (leaf k v)
        → value_at levels st root key depth ≡ (if bytes_eq k key then some v else none)
    unfolding get_at load_node
    value_at-leaf zero st root key depth k v content at =
        let e = not-empty_hash st root (leaf k v) content at in rw (e, at) (ground arith)
    value_at-leaf (suc levels) st root key depth k v content at =
        let e = not-empty_hash st root (leaf k v) content at in rw (e, at) (ground arith)

    pub value_at-node_of :
        (levels : ℕ) (st : Store) (root : Hash) (key : List ℕ) (depth : ℕ) (cs : List Hash)
        → IsContent st
        → find root st ≡ some (node_of cs)
        → value_at (suc levels) st root key depth
          ≡ value_at levels st (get_or cs (byte_at depth key) empty_hash) key (depth + 1)
    unfolding get_at load_node node_of
    value_at-node_of levels st root key depth cs content at =
        let e = not-empty_hash st root (node_of cs) content at in
        let child = get_or cs (byte_at depth key) empty_hash in
        rw (e, at)
          (rw (at_child-node_of (λ c. get_at levels st c key (depth + 1)) cs (byte_at depth key))
            (elim (Bool-cases (bytes_eq child empty_hash)) [
              | inl f ↦ rw f (
                  sym (
                    ap (λ c. value_at levels st c key (depth + 1))
                      (bytes_eq_sound child empty_hash f)
                    ∙ value_at-empty_hash levels st key (depth + 1)))
              | inr f ↦ rw f refl
            ]))

    -- The key of a leaf that is stored below a path.
    pub leaf-Below :
        (st : Store) (levels : ℕ) (path : List ℕ) (root : Hash) (k v : List ℕ)
        → IsContent st
        → find root st ≡ some (leaf k v)
        → IsStored st levels path root
        → Below path levels k
    unfolding node_of
    leaf-Below st zero path root k v c at (inl e) =
        not_both root (not-empty_hash st root (leaf k v) c at) e
    leaf-Below st zero path root k v c at (inr (j, w, found, below)) =
        subst (Below path zero) (same_key st root j k w v found at) below
    leaf-Below st (suc levels) path root k v c at (inl e) =
        not_both root (not-empty_hash st root (leaf k v) c at) e
    leaf-Below st (suc levels) path root k v c at (inr (inl (j, w, found, below))) =
        subst (Below path (suc levels)) (same_key st root j k w v found at) below
    leaf-Below st (suc levels) path root k v c at (inr (inr (cs, found, size, branching, kids))) =
        absurd (let same = some-injective _ _ (sym at ∙ found) in cc)

    pub value_at-Extends :
        (levels : ℕ) (st new : Store) (path : List ℕ) (root key : Hash)
        → IsContent st
        → IsContent new
        → Extends st new
        → IsStored st levels path root
        → Below path levels key
        → value_at levels new root key (length path) ≡ value_at levels st root key (length path)
    value_at-Extends zero st new path root key c d more (inl e) below = rw e (
        value_at-empty_hash zero new key (length path)
        ∙ sym (value_at-empty_hash zero st key (length path)))
    value_at-Extends zero st new path root key c d more (inr (k, v, at, b)) below =
        value_at-leaf zero new root key (length path) k v d (more root (leaf k v) at)
        ∙ sym (value_at-leaf zero st root key (length path) k v c at)
    value_at-Extends (suc levels) st new path root key c d more (inl e) below = rw e (
        value_at-empty_hash (suc levels) new key (length path)
        ∙ sym (value_at-empty_hash (suc levels) st key (length path)))
    value_at-Extends (suc levels) st new path root key c d more (inr (inl (k, v, at, b))) below =
        value_at-leaf (suc levels) new root key (length path) k v d (more root (leaf k v) at)
        ∙ sym (value_at-leaf (suc levels) st root key (length path) k v c at)
    value_at-Extends (suc levels) st new path root key c d more
          (inr (inr (cs, at, n, branching, kids))) below =
        let (small, next) = Below-next path levels key below in
        let i = byte_at (length path) key in
        let child = get_or cs i empty_hash in
        let ih =
          value_at-Extends levels st new (path ++ (i ∷ [])) child key c d more (kids i small)
            next in
        value_at-node_of levels new root key (length path) cs d (more root (node_of cs) at)
        ∙ subst (λ n. value_at levels new child key n ≡ value_at levels st child key n)
            (length-append path (i ∷ [])) ih
        ∙ sym (value_at-node_of levels st root key (length path) cs c at)

    pub put-IsContent : (n : Node) (st : Store) → IsContent st → IsContent (put (node_hash n) n st)
    put-IsContent n st content h m at = elim (Bool-cases (bytes_eq (node_hash n) h)) [
      | inl e ↦
          sym (bytes_eq_sound (node_hash n) h e)
          ∙ ap node_hash (some-injective n m (sym (find-put_same (node_hash n) h n st e) ∙ at))
      | inr e ↦ content h m (sym (find-put_other (node_hash n) h n st e) ∙ at)
    ]

    pub put-Extends : (n : Node) (st : Store) → IsContent st → Extends st (put (node_hash n) n st)
    put-Extends n st content h m at = elim (Bool-cases (bytes_eq (node_hash n) h)) [
      | inl e ↦
          find-put_same (node_hash n) h n st e
          ∙ ap some (free.same_node n m (bytes_eq_sound (node_hash n) h e ∙ content h m at))
      | inr e ↦ find-put_other (node_hash n) h n st e ∙ at
    ]

pub find-put_here :
    {V : Type 0} (h : Hash) (n : V) (st : List (Hash × V)) → find h (put h n st) ≡ some n
find-put_here h n st = find-put_same h h n st (bytes_eq_refl h)
