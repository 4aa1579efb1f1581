-- ===== src/SparseTree/Tree/Held.antt =====
-- The keys that a tree of smt-v3/smt.go holds below a root.
use onchain_exchange_homewor.Prelude.{
  ℕ, zero, suc, ◌+◌, ◌<◌, Bool, false, some, List, [], ◌∷◌, ◌++◌, length, length-append, get_or,
  ◌≡◌, ◌≢◌, inl, inr, refl, sym, ap, ◌∙◌,
}
use mathlib.Core.Option.{some-injective}
use onchain_exchange_homewor.MerkleTree.Types.{Hash, bytes_eq, bytes_eq_refl}
use onchain_exchange_homewor.SparseTree.Types.{Node, leaf, internal, empty_hash, Store, find}
use onchain_exchange_homewor.SparseTree.Nodes.{node_of, byte_at}
use onchain_exchange_homewor.SparseTree.Nodes.Stored.{Below, IsStored, value_at}
use onchain_exchange_homewor.SparseTree.Nodes.Reads.{
  Below-back, IsCollisionFree, IsContent, not_both, not-empty_hash, value_at-leaf, value_at-node_of,
}

module _ (node_hash : Node → Hash) (free : IsCollisionFree node_hash) where
  -- A key with a value.
  abbrev pub Held : ℕ → List ℕ → Store → Hash → Type 0
  Held levels path st root =
      (key : List ℕ) × (v : List ℕ) × Below path levels key
      × (value_at levels st root key (length path) ≡ some v)

  -- A key of a child is a key of the node.
  pub child_value :
      (levels : ℕ) (path : List ℕ) (st : Store) (root : Hash) (cs : List Hash) (i : ℕ)
      (key : List ℕ)
      → IsContent node_hash st
      → find root st ≡ some (node_of cs)
      → i < 256
      → Below (path ++ (i ∷ [])) levels key
      → value_at (suc levels) st root key (length path)
        ≡ value_at levels st (get_or cs i empty_hash) key (length (path ++ (i ∷ [])))
  child_value levels path st root cs i key content at small below =
      value_at-node_of node_hash free levels st root key (length path) cs content at
      ∙ ap (λ j. value_at levels st (get_or cs j empty_hash) key (length path + 1))
          (Below-back path levels i key small below).0
      ∙ ap (value_at levels st (get_or cs i empty_hash) key) (sym (length-append path (i ∷ [])))

  lift :
      (levels : ℕ) (path : List ℕ) (st : Store) (root : Hash) (cs : List Hash) (i : ℕ)
      → IsContent node_hash st
      → find root st ≡ some (node_of cs)
      → i < 256
      → Held levels (path ++ (i ∷ [])) st (get_or cs i empty_hash)
      → Held (suc levels) path st root
  lift levels path st root cs i content at small (key, v, below, e) = (
    key,
    v,
    (Below-back path levels i key small below).1,
    child_value levels path st root cs i key content at small below ∙ e,
  )

  pub leaf-Held :
      (levels : ℕ) (path : List ℕ) (st : Store) (root : Hash) (k v : List ℕ)
      → IsContent node_hash st
      → find root st ≡ some (leaf k v)
      → Below path levels k
      → Held levels path st root
  leaf-Held levels path st root k v content at below = (
    k,
    v,
    below,
    value_at-leaf node_hash free levels st root k (length path) k v content at
        ∙ rw (bytes_eq_refl k) refl,
  )

  -- What is stored holds a key, unless it is empty.
  pub held :
      (levels : ℕ) (path : List ℕ) (st : Store) (root : Hash)
      → IsContent node_hash st
      → IsStored st levels path root
      → bytes_eq root empty_hash ≡ false
      → Held levels path st root
  held zero path st root content (inl e) live = not_both root live e
  held zero path st root content (inr (k, v, at, below)) live =
      leaf-Held zero path st root k v content at below
  held (suc levels) path st root content (inl e) live = not_both root live e
  held (suc levels) path st root content (inr (inl (k, v, at, below))) live =
      leaf-Held (suc levels) path st root k v content at below
  held (suc levels) path st root content
        (inr (inr (cs, at, size, inl (i, j, away, si, sj, p, q), kids))) live =
      lift levels path st root cs i content at si
        (held levels (path ++ (i ∷ [])) st (get_or cs i empty_hash) content (kids i si) p)
  held (suc levels) path st root content
        (inr (inr (cs, at, size, inr (i, bits, hashes, si, found), kids))) live =
      lift levels path st root cs i content at si (
        held levels (path ++ (i ∷ [])) st (get_or cs i empty_hash) content (kids i si) (
          not-empty_hash node_hash free st (get_or cs i empty_hash) (internal bits hashes) content
            found))

  -- Two keys with values.
  abbrev pub Two : ℕ → List ℕ → Store → Hash → Type 0
  Two levels path st root =
      (a : Held levels path st root) × (b : Held levels path st root) × (a.0 ≢ b.0)

  pub internal-Two :
      (levels : ℕ) (path : List ℕ) (st : Store) (root : Hash) (bits : List Bool)
      (hashes : List Hash)
      → IsContent node_hash st
      → IsStored st levels path root
      → find root st ≡ some (internal bits hashes)
      → Two levels path st root
  unfolding lift
  internal-Two zero path st root bits hashes content (inl e) at =
      not_both root (not-empty_hash node_hash free st root (internal bits hashes) content at) e
  internal-Two zero path st root bits hashes content (inr (k, v, found, below)) at =
      absurd (let same = some-injective _ _ (sym found ∙ at) in cc)
  internal-Two (suc levels) path st root bits hashes content (inl e) at =
      not_both root (not-empty_hash node_hash free st root (internal bits hashes) content at) e
  internal-Two (suc levels) path st root bits hashes content (inr (inl (k, v, found, below))) at =
      absurd (let same = some-injective _ _ (sym found ∙ at) in cc)
  internal-Two (suc levels) path st root bits hashes content
        (inr (inr (cs, at, size, inl (i, j, away, si, sj, p, q), kids))) found =
      let a = held levels (path ++ (i ∷ [])) st (get_or cs i empty_hash) content (kids i si) p in
      let b = held levels (path ++ (j ∷ [])) st (get_or cs j empty_hash) content (kids j sj) q in
      (
        lift levels path st root cs i content at si a,
        lift levels path st root cs j content at sj b,
        λ same. away (
            sym (Below-back path levels i a.0 si a.2).0
            ∙ ap (byte_at (length path)) same
            ∙ (Below-back path levels j b.0 sj b.2).0),
      )
  internal-Two (suc levels) path st root bits hashes content
        (inr (inr (cs, at, size, inr (i, bs, hs, si, inner), kids))) found =
      let (a, b, away) =
        internal-Two levels (path ++ (i ∷ [])) st (get_or cs i empty_hash) bs hs content (kids i si)
          inner in
      (
        lift levels path st root cs i content at si a,
        lift levels path st root cs i content at si b,
        away,
      )
