-- ===== src/MerkleTree/Hashing/Caching.antt =====
-- The hash that a tree stands for, with nothing cached, and that `computeNodeHash` gives it.
use onchain_exchange_homewor.Prelude.{
  ℕ, Bool, true, false, List, [], ◌∷◌, ◌≡◌, if◌then◌else◌, arith, refl, Bool-cases, inl, inr, sym,
  ap, ◌∙◌,
}
use mathlib.Core.Path.{ap₂, subst}
use onchain_exchange_homewor.MerkleTree.Types.{
  Hash, zero_hash, deleted_node_hash, bytes_eq, Hashable, Cell, Node, node, Children, none_left,
  child,
}
use onchain_exchange_homewor.MerkleTree.Nodes.Paths.{is_live}
use onchain_exchange_homewor.MerkleTree.Hashing.{
  Entry, combine, is_cached, hashed, store_hash, compute_node_hash, compute_children,
}

pub bytes_eq_sound : (xs ys : List ℕ) → bytes_eq xs ys ≡ true → xs ≡ ys
unfolding bytes_eq
bytes_eq_sound [] [] h = refl
bytes_eq_sound [] (y ∷ ys) h = cc
bytes_eq_sound (x ∷ xs) [] h = cc
bytes_eq_sound (x ∷ xs) (y ∷ ys) h = ground (arith, bytes_eq_sound xs ys)

module _ {T : Type 0} (hashable : Hashable T) where
  abbrev leaf_hash : Cell T → Hash
  leaf_hash c = if is_live hashable c then hashable.hash c.value else deleted_node_hash hashable

  abbrev combine_or_zero : List Entry → Hash
  combine_or_zero [] = zero_hash
  combine_or_zero (e ∷ es) = combine hashable (e ∷ es)

  -- The hash of a node by its leaves alone.
  unfoldable mutual
    pub node_hash : Node T → Hash
    node_hash (node c kids) = if c.is_leaf then leaf_hash c else combine_or_zero (entries kids)

    pub entries : Children T → List Entry
    entries none_left = []
    entries (child k n rest) = (k, node_hash n) ∷ entries rest

  -- What is cached in a node is its hash.
  abbrev mutual
    pub IsConsistent : Node T → Type 0
    IsConsistent (node c kids) =
        AreConsistent kids × (is_cached c ≡ true → c.hash ≡ node_hash (node c kids))

    pub AreConsistent : Children T → Type 0
    AreConsistent none_left = Unit
    AreConsistent (child k n rest) = IsConsistent n × AreConsistent rest

  module _ (apart : bytes_eq (deleted_node_hash hashable) zero_hash ≡ false) where
    hashed-leaf_hash : (c : Cell T) → is_cached c ≡ false → hashable.hash c.value ≡ leaf_hash c
    unfolding is_cached
    hashed-leaf_hash c h = ground (arith, tombstone)
      where
        tombstone :
            bytes_eq c.hash (deleted_node_hash hashable) ≡ true → bytes_eq c.hash zero_hash ≡ false
        tombstone e = rw (bytes_eq_sound c.hash (deleted_node_hash hashable) e) apart

    leaf_hash-hashed :
        (c : Cell T) → leaf_hash (hashed (hashable.hash c.value) c) ≡ hashable.hash c.value
    leaf_hash-hashed c =
        ground (arith, bytes_eq_sound (hashable.hash c.value) (deleted_node_hash hashable))

    -- A hash, and a node that stands for it.
    abbrev pub IsHashed : Hash → Hash × Node T → Type 0
    IsHashed h r = (r.0 ≡ h) × IsConsistent r.1 × (node_hash r.1 ≡ h)

    store_hash-IsHashed :
        (c : Cell T) (es : List Entry) (kids : Children T)
        → c.is_leaf ≡ false
        → is_cached c ≡ false
        → AreConsistent kids
        → entries kids ≡ es
        → IsHashed (combine_or_zero es) (store_hash hashable c es kids)
    unfolding store_hash node_hash
    store_hash-IsHashed c [] kids leaf stale h e =
        (refl, (h, λ cached. cc), rw leaf (ap combine_or_zero e))
    store_hash-IsHashed c (x ∷ es) kids leaf stale h e =
        let same : combine_or_zero (entries kids) ≡ combine hashable (x ∷ es) =
          ap combine_or_zero e in
        (refl, (h, λ cached. rw leaf (sym same)), rw leaf same)

    hash_cell-IsHashed :
        (c : Cell T) (kids kids' : Children T) (es : List Entry)
        → IsConsistent (node c kids)
        → es ≡ entries kids
        → AreConsistent kids'
        → entries kids' ≡ entries kids
        → IsHashed (node_hash (node c kids)) (
            if is_cached c
            then (c.hash, node c kids)
            else if c.is_leaf
            then (hashable.hash c.value, node (hashed (hashable.hash c.value) c) kids)
            else store_hash hashable c es kids')
    unfolding node_hash
    hash_cell-IsHashed c kids kids' es h x y z = elim (Bool-cases (is_cached c)) [
      | inl cached ↦ rw cached (h.1 cached, h, refl)
      | inr stale ↦ rw stale (by_kind stale c.is_leaf refl)
    ]
      where
        by_kind :
            is_cached c ≡ false
            → (b : Bool) → c.is_leaf ≡ b
            → IsHashed (if b then leaf_hash c else combine_or_zero (entries kids)) (
                if b
                then (hashable.hash c.value, node (hashed (hashable.hash c.value) c) kids)
                else store_hash hashable c es kids')
        by_kind stale true leaf =
            let same = hashed-leaf_hash c stale in
            let again = leaf_hash-hashed c in
            (same, (h.0, λ cached. rw leaf (sym again)), rw leaf (again ∙ same))
        by_kind stale false inner =
            subst (λ h. IsHashed h (store_hash hashable c es kids')) (ap combine_or_zero x)
              (store_hash-IsHashed c es kids' inner stale y (z ∙ sym x))

    mutual
      unfolding compute_node_hash node_hash

      pub compute_node_hash-consistent :
          (n : Node T) → IsConsistent n → IsHashed (node_hash n) (compute_node_hash hashable n)
      compute_node_hash-consistent (node c kids) h =
          let (x, y, z) = compute_children-consistent kids h.0 in
          hash_cell-IsHashed c kids (compute_children hashable kids).1
            (compute_children hashable kids).0 h x y z

      compute_children-consistent :
          (kids : Children T)
          → AreConsistent kids
          → ((compute_children hashable kids).0 ≡ entries kids)
            × AreConsistent (compute_children hashable kids).1
            × (entries (compute_children hashable kids).1 ≡ entries kids)
      compute_children-consistent none_left h = (refl, tt, refl)
      compute_children-consistent (child k n rest) h =
          let (a, b, c) = compute_node_hash-consistent n h.0 in
          let (x, y, z) = compute_children-consistent rest h.1 in
          (ap₂ (λ h es. (k, h) ∷ es) a x, (b, y), ap₂ (λ h es. (k, h) ∷ es) c z)
