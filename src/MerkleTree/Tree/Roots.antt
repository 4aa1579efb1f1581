-- ===== src/MerkleTree/Tree/Roots.antt =====
-- The root that `ComputeRoot` returns is that of the leaves, whatever was called before.
use mathlib.Core.Path.{subst}
use onchain_exchange_homewor.Prelude.{
  ◌%◌, add64, ℕ, Bool, true, false, some, List, [], ◌∷◌, ◌==◌, length, if◌then◌else◌, ◌≡◌, refl,
  sym, ◌∙◌, Bool-cases, Option-cases, inl, inr, lookup,
}
use onchain_exchange_homewor.MerkleTree.Types.{
  Hash, zero_hash, deleted_node_hash, bytes_eq, Hashable,
}
use onchain_exchange_homewor.MerkleTree.Cache.{Cache}
use onchain_exchange_homewor.MerkleTree.Hashing.{compute_node_hash}
use onchain_exchange_homewor.MerkleTree.Hashing.Caching.{
  node_hash, IsConsistent, compute_node_hash-consistent,
}
use onchain_exchange_homewor.MerkleTree.Hashing.Upkeep.{
  alloc-IsConsistent, insert_node-IsConsistent, delete_node-IsConsistent,
}
use onchain_exchange_homewor.MerkleTree.Tree.{
  Config, Tree, new, store_items, place_item, place_items, insert_item, insert_stored, insert_batch,
  drop_item, drop_items, clear_item, clear_items, delete_item, delete_batch, clear_tree,
  compute_root, get,
}
use onchain_exchange_homewor.MerkleTree.Tree.Steps.{
  insert_batch-cases, Step, inserted, batch_inserted, deleted, batch_deleted, cleared, computed,
  read, Reach, started, called,
}

module _ {T : Type 0} (hashable : Hashable T) (cache : Cache T)
    (apart : bytes_eq (deleted_node_hash hashable) zero_hash ≡ false) where
  open cache use {State}

  -- What is cached in the nodes and for the root is true.
  pub record IsRooted (t : Tree T State) : Type 0 where
    pub nodes : IsConsistent hashable t.root
    pub whole : t.root_cache_valid ≡ true → t.cached_root ≡ node_hash hashable t.root

  new-IsRooted : (cfg : Config) → IsRooted (new hashable cache cfg)
  unfolding new
  new-IsRooted cfg = record { nodes = alloc-IsConsistent hashable; whole = λ h. cc }

  place_items-nodes :
      (items : List T) (t : Tree T State)
      → IsConsistent hashable t.root
      → IsConsistent hashable (place_items hashable cache items t).root
  unfolding place_items
  place_items-nodes [] t h = h
  place_items-nodes (item ∷ rest) t h =
      place_items-nodes rest (place_item hashable cache item t)
        (insert_node-IsConsistent hashable _ 0 item t.root h)

  store_items-root :
      (items : List T) (t : Tree T State) → (store_items hashable cache items t).root ≡ t.root
  unfolding store_items
  store_items-root [] t = refl
  store_items-root (item ∷ rest) t = store_items-root rest _

  insert_stored-IsRooted :
      (stored placed : List T) (t : Tree T State)
      → IsRooted t
      → IsRooted (insert_stored hashable cache stored placed t)
  unfolding insert_stored
  insert_stored-IsRooted stored placed t h = record {
    nodes =
        place_items-nodes placed (store_items hashable cache stored t)
          (subst (IsConsistent hashable) (sym (store_items-root stored t)) h.nodes);
    whole = λ valid. cc;
  }

  insert_batch-IsRooted :
      (items stored placed : List T) (t t' : Tree T State)
      → IsRooted t
      → insert_batch hashable cache items stored placed t ≡ some t'
      → IsRooted t'
  insert_batch-IsRooted items stored placed t t' h e =
      elim (insert_batch-cases hashable cache items stored placed t t' e) [
        | inl same ↦ subst IsRooted same h
        | inr (inl same) ↦ subst IsRooted same (insert_stored-IsRooted items items t h)
        | inr (inr same) ↦ subst IsRooted same (insert_stored-IsRooted stored placed t h)
      ]

  clear_items-nodes :
      (items : List T) (t : Tree T State)
      → IsConsistent hashable t.root
      → IsConsistent hashable (clear_items hashable cache items t).root
  unfolding clear_items
  clear_items-nodes [] t h = h
  clear_items-nodes (item ∷ rest) t h =
      clear_items-nodes rest (clear_item hashable cache item t)
        (delete_node-IsConsistent hashable _ 0 item t.root h)

  drop_items-IsRooted :
      (ids : List ℕ) (t : Tree T State) → IsRooted t → IsRooted (drop_items hashable cache ids t).1
  unfolding drop_items drop_item
  drop_items-IsRooted [] t h = h
  drop_items-IsRooted (id ∷ ids) t h = elim (Option-cases (lookup id t.items)) [
    | inl e ↦ rw (e, drop_items) (drop_items-IsRooted ids t h)
    | inr e ↦
        rw (e.1, drop_items)
          (drop_items-IsRooted ids (drop_item hashable cache id e.0 t)
            (record { nodes = h.nodes; whole = h.whole }))
  ]

  delete_batch-IsRooted :
      (ids : List ℕ) (order : List T → List T) (t : Tree T State)
      → IsRooted t
      → IsRooted (delete_batch hashable cache ids order t).1
  unfolding delete_batch
  delete_batch-IsRooted ids order t h =
      let t' = (drop_items hashable cache ids t).1 in
      let found = (drop_items hashable cache ids t).0 in
      let kept = drop_items-IsRooted ids t h in
      elim (Bool-cases (length found == 0)) [
        | inl e ↦ rw e kept
        | inr e ↦
            rw e (record {
              nodes = clear_items-nodes (order found) t' kept.nodes;
              whole = λ valid. cc;
            })
      ]

  delete_item-IsRooted :
      (id : ℕ) (t : Tree T State) → IsRooted t → IsRooted (delete_item hashable cache id t).1
  unfolding delete_item drop_item clear_item
  delete_item-IsRooted id t h = elim (Option-cases (lookup id t.items)) [
    | inl e ↦ rw (e, delete_item) h
    | inr e ↦
        rw (e.1, delete_item)
          (record {
            nodes = delete_node-IsConsistent hashable _ 0 e.0 t.root h.nodes;
            whole = λ valid. cc;
          })
  ]

  -- The root of a tree, and a tree with the same leaves.
  abbrev IsRootOf : Tree T State → Hash × Tree T State → Type 0
  IsRootOf t r =
      (r.0 ≡ node_hash hashable t.root)
      × IsRooted r.1
      × (node_hash hashable r.1.root ≡ node_hash hashable t.root)

  compute_root-IsRooted :
      (t : Tree T State) → IsRooted t → IsRootOf t (compute_root hashable cache t)
  unfolding compute_root
  compute_root-IsRooted t h = choose t.root_cache_valid refl
    where
      choose :
          (b : Bool)
          → t.root_cache_valid ≡ b
          → IsRootOf t (
              if b then (t.cached_root, t) else (
                (compute_node_hash hashable t.root).0,
                record t {
                  root = (compute_node_hash hashable t.root).1;
                  cached_root = (compute_node_hash hashable t.root).0;
                  root_cache_valid = true;
                },
              ))
      choose true valid = (h.whole valid, h, refl)
      choose false stale =
          let (same, nodes, kept) = compute_node_hash-consistent hashable apart t.root h.nodes in
          (same, record { nodes = nodes; whole = λ _. same ∙ sym kept }, kept)

  get-IsRooted : (id : ℕ) (t : Tree T State) → IsRooted t → IsRooted (get hashable cache id t).1
  unfolding get
  get-IsRooted id t h = elim (Option-cases (cache.try_get id t.cache)) [
    | inl miss ↦ elim (Option-cases (lookup id t.items)) [
      | inl e ↦ rw (miss, get) (rw (e, get) (record { nodes = h.nodes; whole = h.whole }))
      | inr e ↦ rw (miss, get) (rw (e.1, get) (record { nodes = h.nodes; whole = h.whole }))
    ]
    | inr hit ↦ rw (hit.1, get) (renewed hit.0)
  ]
    where
      renewed :
          (item : T)
          → IsRooted (
              if add64 t.get_count 1 % 100 == 0
              then record t { cache = cache.put id item t.cache; get_count = add64 t.get_count 1 }
              else record t { get_count = add64 t.get_count 1 })
      renewed item = elim (Bool-cases (add64 t.get_count 1 % 100 == 0)) [
        | inl e ↦ rw e (record { nodes = h.nodes; whole = h.whole })
        | inr e ↦ rw e (record { nodes = h.nodes; whole = h.whole })
      ]

  Step-IsRooted : {t t' : Tree T State} → Step hashable cache t t' → IsRooted t → IsRooted t'
  unfolding insert_item clear_tree
  Step-IsRooted (inserted item t) h = record {
    nodes = insert_node-IsConsistent hashable _ 0 item t.root h.nodes;
    whole = λ valid. cc;
  }
  Step-IsRooted (batch_inserted items stored placed t t' p p' e) h =
      insert_batch-IsRooted items stored placed t t' h e
  Step-IsRooted (deleted id t) h = delete_item-IsRooted id t h
  Step-IsRooted (batch_deleted ids order t p) h = delete_batch-IsRooted ids order t h
  Step-IsRooted (cleared t) h = record { nodes = alloc-IsConsistent hashable; whole = λ valid. cc }
  Step-IsRooted (computed t) h = (compute_root-IsRooted t h).1
  Step-IsRooted (read id t) h = get-IsRooted id t h

  Reach-IsRooted : {cfg : Config} {t : Tree T State} → Reach hashable cache cfg t → IsRooted t
  Reach-IsRooted {cfg} started = new-IsRooted cfg
  Reach-IsRooted (called r s) = Step-IsRooted s (Reach-IsRooted r)

  -- After any calls on a new tree, `ComputeRoot` returns the hash that the leaves give, whatever is
  -- cached in the nodes and for the root; and it leaves a tree whose leaves give the same hash. This
  -- holds if the hash of deleted nodes is not the zero array.
  pub compute_root-node_hash :
      {cfg : Config} {t : Tree T State}
      → Reach hashable cache cfg t
      → ((compute_root hashable cache t).0 ≡ node_hash hashable t.root)
        × (node_hash hashable (compute_root hashable cache t).1.root ≡ node_hash hashable t.root)
  compute_root-node_hash {t = t} r =
      let (same, _, kept) = compute_root-IsRooted t (Reach-IsRooted r) in (same, kept)
