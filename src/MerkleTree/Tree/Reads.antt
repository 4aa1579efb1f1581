-- ===== src/MerkleTree/Tree/Reads.antt =====
-- What `Get` returns: the cache of items never disagrees with the items.
use mathlib.Core.Path.{subst}
use onchain_exchange_homewor.Prelude.{
  ℕ, ◌%◌, add64, Bool, true, false, Option, some, List, [], ◌∷◌, ◌==◌, length, if◌then◌else◌, ◌≡◌,
  refl, sym, ap, ◌∙◌, arith, Bool-cases, Option-cases, inl, inr, lookup, insert, erase,
  lookup-insert, lookup-erase, Map,
}
use onchain_exchange_homewor.MerkleTree.Types.{Hashable}
use onchain_exchange_homewor.MerkleTree.Cache.{Cache}
use onchain_exchange_homewor.MerkleTree.Tree.{
  Config, Tree, new, store_item, store_items, place_item, place_items, insert_item, insert_stored,
  insert_batch, drop_item, drop_items, clear_item, clear_items, delete_item, delete_batch,
  clear_tree, compute_root, get,
}
use onchain_exchange_homewor.MerkleTree.Tree.Steps.{
  Step, inserted, batch_inserted, deleted, batch_deleted, cleared, computed, read, Reach, started,
  called,
}
use onchain_exchange_homewor.MerkleTree.Tree.Steps.{insert_batch-cases}

module _ {T : Type 0} (hashable : Hashable T) (cache : Cache T) where
  open cache use {State, put, try_get, delete as cache_delete}

  -- What the cache finds is the item of the ID.
  abbrev Agree : Map T → State → Type 0
  Agree items c = (id : ℕ) (x : T) → try_get id c ≡ some x → lookup id items ≡ some x

  abbrev IsCoherent : Tree T State → Type 0
  IsCoherent t = Agree t.items t.cache

  put-Agree :
      (id : ℕ) (item : T) (items : Map T) (c : State)
      → Agree items c
      → Agree (insert id item items) (put id item c)
  put-Agree id item items c h j x e = elim (cache.try_get-put id j item x c e) [
    | inl (same, value) ↦ lookup-insert id j item items ∙ ground (arith, same, value)
    | inr (other, there) ↦
        let kept : lookup j items ≡ some x = h j x there in
        lookup-insert id j item items ∙ ground (arith, other, kept)
  ]

  renew-Agree :
      (id : ℕ) (item : T) (items : Map T) (c : State)
      → lookup id items ≡ some item
      → Agree items c
      → Agree items (put id item c)
  renew-Agree id item items c there h j x e = elim (cache.try_get-put id j item x c e) [
    | inl (same, value) ↦ subst (λ k. lookup k items ≡ some x) same (there ∙ ap some value)
    | inr (other, kept) ↦ h j x kept
  ]

  delete-Agree :
      (id : ℕ) (items : Map T) (c : State)
      → Agree items c
      → Agree (erase id items) (cache_delete id c)
  delete-Agree id items c h j x e =
      let (other, there) = cache.try_get-delete id j x c e in
      let kept : lookup j items ≡ some x = h j x there in
      lookup-erase id j items ∙ ground (arith, other, kept)

  store_items-IsCoherent :
      (items : List T) (t : Tree T State)
      → IsCoherent t
      → IsCoherent (store_items hashable cache items t)
  unfolding store_items store_item
  store_items-IsCoherent [] t h = h
  store_items-IsCoherent (item ∷ rest) t h =
      store_items-IsCoherent rest (store_item hashable cache item t)
        (put-Agree (hashable.id item) item t.items t.cache h)

  place_items-IsCoherent :
      (items : List T) (t : Tree T State)
      → IsCoherent t
      → IsCoherent (place_items hashable cache items t)
  unfolding place_items place_item
  place_items-IsCoherent [] t h = h
  place_items-IsCoherent (item ∷ rest) t h =
      place_items-IsCoherent rest (place_item hashable cache item t) h

  insert_stored-IsCoherent :
      (stored placed : List T) (t : Tree T State)
      → IsCoherent t
      → IsCoherent (insert_stored hashable cache stored placed t)
  unfolding insert_stored
  insert_stored-IsCoherent stored placed t h =
      place_items-IsCoherent placed (store_items hashable cache stored t)
        (store_items-IsCoherent stored t h)

  drop_items-IsCoherent :
      (ids : List ℕ) (t : Tree T State)
      → IsCoherent t
      → IsCoherent (drop_items hashable cache ids t).1
  unfolding drop_items drop_item
  drop_items-IsCoherent [] t h = h
  drop_items-IsCoherent (id ∷ ids) t h = elim (Option-cases (lookup id t.items)) [
    | inl e ↦ rw (e, drop_items) (drop_items-IsCoherent ids t h)
    | inr e ↦
        rw (e.1, drop_items)
          (drop_items-IsCoherent ids (drop_item hashable cache id e.0 t)
            (delete-Agree id t.items t.cache h))
  ]

  clear_items-IsCoherent :
      (items : List T) (t : Tree T State)
      → IsCoherent t
      → IsCoherent (clear_items hashable cache items t)
  unfolding clear_items clear_item
  clear_items-IsCoherent [] t h = h
  clear_items-IsCoherent (item ∷ rest) t h =
      clear_items-IsCoherent rest (clear_item hashable cache item t) h

  delete_batch-IsCoherent :
      (ids : List ℕ) (order : List T → List T) (t : Tree T State)
      → IsCoherent t
      → IsCoherent (delete_batch hashable cache ids order t).1
  unfolding delete_batch
  delete_batch-IsCoherent ids order t h =
      let t' = (drop_items hashable cache ids t).1 in
      let found = (drop_items hashable cache ids t).0 in
      let kept = drop_items-IsCoherent ids t h in
      elim (Bool-cases (length found == 0)) [
        | inl e ↦ rw e kept
        | inr e ↦ rw e (clear_items-IsCoherent (order found) t' kept)
      ]

  delete_item-IsCoherent :
      (id : ℕ) (t : Tree T State) → IsCoherent t → IsCoherent (delete_item hashable cache id t).1
  unfolding delete_item drop_item clear_item
  delete_item-IsCoherent id t h = elim (Option-cases (lookup id t.items)) [
    | inl e ↦ rw (e, delete_item) h
    | inr e ↦ rw (e.1, delete_item) (delete-Agree id t.items t.cache h)
  ]

  insert_batch-IsCoherent :
      (items stored placed : List T) (t t' : Tree T State)
      → IsCoherent t
      → insert_batch hashable cache items stored placed t ≡ some t'
      → IsCoherent t'
  insert_batch-IsCoherent items stored placed t t' h e =
      elim (insert_batch-cases hashable cache items stored placed t t' e) [
        | inl same ↦ subst IsCoherent same h
        | inr (inl same) ↦ subst IsCoherent same (insert_stored-IsCoherent items items t h)
        | inr (inr same) ↦ subst IsCoherent same (insert_stored-IsCoherent stored placed t h)
      ]

  compute_root-IsCoherent :
      (t : Tree T State) → IsCoherent t → IsCoherent (compute_root hashable cache t).1
  unfolding compute_root
  compute_root-IsCoherent t h = elim (Bool-cases t.root_cache_valid) [
    | inl e ↦ rw e h
    | inr e ↦ rw e h
  ]

  -- The item that is looked up, and a tree that is still coherent.
  abbrev Looks : ℕ → Tree T State → Option T × Tree T State → Type 0
  Looks id t r = (r.0 ≡ lookup id t.items) × IsCoherent r.1

  get-Looks : (id : ℕ) (t : Tree T State) → IsCoherent t → Looks id t (get hashable cache id t)
  unfolding get
  get-Looks id t h = elim (Option-cases (try_get id t.cache)) [
    | inl miss ↦ elim (Option-cases (lookup id t.items)) [
      | inl e ↦ rw (miss, get) (rw (e, get) (refl, h))
      | inr e ↦ rw (miss, get) (rw (e.1, get) (refl, renew-Agree id e.0 t.items t.cache e.1 h))
    ]
    | inr hit ↦
        let there = h id hit.0 hit.1 in
        rw (hit.1, get) (sym there, renewed hit.0 there (add64 t.get_count 1 % 100 == 0))
  ]
    where
      renewed :
          (item : T)
          → lookup id t.items ≡ some item
          → (b : Bool)
          → IsCoherent (
              if b
              then record t { cache = put id item t.cache; get_count = add64 t.get_count 1 }
              else record t { get_count = add64 t.get_count 1 })
      renewed item there true = renew-Agree id item t.items t.cache there h
      renewed item there false = h

  Step-IsCoherent : {t t' : Tree T State} → Step hashable cache t t' → IsCoherent t → IsCoherent t'
  unfolding insert_item store_item place_item clear_tree
  Step-IsCoherent (inserted item t) h = put-Agree (hashable.id item) item t.items t.cache h
  Step-IsCoherent (batch_inserted items stored placed t t' p p' e) h =
      insert_batch-IsCoherent items stored placed t t' h e
  Step-IsCoherent (deleted id t) h = delete_item-IsCoherent id t h
  Step-IsCoherent (batch_deleted ids order t p) h = delete_batch-IsCoherent ids order t h
  Step-IsCoherent (cleared t) h = λ id x e. let none_there = cache.try_get-empty id in cc
  Step-IsCoherent (computed t) h = compute_root-IsCoherent t h
  Step-IsCoherent (read id t) h = (get-Looks id t h).1

  Reach-IsCoherent : {cfg : Config} {t : Tree T State} → Reach hashable cache cfg t → IsCoherent t
  unfolding new
  Reach-IsCoherent started = λ id x e. let none_there = cache.try_get-empty id in cc
  Reach-IsCoherent (called r s) = Step-IsCoherent s (Reach-IsCoherent r)

  -- After any calls on a new tree, `Get` returns what the map of items has for the ID, whether it
  -- finds it in the cache of items or not.
  pub get-lookup :
      {cfg : Config} {t : Tree T State} (id : ℕ)
      → Reach hashable cache cfg t
      → (get hashable cache id t).0 ≡ lookup id t.items
  get-lookup {t = t} id r = (get-Looks id t (Reach-IsCoherent r)).0
