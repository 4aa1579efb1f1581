-- ===== src/MerkleTree/Tree/Answers.antt =====
-- What `Get` returns after `Insert` and after `Delete`.
use mathlib.Core.Path.{subst}
use onchain_exchange_homewor.Prelude.{
  ℕ, Bool, true, false, Option, none, some, ◌==◌, if◌then◌else◌, ◌≡◌, refl, sym, ap, ◌∙◌, arith,
  Bool-cases, Option-cases, inl, inr, lookup, lookup-insert, lookup-erase,
}
use onchain_exchange_homewor.MerkleTree.Types.{Hashable}
use onchain_exchange_homewor.MerkleTree.Cache.{Cache}
use onchain_exchange_homewor.MerkleTree.Tree.{
  Config, Tree, store_item, place_item, insert_item, drop_item, clear_item, delete_item, get,
}
use onchain_exchange_homewor.MerkleTree.Tree.Steps.{inserted, deleted, Reach, called}
use onchain_exchange_homewor.MerkleTree.Tree.Reads.{get-lookup}

abbrev pub is_some : {A : Type 0} → Option A → Bool
is_some none = false
is_some (some x) = true

module _ {T : Type 0} (hashable : Hashable T) (cache : Cache T) where
  open cache use {State}

  -- After any calls on a new tree and one more `Insert`, `Get` returns the item for its ID, and for
  -- any other ID what it returned before.
  pub get-insert_item :
      {cfg : Config} {t : Tree T State} (id : ℕ) (item : T)
      → Reach hashable cache cfg t
      → (get hashable cache id (insert_item hashable cache item t)).0
        ≡ (if hashable.id item == id then some item else (get hashable cache id t).0)
  unfolding insert_item store_item place_item
  get-insert_item {t = t} id item r =
      get-lookup hashable cache id (called r (inserted item t))
      ∙ lookup-insert (hashable.id item) id item t.items
      ∙ ap (λ o. if hashable.id item == id then some item else o)
          (sym (get-lookup hashable cache id r))

  lookup-delete_item :
      (id j : ℕ) (t : Tree T State)
      → lookup j (delete_item hashable cache id t).1.items
        ≡ (if id == j then none else lookup j t.items)
  unfolding delete_item clear_item drop_item
  lookup-delete_item id j t = elim (Option-cases (lookup id t.items)) [
    | inl e ↦ rw (e, delete_item) (gone e)
    | inr e ↦ rw (e.1, delete_item) (lookup-erase id j t.items)
  ]
    where
      gone :
          lookup id t.items ≡ none → lookup j t.items ≡ (if id == j then none else lookup j t.items)
      gone e = elim (Bool-cases (id == j)) [
        | inl same ↦
            rw same (subst (λ k. lookup k t.items ≡ none) (let s : id ≡ j = ground arith in s) e)
        | inr other ↦ rw other
      ]

  delete_item-is_some :
      (id : ℕ) (t : Tree T State)
      → (delete_item hashable cache id t).0 ≡ is_some (lookup id t.items)
  unfolding delete_item
  delete_item-is_some id t = elim (Option-cases (lookup id t.items)) [
    | inl e ↦ rw (e, delete_item) refl
    | inr e ↦ rw (e.1, delete_item) refl
  ]

  -- After any calls on a new tree and one more `Delete`, `Get` returns nothing for that ID, and for
  -- any other ID what it returned before; and `Delete` says whether `Get` would have returned
  -- something.
  pub get-delete_item :
      {cfg : Config} {t : Tree T State} (id j : ℕ)
      → Reach hashable cache cfg t
      → ((get hashable cache j (delete_item hashable cache id t).1).0
          ≡ (if id == j then none else (get hashable cache j t).0))
        × ((delete_item hashable cache id t).0 ≡ is_some (get hashable cache id t).0)
  get-delete_item {t = t} id j r = (
    get-lookup hashable cache j (called r (deleted id t))
        ∙ lookup-delete_item id j t
        ∙ ap (λ o. if id == j then none else o) (sym (get-lookup hashable cache j r)),
    delete_item-is_some id t ∙ ap is_some (sym (get-lookup hashable cache id r)),
  )
