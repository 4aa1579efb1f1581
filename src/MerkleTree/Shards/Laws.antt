-- ===== src/MerkleTree/Shards/Laws.antt =====
-- What the sharded cache finds was put there, and neither replaced nor deleted since.
use Prim.Native.Nat.{◌^◌}
use mathlib.Core.Option.{none-ne-some}
use onchain_exchange_homewor.Prelude.{
  ℕ, zero, suc, ◌%◌, Option, none, some, List, [], ◌∷◌, ◌≡◌, ◌≢◌, ◌⊎◌, refl, sym, ap, ◌∙◌, arith,
  ◌==◌, Bool-cases, inl, inr, length-set, get_or, set, replicate, All,
}
use onchain_exchange_homewor.MerkleTree.Cache.{Cache}
use onchain_exchange_homewor.MerkleTree.Lru.{
  LruCache, new_lru_cache, put_lru, try_get_lru, delete_lru,
}
use onchain_exchange_homewor.MerkleTree.Lru.Keyed.{IsKeyed}
use onchain_exchange_homewor.MerkleTree.Lru.Laws.{
  new_lru_cache-IsKeyed, try_get_lru-new_lru_cache, try_get_lru-put_lru, try_get_lru-delete_lru,
}
use onchain_exchange_homewor.MerkleTree.Shards.{
  shard_capacity, new_sharded_cache, shard_of, get_shard, put_sharded, try_get_sharded,
  delete_sharded,
}

module _ {A : Type 0} where
  get_or-set :
      (xs : List A) (i : ℕ) (v d : A)
      → (get_or (set xs i v) i d ≡ v) ⊎ (get_or (set xs i v) i d ≡ d)
  get_or-set [] i v d = inr refl
  get_or-set (x ∷ xs) zero v d = inl refl
  get_or-set (x ∷ xs) (suc i) v d = get_or-set xs i v d

  get_or-other : (xs : List A) (i j : ℕ) (v d : A) → i ≢ j → get_or (set xs i v) j d ≡ get_or xs j d
  get_or-other [] i j v d other = refl
  get_or-other (x ∷ xs) zero zero v d other = absurd (other refl)
  get_or-other (x ∷ xs) zero (suc j) v d other = refl
  get_or-other (x ∷ xs) (suc i) zero v d other = refl
  get_or-other (x ∷ xs) (suc i) (suc j) v d other =
      get_or-other xs i j v d (λ same. other (ap suc same))

  All-set : (P : A → Type 0) (xs : List A) (i : ℕ) (v : A) → P v → All P xs → All P (set xs i v)
  All-set P [] i v p ok = ok
  All-set P (x ∷ xs) zero v p ok = (p, ok.1)
  All-set P (x ∷ xs) (suc i) v p ok = (ok.0, All-set P xs i v p ok.1)

  All-get_or : (P : A → Type 0) (xs : List A) (i : ℕ) (d : A) → P d → All P xs → P (get_or xs i d)
  All-get_or P [] i d p ok = p
  All-get_or P (x ∷ xs) zero d p ok = ok.0
  All-get_or P (x ∷ xs) (suc i) d p ok = All-get_or P xs i d p ok.1

  All-replicate : (P : A → Type 0) (n : ℕ) (a : A) → P a → All P (replicate n a)
  All-replicate P zero a p = _
  All-replicate P (suc n) a p = (p, All-replicate P n a p)

pub new_sharded_cache-AreKeyed :
    (T : Type 0) (total_capacity power : ℕ)
    → All (IsKeyed {T = T}) (new_sharded_cache total_capacity power)
unfolding new_sharded_cache
new_sharded_cache-AreKeyed T total_capacity power =
    All-replicate IsKeyed (2 ^ power) _ (new_lru_cache-IsKeyed _)

module _ {T : Type 0} where
  abbrev pub AreKeyed : List (LruCache T) → Type 0
  AreKeyed = All IsKeyed

  get_shard-IsKeyed :
      (id : ℕ) (shards : List (LruCache T)) → AreKeyed shards → IsKeyed (get_shard id shards)
  get_shard-IsKeyed id shards h =
      All-get_or IsKeyed shards (shard_of id shards) (new_lru_cache 1) (new_lru_cache-IsKeyed 1) h

  -- The shard of an ID in the same shard as one that is replaced, and in another.
  get_shard-same :
      (id j : ℕ) (shards : List (LruCache T)) (shard : LruCache T)
      → shard_of id shards ≡ shard_of j shards
      → let shards' = set shards (shard_of id shards) shard in
        (get_shard j shards' ≡ shard) ⊎ (get_shard j shards' ≡ new_lru_cache 1)
  get_shard-same id j shards shard same =
      let i = shard_of id shards in
      let shards' = set shards i shard in
      let place = ap (λ n. j % n) (length-set shards i shard) ∙ sym same in
      let moved = ap (λ k. get_or shards' k (new_lru_cache 1)) place in
      elim (get_or-set shards i shard (new_lru_cache 1)) [
        | inl e ↦ inl (moved ∙ e)
        | inr e ↦ inr (moved ∙ e)
      ]

  get_shard-other :
      (id j : ℕ) (shards : List (LruCache T)) (shard : LruCache T)
      → shard_of id shards ≢ shard_of j shards
      → get_shard j (set shards (shard_of id shards) shard) ≡ get_shard j shards
  get_shard-other id j shards shard other =
      let i = shard_of id shards in
      ap (λ n. get_or (set shards i shard) (j % n) (new_lru_cache 1)) (length-set shards i shard)
      ∙ get_or-other shards i (shard_of j shards) shard (new_lru_cache 1) other

  -- What is found after a shard is replaced was found in the shard that took its place, or in a shard
  -- of other IDs.
  try_get-replaced :
      (id j : ℕ) (x : T) (shards : List (LruCache T)) (shard : LruCache T)
      → try_get_lru j (get_shard j (set shards (shard_of id shards) shard)) ≡ some x
      → ((shard_of id shards ≡ shard_of j shards) × (try_get_lru j shard ≡ some x))
        ⊎ ((id ≢ j) × (try_get_lru j (get_shard j shards) ≡ some x))
  try_get-replaced id j x shards shard e =
      let i = shard_of id shards in
      let shards' = set shards i shard in
      elim (Bool-cases (i == shard_of j shards)) [
        | inl same ↦
            let place : i ≡ shard_of j shards = ground arith in
            elim (get_shard-same id j shards shard place) [
              | inl found ↦ inl (place, sym (ap (try_get_lru j) found) ∙ e)
              | inr lost ↦
                  let nothing = try_get_lru-new_lru_cache {T = T} 1 j in
                  let none_there = sym (ap (try_get_lru j) lost ∙ nothing) ∙ e in
                  absurd (none-ne-some x none_there)
            ]
        | inr other ↦
            let apart : i ≢ shard_of j shards = ground (arith, other) in
            inr (
              (λ same. apart (ap (λ k. shard_of k shards) same)),
              sym (ap (try_get_lru j) (get_shard-other id j shards shard apart)) ∙ e,
            )
      ]

  pub put_sharded-AreKeyed :
      (id : ℕ) (item : T) (shards : List (LruCache T))
      → AreKeyed shards
      → AreKeyed (put_sharded id item shards)
  unfolding put_sharded
  put_sharded-AreKeyed id item shards h =
      All-set IsKeyed shards (shard_of id shards) (put_lru id item (get_shard id shards))
        (try_get_lru-put_lru id item (get_shard id shards) (get_shard-IsKeyed id shards h)).0 h

  pub delete_sharded-AreKeyed :
      (id : ℕ) (shards : List (LruCache T)) → AreKeyed shards → AreKeyed (delete_sharded id shards)
  unfolding delete_sharded
  delete_sharded-AreKeyed id shards h =
      All-set IsKeyed shards (shard_of id shards) (delete_lru id (get_shard id shards))
        (try_get_lru-delete_lru id (get_shard id shards) (get_shard-IsKeyed id shards h)).0 h

  -- If in every shard the node of each ID has that ID: what `tryGet` finds after `put` is the item
  -- that was put, under its ID, or what it found before, under another.
  pub try_get_sharded-put_sharded :
      (id j : ℕ) (item x : T) (shards : List (LruCache T))
      → AreKeyed shards
      → try_get_sharded j (put_sharded id item shards) ≡ some x
      → ((id ≡ j) × (item ≡ x)) ⊎ ((id ≢ j) × (try_get_sharded j shards ≡ some x))
  unfolding put_sharded try_get_sharded
  try_get_sharded-put_sharded id j item x shards h e =
      let shard = get_shard id shards in
      let law = (try_get_lru-put_lru id item shard (get_shard-IsKeyed id shards h)).1 in
      elim (try_get-replaced id j x shards (put_lru id item shard) e) [
        | inl (same, found) ↦ elim (law j x found) [
          | inl new ↦ inl new
          | inr (other, before) ↦ inr (other, ap (found_in j) (sym same) ∙ before)
        ]
        | inr kept ↦ inr kept
      ]
    where
      found_in : ℕ → ℕ → Option T
      found_in j i = try_get_lru j (get_or shards i (new_lru_cache 1))

  pub try_get_sharded-delete_sharded :
      (id j : ℕ) (x : T) (shards : List (LruCache T))
      → AreKeyed shards
      → try_get_sharded j (delete_sharded id shards) ≡ some x
      → (id ≢ j) × (try_get_sharded j shards ≡ some x)
  unfolding delete_sharded try_get_sharded
  try_get_sharded-delete_sharded id j x shards h e =
      let shard = get_shard id shards in
      let law = (try_get_lru-delete_lru id shard (get_shard-IsKeyed id shards h)).1 in
      elim (try_get-replaced id j x shards (delete_lru id shard) e) [
        | inl (same, found) ↦
            let (other, before) = law j x found in (other, ap (found_in j) (sym same) ∙ before)
        | inr kept ↦ kept
      ]
    where
      found_in : ℕ → ℕ → Option T
      found_in j i = try_get_lru j (get_or shards i (new_lru_cache 1))

  pub try_get_sharded-new_sharded_cache :
      (total_capacity power j : ℕ)
      → try_get_sharded {T = T} j (new_sharded_cache total_capacity power) ≡ none
  unfolding new_sharded_cache try_get_sharded
  try_get_sharded-new_sharded_cache total_capacity power j =
      let capacity = shard_capacity total_capacity power in
      let nothing = λ (c : LruCache T). try_get_lru j c ≡ none in
      All-get_or nothing (replicate (2 ^ power) (new_lru_cache capacity)) _ (new_lru_cache 1)
        (try_get_lru-new_lru_cache 1 j)
        (All-replicate nothing (2 ^ power) (new_lru_cache capacity)
          (try_get_lru-new_lru_cache capacity j))

  -- The cache of a tree.
  abbrev pub sharded_cache : ℕ → ℕ → Cache T
  sharded_cache total_capacity power = record {
    State = (shards : List (LruCache T)) × AreKeyed shards;
    empty =
        (new_sharded_cache total_capacity power, new_sharded_cache-AreKeyed T total_capacity power);
    put = λ id item s. (put_sharded id item s.0, put_sharded-AreKeyed id item s.0 s.1);
    try_get = λ id s. try_get_sharded id s.0;
    delete = λ id s. (delete_sharded id s.0, delete_sharded-AreKeyed id s.0 s.1);
    try_get-empty = try_get_sharded-new_sharded_cache total_capacity power;
    try_get-put = λ id j item x s. try_get_sharded-put_sharded id j item x s.0 s.1;
    try_get-delete = λ id j x s. try_get_sharded-delete_sharded id j x s.0 s.1;
  }
