-- ===== src/ShardedSet/Answers.antt =====
-- `ShardedSet` of v2-tx-pipeline/sharded_cache.go answers as one set of keys.
use onchain_exchange_homewor.Prelude.{
  ℕ, zero, suc, ◌-◌, ◌*◌, ◌/◌, ◌%◌, ◌<◌, ◌≤◌, Bool, true, false, not, ◌||◌, Option, none, some,
  List, [], ◌∷◌, if◌then◌else◌, ◌==◌, length, length-set, get_or, set, replicate, ◌≡◌, ◌≢◌, ◌⊎◌,
  inl, inr, refl, sym, ap, ◌∙◌, arith, Bool-cases,
}
use mathlib.Core.Path.{subst}
use mathlib.Core.Option.{some-injective, none-ne-some}
use onchain_exchange_homewor.MerkleTree.Types.{bytes_eq}
use onchain_exchange_homewor.MerkleTree.Hashing.Caching.{bytes_eq_sound}
use onchain_exchange_homewor.SparseTree.Update.Spread.{get_or-set_same, get_or-set_other}
use onchain_exchange_homewor.ShardedSet.{
  bit_and, hasher_or_default, ShardedSet, new_sharded_set, is_in, add_item, shard_index, shard_at,
  check, claim, seen, put_key,
}

bit_and_le : (w a b : ℕ) → bit_and w a b ≤ b
unfolding bit_and
bit_and_le zero a b = omega arith
bit_and_le (suc w) a b =
    let ih = bit_and_le w (a / 2) (b / 2) in
    let low = low_bit (a % 2) (b % 2) (omega arith) in omega arith
  where
    low_bit : (x y : ℕ) → x < 2 → x * y ≤ y
    low_bit zero y h = omega arith
    low_bit (suc zero) y h = omega arith
    low_bit (suc (suc x)) y h = absurd (omega arith)

-- Every shard index is in range.
abbrev pub IsSized : ShardedSet → Type 0
IsSized s = s.shard_mask < length s.shards

is_in-add_item :
    (key k : List ℕ) (items : List (List ℕ))
    → is_in k (add_item key items) ≡ (bytes_eq key k || is_in k items)
is_in-add_item key k items = elim (Bool-cases (is_in key items)) [
  | inl e ↦ rw e (elim (Bool-cases (bytes_eq key k)) [
    | inl f ↦ sym (ap (λ j. is_in j items) (bytes_eq_sound key k f)) ∙ e ∙ rw f refl
    | inr f ↦ rw f refl
  ])
  | inr e ↦ rw e refl
]

equal : (i j : ℕ) → (i == j) ≡ true → i ≡ j
equal i j e = ground arith

unequal : (i j : ℕ) → (i == j) ≡ false → i ≢ j
unequal i j e same = ground (arith, e, same)

-- After a key went in.
claim-check :
    (s : ShardedSet) (key k : List ℕ)
    → IsSized s
    → check (claim s key).1 k ≡ (bytes_eq key k || check s k)
unfolding shard_index
claim-check s key k size =
    let i = shard_index s key in
    let j = shard_index s k in
    let bound = bit_and_le 32 (s.hasher key % 0x100000000) s.shard_mask in
    elim (Bool-cases (i == j)) [
      | inl e ↦
          let same = equal i j e in
          ap (λ n. is_in k (get_or (set s.shards i (add_item key (shard_at s key))) n []))
            (sym same)
          ∙ ap (is_in k)
              (get_or-set_same s.shards i (add_item key (shard_at s key)) [] (omega arith))
          ∙ is_in-add_item key k (shard_at s key)
          ∙ ap (λ n. bytes_eq key k || is_in k (get_or s.shards n [])) same
      | inr e ↦
          ap (is_in k)
            (get_or-set_other s.shards i j (add_item key (shard_at s key)) [] (unequal i j e))
          ∙ not_key (Bool-cases (bytes_eq key k)) (unequal i j e)
    ]
  where
    not_key :
        (bytes_eq key k ≡ true) ⊎ (bytes_eq key k ≡ false)
        → shard_index s key ≢ shard_index s k
        → check s k ≡ (bytes_eq key k || check s k)
    not_key (inl f) away = absurd (away (ap (shard_index s) (bytes_eq_sound key k f)))
    not_key (inr f) away = rw f refl

-- The calls.
pub data Call : Type 0 where
  seen_call : List ℕ → Call
  put_call : List ℕ → Call

-- The answers of the calls of `Seen`, one after the other.
abbrev pub answers : List Call → ShardedSet → List Bool
answers [] s = []
answers (seen_call key ∷ calls) s = let (a, new) = seen key s in a ∷ answers calls new
answers (put_call key ∷ calls) s = answers calls (put_key key s)

-- The answers by one set of keys.
abbrev pub set_answers : ℕ → List Call → List (List ℕ) → List Bool
set_answers size [] keys = []
set_answers size (seen_call key ∷ calls) keys =
    if length key == size
    then is_in key keys ∷ set_answers size calls (key ∷ keys)
    else false ∷ set_answers size calls keys
set_answers size (put_call key ∷ calls) keys =
    if length key == size then set_answers size calls (key ∷ keys) else set_answers size calls keys

abbrev pub Represents : ShardedSet → List (List ℕ) → Type 0
Represents s keys = (k : List ℕ) → check s k ≡ is_in k keys

claim-Represents :
    (s : ShardedSet) (key : List ℕ) (keys : List (List ℕ))
    → IsSized s
    → Represents s keys
    → Represents (claim s key).1 (key ∷ keys)
claim-Represents s key keys size r k =
    claim-check s key k size ∙ ap (λ b. bytes_eq key k || b) (r k)

claim-IsSized : (s : ShardedSet) (key : List ℕ) → IsSized s → IsSized (claim s key).1
claim-IsSized s key size =
    subst (λ n. s.shard_mask < n)
      (sym (length-set s.shards (shard_index s key) (add_item key (shard_at s key)))) size

-- A key that is there already adds nothing.
Represents-again :
    (s : ShardedSet) (key : List ℕ) (keys : List (List ℕ))
    → check s key ≡ true
    → Represents s keys
    → Represents s (key ∷ keys)
Represents-again s key keys there r k = elim (Bool-cases (bytes_eq key k)) [
  | inl f ↦ sym (ap (check s) (bytes_eq_sound key k f)) ∙ there ∙ rw f refl
  | inr f ↦ r k ∙ rw f refl
]

seen_there :
    (key : List ℕ) (s : ShardedSet)
    → (length key == s.key_size) ≡ true
    → check s key ≡ true
    → seen key s ≡ (true, s)
unfolding seen
seen_there key s f g =
    ap (λ b. if b then (if check s key then (true, s) else claim s key) else (false, s)) f
    ∙ ap (λ b. if b then (true, s) else claim s key) g

seen_new :
    (key : List ℕ) (s : ShardedSet)
    → (length key == s.key_size) ≡ true
    → check s key ≡ false
    → seen key s ≡ claim s key
unfolding seen
seen_new key s f g =
    ap (λ b. if b then (if check s key then (true, s) else claim s key) else (false, s)) f
    ∙ ap (λ b. if b then (true, s) else claim s key) g

answers-Represents :
    (calls : List Call) (s : ShardedSet) (keys : List (List ℕ))
    → IsSized s
    → Represents s keys
    → answers calls s ≡ set_answers s.key_size calls keys
unfolding seen put_key
answers-Represents [] s keys size r = refl
answers-Represents (seen_call key ∷ calls) s keys size r =
    elim (Bool-cases (length key == s.key_size)) [
      | inr f ↦ rw f (ap (◌∷◌ false) (answers-Represents calls s keys size r))
      | inl f ↦ elim (Bool-cases (check s key)) [
        | inl g ↦
            ap (λ p. p.0 ∷ answers calls p.1) (seen_there key s f g)
            ∙ ap (λ b. b ∷ answers calls s) (sym g ∙ r key)
            ∙ ap (◌∷◌ (is_in key keys))
                (answers-Represents calls s (key ∷ keys) size (Represents-again s key keys g r))
            ∙ sym (
                ap
                  (λ b.
                    if b
                    then is_in key keys ∷ set_answers s.key_size calls (key ∷ keys)
                    else false ∷ set_answers s.key_size calls keys)
                  f)
        | inr g ↦
            ap (λ p. p.0 ∷ answers calls p.1) (seen_new key s f g)
            ∙ ap (λ b. b ∷ answers calls (claim s key).1) (r key)
            ∙ ap (◌∷◌ (is_in key keys)) (
                answers-Represents calls (claim s key).1 (key ∷ keys) (claim-IsSized s key size)
                  (claim-Represents s key keys size r))
            ∙ sym (
                ap
                  (λ b.
                    if b
                    then is_in key keys ∷ set_answers s.key_size calls (key ∷ keys)
                    else false ∷ set_answers s.key_size calls keys)
                  f)
      ]
    ]
answers-Represents (put_call key ∷ calls) s keys size r =
    elim (Bool-cases (length key == s.key_size)) [
      | inr f ↦ rw f (answers-Represents calls s keys size r)
      | inl f ↦ rw f (
          answers-Represents calls (claim s key).1 (key ∷ keys) (claim-IsSized s key size)
            (claim-Represents s key keys size r))
    ]

nonzero : (n : ℕ) (b c : Bool) → (n == 0 || b || c) ≡ false → 0 < n
nonzero zero b c e = absurd (let f = e in cc)
nonzero (suc n) b c e = omega arith

get_or_empty : (n i : ℕ) → get_or (replicate {A = List (List ℕ)} n []) i [] ≡ []
get_or_empty zero i = refl
get_or_empty (suc n) zero = refl
get_or_empty (suc n) (suc i) = get_or_empty n i

length-replicate : (n : ℕ) → length (replicate {A = List (List ℕ)} n []) ≡ n
length-replicate zero = refl
length-replicate (suc n) = ap suc (length-replicate n)

-- Where `NewShardedSet` does not panic, the calls of `Seen` and `Put` that follow, one after the
-- other, answer as those of one set of keys: `Seen` says for a key of the right length whether it was
-- in an earlier call, and no for any other.
pub answers-new_sharded_set :
    (shard_count key_size : ℕ) (hasher : Option (List ℕ → ℕ)) (s : ShardedSet) (calls : List Call)
    → new_sharded_set shard_count key_size hasher ≡ some s
    → answers calls s ≡ set_answers key_size calls []
unfolding new_sharded_set
answers-new_sharded_set shard_count key_size hasher s calls e = by_guard (Bool-cases refused)
  where
    refused : Bool
    refused =
        shard_count == 0 || not (bit_and 64 shard_count (shard_count - 1) == 0) || key_size == 0

    made : ShardedSet
    made = record {
      shards = replicate shard_count [];
      shard_mask = (shard_count - 1) % 0x100000000;
      hasher = hasher_or_default hasher;
      key_size = key_size;
    }

    by_guard :
        (refused ≡ true) ⊎ (refused ≡ false) → answers calls s ≡ set_answers key_size calls []
    by_guard (inl f) = absurd (none-ne-some s (sym (ap (λ b. if b then none else some made) f) ∙ e))
    by_guard (inr f) =
        let same = some-injective made s (sym (ap (λ b. if b then none else some made) f) ∙ e) in
        let many =
          nonzero shard_count (not (bit_and 64 shard_count (shard_count - 1) == 0)) (key_size == 0)
            f in
        let sized : IsSized made = (let n = length-replicate shard_count in omega arith) in
        subst (λ t. answers calls t ≡ set_answers key_size calls []) same
          (answers-Represents calls made [] sized
            (λ k. ap (is_in k) (get_or_empty shard_count (shard_index made k))))
