-- ===== src/MerkleTree/TopN.antt =====
-- mt-manager/merkletree/cache_top_n.go: the cache of the items with the smallest keys, or the
-- greatest, and its iterator. Each operation holds the lock, so it is one step. `sort.Slice` is the
-- insertion sort; it leaves open how items with equal keys stand.
pub mod Order
pub mod Keys
use onchain_exchange_homewor.Prelude.{
  ℕ, zero, suc, ◌+◌, ◌-◌, Bool, true, false, Option, none, some, List, [], ◌∷◌, ◌++◌, ◌==◌, ltb,
  leb, if◌then◌else◌, length, get_or, set, take, drop, sort_by,
}
use onchain_exchange_homewor.Models.Bytes.{get_be}
use onchain_exchange_homewor.MerkleTree.Types.{Hashable}

-- `TopNCache`
pub record TopNCache (T : Type 0) : Type 0 where
  pub items : List T
  pub capacity : ℕ
  pub ascending : Bool
  pub enabled : Bool

-- `TopNIterator`
pub record TopNIterator (T : Type 0) : Type 0 where
  pub items : List T
  pub current : ℕ

-- `keyToUint64`
unfoldable pub key_to_uint64 : List ℕ → ℕ
key_to_uint64 key = get_be 0 key

-- The order of the cache: which of two keys comes first.
unfoldable pub precedes : Bool → ℕ → ℕ → Bool
precedes true a b = ltb a b
precedes false a b = ltb b a

module _ {T : Type 0} where
  -- `NewTopNCache`
  unfoldable pub new_top_n_cache : ℕ → Bool → TopNCache T
  new_top_n_cache capacity ascending =
      if leb capacity 0
      then record { items = []; capacity = 0; ascending = false; enabled = false }
      else record { items = []; capacity = capacity; ascending = ascending; enabled = true }

  -- `Clear`
  unfoldable pub clear : TopNCache T → TopNCache T
  clear tc = if tc.enabled then record tc { items = [] } else tc

  -- `GetTop`; no slice is the empty one.
  unfoldable pub get_top : ℕ → TopNCache T → List T
  get_top n tc = if tc.enabled then take n tc.items else []

  -- `items[i]`, for an index in range.
  unfoldable pub nth : List T → ℕ → Option T
  nth [] i = none
  nth (x ∷ xs) zero = some x
  nth (x ∷ xs) (suc i) = nth xs i

  -- `GetFirst`
  unfoldable pub get_first : TopNCache T → Option T
  unfolding nth
  get_first tc = if tc.enabled then nth tc.items 0 else none

  -- `Count`
  unfoldable pub count : TopNCache T → ℕ
  count tc = if tc.enabled then length tc.items else 0

  -- `NewTopNIterator`, `GetIteratorMin` and `GetIteratorMax`
  unfoldable pub new_top_n_iterator : List T → TopNIterator T
  new_top_n_iterator items = record { items = items; current = 0 }

  unfoldable pub get_iterator : TopNCache T → TopNIterator T
  unfolding new_top_n_iterator
  get_iterator tc = new_top_n_iterator (if tc.enabled then tc.items else [])

  -- `HasNext`
  unfoldable pub has_next : TopNIterator T → Bool
  has_next it = ltb it.current (length it.items)

  -- `Peek`
  unfoldable pub peek : TopNIterator T → Option T
  unfolding has_next nth
  peek it = if has_next it then nth it.items it.current else none

  -- `Next`
  unfoldable pub next : TopNIterator T → Option T × TopNIterator T
  unfolding has_next nth
  next it =
      if has_next it
      then (nth it.items it.current, record it { current = it.current + 1 })
      else (none, it)

  -- `Remaining`
  unfoldable pub remaining : TopNIterator T → ℕ
  remaining it = length it.items - it.current

  -- `Reset`
  unfoldable pub reset : TopNIterator T → TopNIterator T
  reset it = record it { current = 0 }

  -- `ToSlice`
  unfoldable pub to_slice : TopNIterator T → List T
  unfolding has_next
  to_slice it = if has_next it then drop it.current it.items else []

  -- `TakeWhile`, on fuel: at most `Remaining` items are taken.
  unfoldable pub take_while : (T → Bool) → ℕ → TopNIterator T → List T × TopNIterator T
  unfolding peek next
  take_while predicate zero it = ([], it)
  take_while predicate (suc fuel) it = elim (peek it) [
    | none ↦ ([], it)
    | some item ↦ elim (predicate item) [
      | false ↦ ([], it)
      | true ↦ let (rest, it') = take_while predicate fuel (next it).1 in (item ∷ rest, it')
    ]
  ]

  module _ (hashable : Hashable T) where
    abbrev pub key_of : T → ℕ
    key_of item = key_to_uint64 (hashable.key item)

    -- The test of `resortUnderLock`.
    abbrev pub item_precedes : Bool → T → T → Bool
    item_precedes ascending x y = precedes ascending (key_of x) (key_of y)

    -- `resortUnderLock`
    unfoldable pub resort : Bool → List T → List T
    resort ascending items = sort_by (item_precedes ascending) items

    -- `TryInsert`, on the items of an active cache.
    unfoldable pub offer : Bool → ℕ → T → List T → Bool × List T
    unfolding resort
    offer ascending capacity item items =
        let last = length items - 1 in
        if ltb (length items) capacity
        then (true, resort ascending (items ++ (item ∷ [])))
        else if precedes ascending (key_of item) (key_of (get_or items last item))
        then (true, resort ascending (set items last item))
        else (false, items)

    unfoldable pub try_insert : T → TopNCache T → Bool × TopNCache T
    unfolding offer
    try_insert item tc =
        let (added, items) = offer tc.ascending tc.capacity item tc.items in
        if tc.enabled then (added, record tc { items = items }) else (false, tc)

    -- The first item with the ID is cut out.
    unfoldable pub cut : ℕ → List T → Bool × List T
    cut id [] = (false, [])
    cut id (x ∷ xs) =
        let (found, rest) = cut id xs in
        if hashable.id x == id then (true, xs) else (found, x ∷ rest)

    -- `Remove`
    unfoldable pub remove : T → TopNCache T → Bool × TopNCache T
    unfolding cut
    remove item tc =
        let (found, items) = cut (hashable.id item) tc.items in
        if tc.enabled then (found, record tc { items = items }) else (false, tc)
