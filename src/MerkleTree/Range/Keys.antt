-- ===== src/MerkleTree/Range/Keys.antt =====
-- Keys are ordered as the numbers that they encode.
use Prim.Native.Nat.{compare, Ordering}
use mathlib.Core.Path.{ap₂, subst}
use onchain_exchange_homewor.Prelude.{
  ℕ, zero, suc, ◌/◌, ◌%◌, ◌<◌, Bool, true, false, ◌&&◌, List, [], ◌∷◌, ◌++◌, ltb, leb,
  if◌then◌else◌, length, sort_by, u64_mod, select, ◌≡◌, refl, sym, ap, ◌∙◌, arith, All, All-split,
  Bool-cases, inl, inr,
}
use onchain_exchange_homewor.Models.Bytes.{put_be, numbers, length-put_be}
use onchain_exchange_homewor.MerkleTree.Types.{
  Hashable, deleted_node_hash, bytes_eq, Cell, Node, node, Children, none_left, child,
}
use onchain_exchange_homewor.MerkleTree.Range.Live.{
  unmarked_values, unmarked_below, live_values, AreSettled, live_values-AreSettled,
}
use onchain_exchange_homewor.MerkleTree.Range.{
  compare_keys, in_range, id_to_key, key_to_id, range_query_leaf, range_query_node,
  range_query_children, range_query_by_id, Query, id_before,
}

abbrev then_by : Ordering → Ordering → Ordering
then_by Ordering.lt o = Ordering.lt
then_by Ordering.eq o = o
then_by Ordering.gt o = Ordering.gt

compare_keys-snoc :
    (xs ys : List ℕ) (x y : ℕ)
    → length xs ≡ length ys
    → compare_keys (xs ++ (x ∷ [])) (ys ++ (y ∷ [])) ≡ then_by (compare_keys xs ys) (compare x y)
unfolding compare_keys
compare_keys-snoc [] [] x y h = ground arith
compare_keys-snoc [] (b ∷ ys) x y h = absurd (omega arith)
compare_keys-snoc (a ∷ xs) [] x y h = absurd (omega arith)
compare_keys-snoc (a ∷ xs) (b ∷ ys) x y h = ground (arith, compare_keys-snoc xs ys x y)

compare-digits :
    (a b : ℕ) → compare a b ≡ then_by (compare (a / 256) (b / 256)) (compare (a % 256) (b % 256))
compare-digits a b = ground arith

-- The keys of two numbers are ordered as the numbers.
pub compare_keys-put_be :
    (w a b : ℕ)
    → a < numbers w
    → b < numbers w
    → compare_keys (put_be w a) (put_be w b) ≡ compare a b
unfolding put_be compare_keys
compare_keys-put_be zero a b h k = ground arith
compare_keys-put_be (suc w) a b h k =
    compare_keys-snoc (put_be w (a / 256)) (put_be w (b / 256)) (a % 256) (b % 256)
      (length-put_be w (a / 256) ∙ sym (length-put_be w (b / 256)))
    ∙ ap (λ o. then_by o (compare (a % 256) (b % 256)))
        (compare_keys-put_be w (a / 256) (b / 256) (omega arith) (omega arith))
    ∙ sym (compare-digits a b)

pub id_to_key-put_be : (id : ℕ) → id_to_key id ≡ put_be 8 id
unfolding id_to_key put_be
id_to_key-put_be id = ground arith

-- An ID is read back from its key.
pub key_to_id-id_to_key : (id : ℕ) → id < u64_mod → key_to_id (id_to_key id) ≡ id
unfolding key_to_id id_to_key
key_to_id-id_to_key id h = omega arith

-- Whether an ID lies between two others.
abbrev pub in_id_range : ℕ → ℕ → Bool → Bool → ℕ → Bool
in_id_range start_id end_id include_start include_end id =
    (if include_start then leb start_id id else ltb start_id id)
    && (if include_end then leb id end_id else ltb id end_id)

abbrev id_query : ℕ → ℕ → Bool → Bool → Query
id_query start_id end_id include_start include_end = record {
  start_key = id_to_key start_id;
  end_key = id_to_key end_id;
  include_start = include_start;
  include_end = include_end;
}

in_range-id :
    (start_id end_id : ℕ) (include_start include_end : Bool) (id : ℕ)
    → start_id < numbers 8
    → end_id < numbers 8
    → id < numbers 8
    → in_range (id_query start_id end_id include_start include_end) (put_be 8 id)
      ≡ in_id_range start_id end_id include_start include_end id
unfolding in_range
in_range-id s e include_start include_end id hs he hi =
    rw (id_to_key-put_be s, id_to_key-put_be e)
      (rw (compare_keys-put_be 8 id s hi hs, compare_keys-put_be 8 id e hi he) (ground arith))

module _ {T : Type 0} (hashable : Hashable T) where
  -- An item whose key is its ID, as those of mt-manager/models.
  pub record HasIdKey (x : T) : Type 0 where
    pub key : hashable.key x ≡ put_be 8 (hashable.id x)
    pub fits : hashable.id x < numbers 8

  module _ (start_id end_id : ℕ) (include_start include_end : Bool) (hs : start_id < numbers 8)
      (he : end_id < numbers 8) where
    abbrev wanted : T → Bool
    wanted x = in_id_range start_id end_id include_start include_end (hashable.id x)

    abbrev query : Query
    query = id_query start_id end_id include_start include_end

    select-append :
        (xs ys : List T) → select wanted (xs ++ ys) ≡ select wanted xs ++ select wanted ys
    select-append [] ys = refl
    select-append (x ∷ xs) ys = ground (arith, select-append xs ys)

    range_query_leaf-select :
        (c : Cell T)
        → All HasIdKey (if bytes_eq c.hash (deleted_node_hash hashable) then [] else c.value ∷ [])
        → range_query_leaf hashable query c
          ≡ select wanted
              (if bytes_eq c.hash (deleted_node_hash hashable) then [] else c.value ∷ [])
    unfolding range_query_leaf
    range_query_leaf-select c h = elim (Bool-cases (bytes_eq c.hash (deleted_node_hash hashable))) [
      | inl gone ↦ rw gone
      | inr live ↦
          let k : HasIdKey c.value = (rw live at h).0 in
          rw live (
            rw (k.key) (
              rw (
                in_range-id start_id end_id include_start include_end (hashable.id c.value) hs he
                  k.fits)))
    ]

    by_kind :
        (c : Cell T) (kids : Children T) (b : Bool)
        → All HasIdKey (
            if b
            then (if bytes_eq c.hash (deleted_node_hash hashable) then [] else c.value ∷ [])
            else unmarked_below hashable kids)
        → (All HasIdKey (unmarked_below hashable kids)
            → range_query_children hashable query kids
              ≡ select wanted (unmarked_below hashable kids))
        → (if b
            then range_query_leaf hashable query c
            else range_query_children hashable query kids)
          ≡ select wanted (
              if b
              then (if bytes_eq c.hash (deleted_node_hash hashable) then [] else c.value ∷ [])
              else unmarked_below hashable kids)
    by_kind c kids true h below = range_query_leaf-select c h
    by_kind c kids false h below = below h

    mutual
      unfolding range_query_node unmarked_values

      range_query_node-select :
          (n : Node T)
          → All HasIdKey (unmarked_values hashable n)
          → range_query_node hashable query n ≡ select wanted (unmarked_values hashable n)
      range_query_node-select (node c kids) h =
          by_kind c kids c.is_leaf h (range_query_children-select kids)

      range_query_children-select :
          (kids : Children T)
          → All HasIdKey (unmarked_below hashable kids)
          → range_query_children hashable query kids ≡ select wanted (unmarked_below hashable kids)
      range_query_children-select none_left h = refl
      range_query_children-select (child k n rest) h =
          let (a, b) =
            All-split HasIdKey (unmarked_values hashable n) (unmarked_below hashable rest) h in
          ap₂ ◌++◌ (range_query_node-select n a) (range_query_children-select rest b)
          ∙ sym (select-append (unmarked_values hashable n) (unmarked_below hashable rest))

    -- `RangeQueryByID` with bounds below 2 ^ 64, on a tree whose items have their IDs as keys: the
    -- items that are in the tree and whose IDs lie between the two bounds, each bound included as
    -- asked, by ID. A leaf has an item if it is dirty or does not have the hash of deleted nodes; the
    -- tree has no leaf that is dirty and has that hash, so no item was put where another was deleted
    -- since the root was computed.
    pub range_query_by_id-select :
        (root : Node T)
        → AreSettled hashable root
        → All HasIdKey (live_values hashable root)
        → range_query_by_id hashable start_id end_id include_start include_end root
          ≡ sort_by (id_before hashable) (select wanted (live_values hashable root))
    unfolding range_query_by_id
    range_query_by_id-select root settled h =
        let same = live_values-AreSettled hashable root settled in
        ap (sort_by (id_before hashable)) (
          range_query_node-select root (subst (All HasIdKey) (sym same) h)
          ∙ ap (select wanted) same)
