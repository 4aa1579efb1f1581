-- ===== src/SparseTree/Update/Sorted.antt =====
-- The batch of `updateBatchParallel` of smt-v3/smt.go: what it writes to a key, in which order, and
-- how the loop cuts a sorted batch into runs.
use onchain_exchange_homewor.Prelude.{
  ℕ, suc, ◌<◌, ◌≤◌, Bool, true, false, Option, List, [], ◌∷◌, ◌++◌, if◌then◌else◌, ◌==◌, length,
  drop, ◌≡◌, inl, inr, refl, sym, ap, ◌∙◌, arith, All, All-split, Bool-cases, IsSorted, sort_by,
  sort_by-IsSorted, insert_by, All-sort_by,
}
use Prim.Native.Nat.{Ordering}
use onchain_exchange_homewor.MerkleTree.Types.{bytes_eq, bytes_eq_refl}
use onchain_exchange_homewor.MerkleTree.Hashing.Caching.{bytes_eq_sound}
use onchain_exchange_homewor.MerkleTree.Range.{compare_keys}
use onchain_exchange_homewor.SparseTree.Types.{Pair}
use onchain_exchange_homewor.SparseTree.Nodes.{byte_at}
use onchain_exchange_homewor.SparseTree.Nodes.Stored.{Below}
use onchain_exchange_homewor.SparseTree.Nodes.Reads.{byte_at-append}
use onchain_exchange_homewor.SparseTree.Update.{key_before, run_of}

-- The value of a key after the writes of a batch.
abbrev pub after : List ℕ → Option (List ℕ) → List Pair → Option (List ℕ)
after key old [] = old
after key old (p ∷ xs) = after key (if bytes_eq p.k key then p.v else old) xs

pub after-append :
    (key : List ℕ) (old : Option (List ℕ)) (xs ys : List Pair)
    → after key old (xs ++ ys) ≡ after key (after key old xs) ys
after-append key old [] ys = refl
after-append key old (p ∷ xs) ys = after-append key (if bytes_eq p.k key then p.v else old) xs ys

abbrev pub Differ : Pair → Pair → Type 0
Differ p q = bytes_eq p.k q.k ≡ false

abbrev pub AreDistinct : List Pair → Type 0
AreDistinct [] = Unit
AreDistinct (p ∷ xs) = All (Differ p) xs × AreDistinct xs

pub swap_writes :
    (key : List ℕ) (old : Option (List ℕ)) (p q : Pair)
    → Differ p q
    → (if bytes_eq q.k key then q.v else if bytes_eq p.k key then p.v else old)
      ≡ (if bytes_eq p.k key then p.v else if bytes_eq q.k key then q.v else old)
swap_writes key old p q d = elim (Bool-cases (bytes_eq p.k key)) [
  | inl a ↦ elim (Bool-cases (bytes_eq q.k key)) [
    | inl b ↦ absurd (
        let e = bytes_eq_sound p.k key a in
        let f = bytes_eq_sound q.k key b in
        let g = ap (λ k. bytes_eq p.k k) (e ∙ sym f) in let r = bytes_eq_refl p.k in cc)
    | inr b ↦ rw (a, b) refl
  ]
  | inr a ↦ rw a refl
]

after-insert_by :
    (key : List ℕ) (old : Option (List ℕ)) (p : Pair) (xs : List Pair)
    → All (Differ p) xs
    → after key old (insert_by key_before p xs) ≡ after key old (p ∷ xs)
unfolding insert_by
after-insert_by key old p [] d = refl
after-insert_by key old p (q ∷ xs) d = elim (Bool-cases (key_before q p)) [
  | inl e ↦
      rw (e, insert_by)
        (after-insert_by key (if bytes_eq q.k key then q.v else old) p xs d.1
          ∙ ap (λ o. after key o xs) (sym (swap_writes key old p q d.0)))
  | inr e ↦ rw (e, insert_by) refl
]

-- Of distinct keys, the order of the writes does not matter.
pub after-sort_by :
    (key : List ℕ) (old : Option (List ℕ)) (xs : List Pair)
    → AreDistinct xs
    → after key old (sort_by key_before xs) ≡ after key old xs
unfolding sort_by
after-sort_by key old [] d = refl
after-sort_by key old (p ∷ xs) d =
    after-insert_by key old p (sort_by key_before xs) (All-sort_by key_before (Differ p) xs d.0)
    ∙ after-sort_by key (if bytes_eq p.k key then p.v else old) xs d.1

compare_keys-append : (path a b : List ℕ) → compare_keys (path ++ a) (path ++ b) ≡ compare_keys a b
unfolding compare_keys
compare_keys-append [] a b = refl
compare_keys-append (x ∷ path) a b = ground (arith, compare_keys-append path a b)

is_less : List ℕ → List ℕ → Bool
is_less a b = elim (compare_keys a b) [
  | Ordering.lt ↦ true
  | Ordering.eq ↦ false
  | Ordering.gt ↦ false
]

is_less_asym : (a b : List ℕ) → is_less a b ≡ true → is_less b a ≡ false
unfolding is_less compare_keys
is_less_asym [] [] h = refl
is_less_asym [] (y ∷ b) h = refl
is_less_asym (x ∷ a) [] h = absurd (let e = h in cc)
is_less_asym (x ∷ a) (y ∷ b) h = let ih = is_less_asym a b in ground arith

is_less_trans : (a b c : List ℕ) → is_less b a ≡ false → is_less c b ≡ false → is_less c a ≡ false
unfolding is_less compare_keys
is_less_trans [] [] [] h k = k
is_less_trans [] [] (z ∷ c) h k = k
is_less_trans [] (y ∷ b) [] h k = refl
is_less_trans [] (y ∷ b) (z ∷ c) h k = refl
is_less_trans (x ∷ a) [] c h k = absurd (let e = h in cc)
is_less_trans (x ∷ a) (y ∷ b) [] h k = absurd (let e = k in cc)
is_less_trans (x ∷ a) (y ∷ b) (z ∷ c) h k = let ih = is_less_trans a b c in ground arith

pub sort_by-key_before : (xs : List Pair) → IsSorted key_before (sort_by key_before xs)
unfolding key_before is_less
sort_by-key_before xs =
    sort_by-IsSorted key_before (λ p q. is_less_asym q.k p.k) (λ p q r. is_less_trans p.k q.k r.k)
      xs

is_lt : Ordering → Bool
is_lt o = elim o [ Ordering.lt ↦ true | Ordering.eq ↦ false | Ordering.gt ↦ false ]

first_byte : (x y : ℕ) (a b : List ℕ) → is_lt (compare_keys (y ∷ b) (x ∷ a)) ≡ false → x ≤ y
unfolding is_lt compare_keys
first_byte x y a b h = ground arith

-- Below one path, a sorted batch has the next bytes in order.
pub byte_at-order :
    (path : List ℕ) (levels : ℕ) (p q : Pair)
    → Below path (suc levels) p.k
    → Below path (suc levels) q.k
    → key_before q p ≡ false
    → byte_at (length path) p.k ≤ byte_at (length path) q.k
unfolding key_before is_lt
byte_at-order path levels p q ([], _, n, _) b h = absurd (omega arith)
byte_at-order path levels p q (x ∷ a, e, n, _) ([], _, m, _) h = absurd (omega arith)
byte_at-order path levels p q (x ∷ a, e, n, _) (y ∷ b, f, m, _) h =
    rw (e, f, byte_at-append path a x, byte_at-append path b y)
      (first_byte x y a b (
        sym (
          ap is_lt (
            ap (λ k. compare_keys k p.k) f
            ∙ ap (compare_keys (path ++ (y ∷ b))) e
            ∙ compare_keys-append path (y ∷ b) (x ∷ a)))
        ∙ h))

-- The run of the first byte and the pairs after it.
pub run_of-append_drop :
    (depth idx : ℕ) (xs : List Pair)
    → run_of depth idx xs ++ drop (length (run_of depth idx xs)) xs ≡ xs
unfolding run_of
run_of-append_drop depth idx [] = refl
run_of-append_drop depth idx (p ∷ xs) = elim (Bool-cases (byte_at depth p.k == idx)) [
  | inl e ↦ rw e (ap (◌∷◌ p) (run_of-append_drop depth idx xs))
  | inr e ↦ rw e refl
]

pub run_of-All :
    (depth idx : ℕ) (xs : List Pair) → All (λ q. byte_at depth q.k ≡ idx) (run_of depth idx xs)
unfolding run_of
run_of-All depth idx [] = tt
run_of-All depth idx (p ∷ xs) = elim (Bool-cases (byte_at depth p.k == idx)) [
  | inl e ↦ rw e (ground arith, run_of-All depth idx xs)
  | inr e ↦ rw e tt
]

-- In a sorted batch no pair after the run has the byte of the run.
pub run_of-rest :
    (path : List ℕ) (levels idx : ℕ) (xs : List Pair)
    → All (λ q. Below path (suc levels) q.k) xs
    → IsSorted key_before xs
    → All (λ q. idx ≤ byte_at (length path) q.k) xs
    → All (λ q. idx < byte_at (length path) q.k) (drop (length (run_of (length path) idx xs)) xs)
unfolding run_of
run_of-rest path levels idx [] below sorted least = tt
run_of-rest path levels idx (p ∷ xs) below sorted least =
    elim (Bool-cases (byte_at (length path) p.k == idx)) [
      | inl e ↦ rw e (run_of-rest path levels idx xs below.1 sorted.1 least.1)
      | inr e ↦
          let less : idx < byte_at (length path) p.k = ground (arith, least.0) in
          rw e (less, greater xs less below.1 sorted.0)
    ]
  where
    greater :
        (ys : List Pair)
        → idx < byte_at (length path) p.k
        → All (λ q. Below path (suc levels) q.k) ys
        → All (λ q. key_before q p ≡ false) ys
        → All (λ q. idx < byte_at (length path) q.k) ys
    greater [] less b s = tt
    greater (q ∷ ys) less b s = (
      omega (arith, less, byte_at-order path levels p q below.0 b.0 s.0),
      greater ys less b.1 s.1,
    )

pub IsSorted-split :
    (xs ys : List Pair)
    → IsSorted key_before (xs ++ ys)
    → IsSorted key_before xs × IsSorted key_before ys
IsSorted-split [] ys s = (tt, s)
IsSorted-split (p ∷ xs) ys s =
    let (a, b) = IsSorted-split xs ys s.1 in
    (((All-split (λ q. key_before q p ≡ false) xs ys s.0).0, a), b)
