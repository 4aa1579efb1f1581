-- ===== src/SparseTree/Tree/Valid.antt =====
-- What `SMT` of smt-v3/smt.go keeps: a store of nodes under their hashes, a root with a tree below
-- it, and pending updates with distinct keys of 32 bytes.
use onchain_exchange_homewor.Prelude.{
  ℕ, zero, suc, ◌<◌, ◌≤◌, Option, none, some, List, [], ◌∷◌, ◌++◌, if◌then◌else◌, length, take,
  replicate, ◌≡◌, inl, inr, refl, sym, ap, ◌∙◌, arith, All, Bool-cases,
}
use mathlib.Core.Path.{subst}
use onchain_exchange_homewor.MerkleTree.Types.{Hash, bytes_eq, bytes_eq_refl}
use onchain_exchange_homewor.MerkleTree.Hashing.Caching.{bytes_eq_sound}
use onchain_exchange_homewor.SparseTree.Types.{Pair, Node, BytesMap, find, put, value_of, Result}
use onchain_exchange_homewor.SparseTree.Nodes.{get_at}
use onchain_exchange_homewor.SparseTree.Nodes.Stored.{Below, IsStored, value_at}
use onchain_exchange_homewor.SparseTree.Nodes.Reads.{IsContent}
use onchain_exchange_homewor.SparseTree.Update.Sorted.{after, Differ, AreDistinct}
use onchain_exchange_homewor.SparseTree.Update.Spread.{AreBelow}
use onchain_exchange_homewor.SparseTree.Tree.{to_array, Smt, pairs_of, get, get_pending}

-- A byte string.
abbrev pub IsBytes : List ℕ → Type 0
IsBytes b = All (λ x. x < 256) b

-- A tree whose store, root and pending updates fit together.
pub record IsValid (node_hash : Node → Hash) (s : Smt) : Type 0 where
  pub content : IsContent node_hash s.store
  pub stored : IsStored s.store 32 [] s.root
  pub distinct : AreDistinct (pairs_of s.pending)
  pub below : AreBelow [] 32 (pairs_of s.pending)

length-take_pad : (n m : ℕ) (b : List ℕ) → n ≤ m → length (take n (b ++ replicate m 0)) ≡ n
length-take_pad zero m b h = refl
length-take_pad (suc n) zero b h = absurd (omega arith)
length-take_pad (suc n) (suc m) [] h = ap suc (length-take_pad n m [] (omega arith))
length-take_pad (suc n) (suc m) (x ∷ b) h = ap suc (length-take_pad n (suc m) b (omega arith))

take_pad-IsBytes : (n m : ℕ) (b : List ℕ) → IsBytes b → IsBytes (take n (b ++ replicate m 0))
take_pad-IsBytes zero m b h = tt
take_pad-IsBytes (suc n) zero [] h = tt
take_pad-IsBytes (suc n) (suc m) [] h = (omega arith, take_pad-IsBytes n m [] h)
take_pad-IsBytes (suc n) m (x ∷ b) h = (h.0, take_pad-IsBytes n m b h.1)

-- A key of the tree has 32 bytes.
pub to_array-Below : (b : List ℕ) → IsBytes b → Below [] 32 (to_array b)
to_array-Below b h =
    (to_array b, refl, length-take_pad 32 32 b (omega arith), take_pad-IsBytes 32 32 b h)

-- The value of a key that is pending, or else another.
abbrev pub pending_or : Option (Option (List ℕ)) → Option (List ℕ) → Option (List ℕ)
pending_or none old = old
pending_or (some v) old = v

pub get-pending_or :
    (s : Smt) (key : List ℕ)
    → value_of (get s key)
      ≡ pending_or (find (to_array key) s.pending) (value_at 32 s.store s.root (to_array key) 0)
unfolding get
get-pending_or s key =
    pick (find (to_array key) s.pending) (get_at 32 s.store s.root (to_array key) 0)
  where
    pick :
        (o : Option (Option (List ℕ))) (r : Result (List ℕ))
        → value_of (get_pending o r) ≡ pending_or o (value_of r)
    pick none r = refl
    pick (some none) r = refl
    pick (some (some v)) r = refl

-- A key that differs from all of them has no pending update.
find-none :
    (k : List ℕ) (v : Option (List ℕ)) (m : BytesMap (Option (List ℕ)))
    → All (Differ (record { k = k; v = v })) (pairs_of m)
    → find k m ≡ none
find-none k v [] d = refl
find-none k v ((i, w) ∷ m) d = elim (Bool-cases (bytes_eq i k)) [
  | inl e ↦ absurd (
      let f = ap (λ j. bytes_eq j i) (sym (bytes_eq_sound i k e)) in
      let g = d.0 in let r = bytes_eq_refl i in cc)
  | inr e ↦ rw e (find-none k v m d.1)
]

-- What the pending updates write.
pub after-pairs_of :
    (key : List ℕ) (old : Option (List ℕ)) (m : BytesMap (Option (List ℕ)))
    → AreDistinct (pairs_of m)
    → after key old (pairs_of m) ≡ pending_or (find key m) old
after-pairs_of key old [] d = refl
after-pairs_of key old ((i, v) ∷ m) d = elim (Bool-cases (bytes_eq i key)) [
  | inl e ↦
      ap (λ b. after key (if b then v else old) (pairs_of m)) e
      ∙ after-pairs_of key v m d.1
      ∙ ap (λ o. pending_or o v)
          (ap (λ k. find k m) (sym (bytes_eq_sound i key e)) ∙ find-none i v m d.0)
      ∙ sym (ap (λ b. pending_or (if b then some v else find key m) old) e)
  | inr e ↦
      ap (λ b. after key (if b then v else old) (pairs_of m)) e
      ∙ after-pairs_of key old m d.1
      ∙ sym (ap (λ b. pending_or (if b then some v else find key m) old) e)
]

pub put-All :
    (P : Pair → Type 0) (k : List ℕ) (v : Option (List ℕ)) (m : BytesMap (Option (List ℕ)))
    → P (record { k = k; v = v })
    → All P (pairs_of m)
    → All P (pairs_of (put k v m))
put-All P k v [] p h = (p, tt)
put-All P k v ((i, w) ∷ m) p h = elim (Bool-cases (bytes_eq i k)) [
  | inl e ↦ rw e (p, h.1)
  | inr e ↦ rw e (h.0, put-All P k v m p h.1)
]

pub put-AreDistinct :
    (k : List ℕ) (v : Option (List ℕ)) (m : BytesMap (Option (List ℕ)))
    → AreDistinct (pairs_of m)
    → AreDistinct (pairs_of (put k v m))
put-AreDistinct k v [] d = (tt, tt)
put-AreDistinct k v ((i, w) ∷ m) d = elim (Bool-cases (bytes_eq i k)) [
  | inl e ↦ rw e (
    subst (λ j. All (Differ (record { k = j; v = v })) (pairs_of m)) (bytes_eq_sound i k e) d.0,
    d.1,
  )
  | inr e ↦ rw e (put-All (Differ (record { k = i; v = w })) k v m e d.0, put-AreDistinct k v m d.1)
]
