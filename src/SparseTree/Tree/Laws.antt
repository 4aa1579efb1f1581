-- ===== src/SparseTree/Tree/Laws.antt =====
-- `SMT` of smt-v3/smt.go as a map: what `Get` returns after `Set`, `Update` and `Commit`.
use onchain_exchange_homewor.Prelude.{
  ℕ, suc, ◌≤◌, Bool, Option, none, some, List, [], ◌∷◌, if◌then◌else◌, length, ◌≡◌, ◌⊎◌, inl, inr,
  refl, sym, ap, ◌∙◌, arith, Bool-cases,
}
use mathlib.Core.Path.{subst}
use onchain_exchange_homewor.MerkleTree.Types.{Hash, bytes_eq}
use onchain_exchange_homewor.SparseTree.Types.{
  Pair, Node, empty_hash, Store, BytesMap, find, value_of, Result, ok,
}
use onchain_exchange_homewor.SparseTree.Nodes.Stored.{Below, IsStored, value_at, find-put}
use onchain_exchange_homewor.SparseTree.Nodes.Reads.{IsContent}
use onchain_exchange_homewor.SparseTree.Update.Sorted.{after, AreDistinct}
use onchain_exchange_homewor.SparseTree.Update.Spread.{AreBelow}
use onchain_exchange_homewor.SparseTree.Tree.{to_array, Smt, pairs_of, get, set}
use mathlib.Core.Option.{none-ne-some}
use onchain_exchange_homewor.Prelude.{sort_by, All-sort_by}
use onchain_exchange_homewor.SparseTree.Nodes.Reads.{IsCollisionFree}
use onchain_exchange_homewor.SparseTree.Update.{key_before, Left, update_batch}
use onchain_exchange_homewor.SparseTree.Update.Sorted.{sort_by-key_before, after-sort_by}
use onchain_exchange_homewor.SparseTree.Update.Spread.{Ready, Leaves}
use onchain_exchange_homewor.SparseTree.Update.Levels.{update_batch-Updates}
use onchain_exchange_homewor.SparseTree.Tree.{adopt, update, commit, commit_pairs, new_smt}
use onchain_exchange_homewor.SparseTree.Tree.Valid.{
  IsBytes, IsValid, to_array-Below, pending_or, get-pending_or, after-pairs_of, put-All,
  put-AreDistinct,
}

pub new_smt-IsValid : (node_hash : Node → Hash) → IsValid node_hash (new_smt [])
new_smt-IsValid node_hash = record {
  content = λ h n found. absurd (none-ne-some n found);
  stored = inl refl;
  distinct = tt;
  below = tt;
}

-- After `Set` of a key on a valid tree, the tree is valid, and `Get` gives the new value for that
-- key, nothing if the value is nil, and for every other key the value it gave before.
pub get-set :
    (node_hash : Node → Hash) (s : Smt) (key : List ℕ) (value : Option (List ℕ)) (other : List ℕ)
    → IsValid node_hash s
    → IsBytes key
    → IsValid node_hash (set s key value)
      × (value_of (get (set s key value) other)
          ≡ (if bytes_eq (to_array key) (to_array other) then value else value_of (get s other)))
unfolding set
get-set node_hash s key value other valid bytes =
    let k = to_array key in
    let j = to_array other in
    (
      record {
        content = valid.content;
        stored = valid.stored;
        distinct = put-AreDistinct k value s.pending valid.distinct;
        below =
            put-All (λ p. Below [] 32 p.k) k value s.pending (to_array-Below key bytes) valid.below;
      },
      get-pending_or (set s key value) other
          ∙ ap (λ o. pending_or o (value_at 32 s.store s.root j 0)) (find-put k j value s.pending)
          ∙ elim (Bool-cases (bytes_eq k j)) [
            | inl e ↦ rw e refl
            | inr e ↦ rw e (sym (get-pending_or s other))
          ],
    )

sort_one : (p : Pair) → length (sort_by key_before (p ∷ [])) ≡ 1
unfolding sort_by
sort_one p = refl

module _ (node_hash : Node → Hash) (spare : ℕ → ℕ) (free : IsCollisionFree node_hash) where
  -- A tree that took a new root, with the values that a batch writes.
  abbrev Adopted : Smt → BytesMap (Option (List ℕ)) → List Pair → Result Hash × Smt → Type 0
  Adopted s pending xs r =
      (r.0 ≡ ok r.1.root)
      × IsContent node_hash r.1.store
      × IsStored r.1.store 32 [] r.1.root
      × (r.1.pending ≡ pending)
      × ((key : List ℕ)
          → Below [] 32 key
          → value_at 32 r.1.store r.1.root key 0 ≡ after key (value_at 32 s.store s.root key 0) xs)

  adopt_lem :
      (s : Smt) (pending : BytesMap (Option (List ℕ))) (xs : List Pair)
      (r : Result (Left Hash) × Store)
      → Leaves node_hash 32 [] (λ key. value_at 32 s.store s.root key 0) xs [] s.store r
      → Adopted s pending xs (adopt s pending r)
  adopt_lem s pending xs r (h, new, e, c, m, stored, v) =
      subst (λ q. Adopted s pending xs (adopt s pending q)) (sym e) (refl, c, stored, refl, v)

  Adopted-IsValid :
      (s : Smt) (pending : BytesMap (Option (List ℕ))) (xs : List Pair) (r : Result Hash × Smt)
      → Adopted s pending xs r
      → AreDistinct (pairs_of pending)
      → AreBelow [] 32 (pairs_of pending)
      → IsValid node_hash r.1
  Adopted-IsValid s pending xs r (e, c, stored, p, v) distinct below = record {
    content = c;
    stored = stored;
    distinct = subst (λ m. AreDistinct (pairs_of m)) (sym p) distinct;
    below = subst (λ m. AreBelow [] 32 (pairs_of m)) (sym p) below;
  }

  Adopted-get :
      (s : Smt) (pending : BytesMap (Option (List ℕ))) (xs : List Pair) (r : Result Hash × Smt)
      → Adopted s pending xs r
      → (key : List ℕ) → IsBytes key
      → value_of (get r.1 key)
        ≡ pending_or
            (find (to_array key) pending)
            (after (to_array key) (value_at 32 s.store s.root (to_array key) 0) xs)
  Adopted-get s pending xs r (e, c, stored, p, v) key bytes =
      get-pending_or r.1 key
      ∙ ap
          (λ m.
            pending_or (find (to_array key) m) (value_at 32 r.1.store r.1.root (to_array key) 0))
          p
      ∙ ap (pending_or (find (to_array key) pending)) (v (to_array key) (to_array-Below key bytes))

  pub update-pending :
      (s : Smt) (key : List ℕ) (value : Option (List ℕ))
      → IsValid node_hash s
      → IsBytes key
      → (update node_hash spare s key value).1.pending ≡ s.pending
  unfolding update
  update-pending s key value valid bytes =
      let p : Pair = record { k = to_array key; v = value } in
      let r = update_batch node_hash spare 32 0 s.root (p ∷ []) [] s.store in
      (adopt_lem s s.pending (p ∷ []) r (
        update_batch-Updates node_hash spare free 32 [] s.root (p ∷ []) [] s.store valid.content
          valid.stored (to_array-Below key bytes, tt) (tt, tt) (inr (refl, refl)))).3

  -- On a valid tree `Update` returns the new root and no error, the tree stays valid, and `Get`
  -- gives the value of the update for its key, nothing if it is nil, and for every other key the
  -- value it gave before; a key with a pending update keeps the value of that.
  pub get-update :
      (s : Smt) (key : List ℕ) (value : Option (List ℕ)) (other : List ℕ)
      → IsValid node_hash s
      → IsBytes key
      → IsBytes other
      → let r = update node_hash spare s key value in
        (r.0 ≡ ok r.1.root)
        × IsValid node_hash r.1
        × (value_of (get r.1 other)
            ≡ pending_or (find (to_array other) s.pending) (
                if bytes_eq (to_array key) (to_array other) then value else value_of (get s other)))
  unfolding update
  get-update s key value other valid bytes b =
      let p : Pair = record { k = to_array key; v = value } in
      let r = update_batch node_hash spare 32 0 s.root (p ∷ []) [] s.store in
      let left =
        update_batch-Updates node_hash spare free 32 [] s.root (p ∷ []) [] s.store valid.content
          valid.stored (to_array-Below key bytes, tt) (tt, tt) (inr (refl, refl)) in
      let done = adopt_lem s s.pending (p ∷ []) r left in
      (
        done.0,
        Adopted-IsValid s s.pending (p ∷ []) (adopt s s.pending r) done valid.distinct valid.below,
        let j = to_array other in
            Adopted-get s s.pending (p ∷ []) (adopt s s.pending r) done other b
            ∙ pick (find j s.pending) (bytes_eq p.k j) (value_at 32 s.store s.root j 0)
            ∙ ap (λ o. pending_or (find j s.pending) (if bytes_eq p.k j then value else o))
                (sym (get-pending_or s other)),
      )
    where
      pick :
          (o : Option (Option (List ℕ))) (b : Bool) (a : Option (List ℕ))
          → pending_or o (if b then value else a)
            ≡ pending_or o (if b then value else pending_or o a)
      pick none b a = refl
      pick (some v) b a = refl

  commit_pairs-get :
      (s : Smt) (key : List ℕ) (m : BytesMap (Option (List ℕ)))
      → s.pending ≡ m
      → IsBytes key
      → IsValid node_hash s
      → (s.root ≡ empty_hash) ⊎ (length m ≤ 1)
      → let r = commit_pairs node_hash spare s (pairs_of m) in
        (r.0 ≡ ok r.1.root)
        × IsValid node_hash r.1
        × (r.1.pending ≡ [])
        × (value_of (get r.1 key) ≡ value_of (get s key))
  unfolding commit_pairs
  commit_pairs-get s key [] e b valid small = (refl, valid, e, refl)
  commit_pairs-get s key ((k, v) ∷ m) e b valid small =
      let p : Pair = record { k = k; v = v } in
      let xs = p ∷ pairs_of m in
      let ys = sort_by key_before xs in
      let distinct = subst (λ m. AreDistinct (pairs_of m)) e valid.distinct in
      let below = subst (λ m. AreBelow [] 32 (pairs_of m)) e valid.below in
      let r = update_batch node_hash spare 32 0 s.root ys [] s.store in
      let left =
        update_batch-Updates node_hash spare free 32 [] s.root ys [] s.store valid.content
          valid.stored (All-sort_by key_before (λ q. Below [] 32 q.k) xs below)
          (sort_by-key_before xs) (fits m small) in
      let done = adopt_lem s [] ys r left in
      (
        done.0,
        Adopted-IsValid s [] ys (adopt s [] r) done tt tt,
        done.3,
        let j = to_array key in
            let old = value_at 32 s.store s.root j 0 in
            Adopted-get s [] ys (adopt s [] r) done key b
            ∙ after-sort_by j old xs distinct
            ∙ after-pairs_of j old ((k, v) ∷ m) distinct
            ∙ ap (λ n. pending_or (find j n) old) (sym e)
            ∙ sym (get-pending_or s key),
      )
    where
      fits :
          (m : BytesMap (Option (List ℕ)))
          → (s.root ≡ empty_hash) ⊎ (suc (length m) ≤ 1)
          → Ready s.root (sort_by key_before (record { k = k; v = v } ∷ pairs_of m)) []
      fits m (inl empty) = inl empty
      fits [] (inr one) = inr (sort_one _, refl)
      fits (q ∷ m) (inr one) = absurd (omega arith)

  -- On a valid tree that is empty or has at most one pending update, `Commit` returns the new root
  -- and no error, the tree stays valid and has no pending updates left, and `Get` gives for every
  -- key what it gave before.
  pub get-commit :
      (s : Smt) (key : List ℕ)
      → IsBytes key
      → IsValid node_hash s
      → (s.root ≡ empty_hash) ⊎ (length s.pending ≤ 1)
      → let r = commit node_hash spare s in
        (r.0 ≡ ok r.1.root)
        × IsValid node_hash r.1
        × (r.1.pending ≡ [])
        × (value_of (get r.1 key) ≡ value_of (get s key))
  unfolding commit
  get-commit s key bytes valid small = commit_pairs-get s key s.pending refl bytes valid small
