-- ===== src/SparseTree/Tree/Roots.antt =====
-- The root of `SMT` of smt-v3/smt.go does not depend on how its map came about.
use onchain_exchange_homewor.Prelude.{
  ℕ, false, Option, List, [], ◌++◌, if◌then◌else◌, take, replicate, ◌≡◌, sym, ap, ◌∙◌,
}
use mathlib.Core.Path.{subst}
use onchain_exchange_homewor.MerkleTree.Types.{Hash, bytes_eq}
use onchain_exchange_homewor.SparseTree.Types.{Node, find, value_of}
use onchain_exchange_homewor.SparseTree.Nodes.Stored.{Below, value_at}
use onchain_exchange_homewor.SparseTree.Tree.{to_array, Smt, get}
use onchain_exchange_homewor.SparseTree.Nodes.Reads.{IsCollisionFree}
use onchain_exchange_homewor.SparseTree.Tree.{update}
use onchain_exchange_homewor.SparseTree.Tree.Valid.{IsBytes, IsValid, pending_or, get-pending_or}
use onchain_exchange_homewor.SparseTree.Update.Sorted.{swap_writes}
use onchain_exchange_homewor.SparseTree.Update.Spread.{take-append}
use onchain_exchange_homewor.SparseTree.Tree.Laws.{get-update, update-pending}
use onchain_exchange_homewor.SparseTree.Tree.Unique.{root_unique}

to_array-key : (key : List ℕ) → Below [] 32 key → (IsBytes key) × (to_array key ≡ key)
to_array-key key (rest, e, n, bytes) = (
  subst IsBytes (sym e) bytes,
  subst (λ k. to_array k ≡ k) (sym e)
      (subst (λ m. take m (rest ++ replicate 32 0) ≡ rest) n (take-append rest (replicate 32 0))),
)

-- What a tree without pending updates gives for a key is what is stored.
get-stored :
    (s : Smt) (key : List ℕ)
    → s.pending ≡ []
    → Below [] 32 key
    → value_of (get s key) ≡ value_at 32 s.store s.root key 0
get-stored s key none_pending below =
    get-pending_or s key
    ∙ ap (λ m. pending_or (find (to_array key) m) (value_at 32 s.store s.root (to_array key) 0))
        none_pending
    ∙ ap (λ k. value_at 32 s.store s.root k 0) (to_array-key key below).1

module _ (node_hash : Node → Hash) (free : IsCollisionFree node_hash) where
  -- Two valid trees without pending updates, whose `Get` gives the same for every key, have the
  -- same root, if the hash has no collisions.
  pub root-get :
      (s t : Smt)
      → IsValid node_hash s
      → IsValid node_hash t
      → s.pending ≡ []
      → t.pending ≡ []
      → ((key : List ℕ) → IsBytes key → value_of (get s key) ≡ value_of (get t key))
      → s.root ≡ t.root
  root-get s t v w p q same =
      root_unique node_hash free 32 [] s.store t.store s.root t.root v.content w.content v.stored
        w.stored
        (λ key below.
          sym (get-stored s key p below)
          ∙ same key (to_array-key key below).0
          ∙ get-stored t key q below)

  module _ (spare : ℕ → ℕ) where
    pub update_twice :
        (s : Smt) (a b : List ℕ) (v w : Option (List ℕ)) (key : List ℕ)
        → IsValid node_hash s
        → s.pending ≡ []
        → IsBytes a
        → IsBytes b
        → IsBytes key
        → value_of (get (update node_hash spare (update node_hash spare s a v).1 b w).1 key) ≡ (
            if bytes_eq (to_array b) (to_array key)
            then w
            else if bytes_eq (to_array a) (to_array key)
            then v
            else value_of (get s key))
    update_twice s a b v w key valid none_pending x y z =
        let first = get-update node_hash spare free s a v key valid x z in
        let second =
          get-update node_hash spare free (update node_hash spare s a v).1 b w key first.1 y z in
        let now = value_of (get (update node_hash spare s a v).1 key) in
        second.2
        ∙ ap
            (λ m.
              pending_or (find (to_array key) m)
                (if bytes_eq (to_array b) (to_array key) then w else now))
            (update-pending node_hash spare free s a v valid x ∙ none_pending)
        ∙ ap (λ o. if bytes_eq (to_array b) (to_array key) then w else o)
            (first.2
              ∙ ap
                  (λ m.
                    pending_or (find (to_array key) m)
                      (if bytes_eq (to_array a) (to_array key) then v else value_of (get s key)))
                  none_pending)

    -- On a valid tree without pending updates, two updates of different keys lead to the same root
    -- in either order.
    pub update-update :
        (s : Smt) (a b : List ℕ) (v w : Option (List ℕ))
        → IsValid node_hash s
        → s.pending ≡ []
        → IsBytes a
        → IsBytes b
        → bytes_eq (to_array a) (to_array b) ≡ false
        → (update node_hash spare (update node_hash spare s a v).1 b w).1.root
          ≡ (update node_hash spare (update node_hash spare s b w).1 a v).1.root
    update-update s a b v w valid none_pending x y apart =
        let sa = (update node_hash spare s a v).1 in
        let sb = (update node_hash spare s b w).1 in
        let va = (get-update node_hash spare free s a v a valid x x).1 in
        let vb = (get-update node_hash spare free s b w b valid y y).1 in
        root-get (update node_hash spare sa b w).1 (update node_hash spare sb a v).1
          (get-update node_hash spare free sa b w b va y y).1
          (get-update node_hash spare free sb a v a vb x x).1
          (update-pending node_hash spare free sa b w va y
            ∙ update-pending node_hash spare free s a v valid x
            ∙ none_pending)
          (update-pending node_hash spare free sb a v vb x
            ∙ update-pending node_hash spare free s b w valid y
            ∙ none_pending)
          (λ key z.
            update_twice s a b v w key valid none_pending x y z
            ∙ swap_writes (to_array key) (value_of (get s key)) (record { k = to_array a; v = v })
                (record { k = to_array b; v = w }) apart
            ∙ sym (update_twice s b a w v key valid none_pending y x z))
