-- ===== src/SparseTree/Tests/Trees.antt =====
-- The tree of smt-v3/smt.go at concrete keys, with a code of the nodes for their hash.
use onchain_exchange_homewor.Prelude.{
  ℕ, none, some, List, [], ◌∷◌, ◌++◌, if◌then◌else◌, sort_by, ◌≡◌, inl, inr, refl, sym, ◌∙◌, arith,
  Bool-cases,
}
use onchain_exchange_homewor.MerkleTree.Types.{Hash, bytes_eq}
use onchain_exchange_homewor.SparseTree.Types.{Node, leaf, value_of, find, put, Pair, Store, ok}
use onchain_exchange_homewor.SparseTree.Nodes.Reads.{
  value_at-empty_hash, IsContent, put-IsContent, find-put_here,
}
use onchain_exchange_homewor.SparseTree.Update.{key_before, has_key, update_batch}
use onchain_exchange_homewor.SparseTree.Update.Overwrites.{update_batch-overwrites}
use onchain_exchange_homewor.SparseTree.Tree.{to_array, Smt, new_smt, get, set, update, commit}
use onchain_exchange_homewor.SparseTree.Tree.Valid.{
  IsBytes, get-pending_or, to_array-Below, IsValid, pending_or,
}
use onchain_exchange_homewor.SparseTree.Tree.Laws.{
  update-pending, new_smt-IsValid, get-set, get-update, get-commit,
}
use onchain_exchange_homewor.SparseTree.Tree.Roots.{root-get, update_twice}
use onchain_exchange_homewor.SparseTree.Tests.Codes.{node_code, node_code-IsCollisionFree}

-- Go's growth of a slice of few elements.
abbrev doubling : ℕ → ℕ
doubling n = n

abbrev key_1 : List ℕ
key_1 = 1 ∷ 1 ∷ []

abbrev key_2 : List ℕ
key_2 = 1 ∷ 2 ∷ []

abbrev key_3 : List ℕ
key_3 = 3 ∷ []

abbrev empty_tree : Smt
empty_tree = new_smt []

abbrev one_key : Smt
one_key = (update node_code doubling empty_tree key_1 (some (7 ∷ []))).1

abbrev two_keys : Smt
two_keys = (update node_code doubling one_key key_3 (some (8 ∷ []))).1

abbrev one_pending : Smt
one_pending = set empty_tree key_1 (some (7 ∷ []))

abbrev two_pending : Smt
two_pending = set one_pending key_2 none

key_1-IsBytes : IsBytes key_1
key_1-IsBytes = (omega arith, (omega arith, tt))

key_2-IsBytes : IsBytes key_2
key_2-IsBytes = (omega arith, (omega arith, tt))

key_3-IsBytes : IsBytes key_3
key_3-IsBytes = (omega arith, tt)

one_pending-IsValid : IsValid node_code one_pending
one_pending-IsValid =
    (get-set node_code empty_tree key_1 (some (7 ∷ [])) key_1 (new_smt-IsValid node_code)
      key_1-IsBytes).0

two_pending-IsValid : IsValid node_code two_pending
two_pending-IsValid =
    (get-set node_code one_pending key_2 none key_1 one_pending-IsValid key_2-IsBytes).0

one_key-IsValid : IsValid node_code one_key
one_key-IsValid =
    (get-update node_code doubling node_code-IsCollisionFree empty_tree key_1 (some (7 ∷ [])) key_1
      (new_smt-IsValid node_code) key_1-IsBytes key_1-IsBytes).1

two_pending_values :
    IsValid node_code two_pending
    × (value_of (get two_pending key_1) ≡ (
        if bytes_eq (to_array key_2) (to_array key_1)
        then none
        else value_of (get one_pending key_1)))
two_pending_values =
    get-set node_code one_pending key_2 none key_1 one_pending-IsValid key_2-IsBytes

get-update_example :
    ((update node_code doubling one_key key_3 (some (8 ∷ []))).0 ≡ ok two_keys.root)
    × IsValid node_code two_keys
    × (value_of (get two_keys key_1)
        ≡ pending_or (find (to_array key_1) one_key.pending) (
            if bytes_eq (to_array key_3) (to_array key_1)
            then some (8 ∷ [])
            else value_of (get one_key key_1)))
get-update_example =
    get-update node_code doubling node_code-IsCollisionFree one_key key_3 (some (8 ∷ [])) key_1
      one_key-IsValid key_3-IsBytes key_1-IsBytes

get-commit_example :
    let r = commit node_code doubling two_pending in
    (r.0 ≡ ok r.1.root)
    × IsValid node_code r.1
    × (r.1.pending ≡ [])
    × (value_of (get r.1 key_1) ≡ value_of (get two_pending key_1))
unfolding set
get-commit_example =
    get-commit node_code doubling node_code-IsCollisionFree two_pending key_1 key_1-IsBytes
      two_pending-IsValid (inl refl)

abbrev leaf_1 : Node
leaf_1 = leaf (to_array key_1) (7 ∷ [])

abbrev leaf_store : Store
leaf_store = put (node_code leaf_1) leaf_1 []

abbrev pair_2 : Pair
pair_2 = record { k = to_array key_2; v = some (9 ∷ []) }

abbrev pair_3 : Pair
pair_3 = record { k = to_array key_3; v = some (8 ∷ []) }

leaf_store-IsContent : IsContent node_code leaf_store
leaf_store-IsContent =
    put-IsContent node_code node_code-IsCollisionFree leaf_1 [] (new_smt-IsValid node_code).content

update_batch-overwrites_example :
    (h : Hash) × (batch : List Pair) × (rest : List Pair) × (new : Store) × (update_batch node_code
        doubling 32 0
        (node_code leaf_1)
        (pair_2 ∷ [])
        (pair_3 ∷ [])
        leaf_store
      ≡ (ok (h, batch, rest), new))
    × (batch ++ rest
        ≡ sort_by key_before (pair_2 ∷ record { k = to_array key_1; v = some (7 ∷ []) } ∷ []) ++ [])
unfolding has_key bytes_eq
update_batch-overwrites_example =
    update_batch-overwrites node_code doubling node_code-IsCollisionFree 31 [] (to_array key_1)
      (7 ∷ []) (node_code leaf_1) pair_2 [] pair_3 [] leaf_store leaf_store-IsContent
      (find-put_here (node_code leaf_1) leaf_1 []) (to_array-Below key_1 key_1-IsBytes)
      (to_array-Below key_2 key_2-IsBytes, tt) refl

-- A `Commit` of two updates on a tree with two leaves: the first meets a leaf with its first byte,
-- and the second is lost.
abbrev more_pending : Smt
more_pending = set (set two_keys key_2 (some (9 ∷ []))) (2 ∷ []) (some (6 ∷ []))

lost_update :
    (value_of (get more_pending (2 ∷ [])) ≡ some (6 ∷ []))
    × (value_of (get (commit node_code doubling more_pending).1 (2 ∷ [])) ≡ none)
    × (value_of (get (commit node_code doubling more_pending).1 key_2) ≡ some (9 ∷ []))
unfolding set get update commit bytes_eq sort_by
lost_update = (refl, refl, refl)

-- A key that is set and deleted.
abbrev no_keys : Smt
no_keys = (update node_code doubling one_key key_1 none).1

no_keys-IsValid : IsValid node_code no_keys
no_keys-IsValid =
    (get-update node_code doubling node_code-IsCollisionFree one_key key_1 none key_1
      one_key-IsValid key_1-IsBytes key_1-IsBytes).1

nothing_there : (key : List ℕ) → value_of (get empty_tree key) ≡ none
nothing_there key = get-pending_or empty_tree key ∙ value_at-empty_hash 32 [] (to_array key) 0

same_as_empty :
    (key : List ℕ) → IsBytes key → value_of (get empty_tree key) ≡ value_of (get no_keys key)
same_as_empty key bytes =
    nothing_there key ∙ elim (Bool-cases (bytes_eq (to_array key_1) (to_array key))) [
      | inl e ↦ sym (
          update_twice node_code node_code-IsCollisionFree doubling empty_tree key_1 key_1
            (some (7 ∷ [])) none key (new_smt-IsValid node_code) refl key_1-IsBytes key_1-IsBytes
            bytes
          ∙ rw e refl)
      | inr e ↦ sym (
          update_twice node_code node_code-IsCollisionFree doubling empty_tree key_1 key_1
            (some (7 ∷ [])) none key (new_smt-IsValid node_code) refl key_1-IsBytes key_1-IsBytes
            bytes
          ∙ rw e (nothing_there key))
    ]

no_keys-pending : no_keys.pending ≡ []
no_keys-pending =
    update-pending node_code doubling node_code-IsCollisionFree one_key key_1 none one_key-IsValid
      key_1-IsBytes
    ∙ update-pending node_code doubling node_code-IsCollisionFree empty_tree key_1 (some (7 ∷ []))
        (new_smt-IsValid node_code) key_1-IsBytes

root-get_example : empty_tree.root ≡ no_keys.root
root-get_example =
    root-get node_code node_code-IsCollisionFree empty_tree no_keys (new_smt-IsValid node_code)
      no_keys-IsValid refl no_keys-pending same_as_empty
