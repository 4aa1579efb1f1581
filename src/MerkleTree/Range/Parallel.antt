-- ===== src/MerkleTree/Range/Parallel.antt =====
-- The parallel queries find what the plain one finds, in whatever order the children's results come.
use onchain_exchange_homewor.Prelude.{
  Bool, true, false, List, [], ◌++◌, if◌then◌else◌, sort_by, Perm-sort_by, ◌≡◌, refl, sym, ap, ◌∙◌,
  Bool-cases, inl, inr,
}
use mathlib.Core.List.{Perm, append_assoc}
use mathlib.Core.List.Perm
use mathlib.Core.List.{Permᴰ}
use mathlib.Core.List.Permᴰ
use mathlib.Core.Logic.{∥∥₁_map}
use mathlib.Core.Path.{subst, subst₂}
use onchain_exchange_homewor.MerkleTree.Types.{
  Hashable, Cell, Node, node, Children, none_left, child, cell, children,
}
use onchain_exchange_homewor.MerkleTree.Range.{
  Query, is_void, range_query_node, range_query_children, range_query, range_query_parallel,
  range_query_auto, child_results, gather, id_before,
}

gather-permᴰ : {T : Type 0} {xs ys : List (List T)} → Permᴰ xs ys → Permᴰ (gather xs) (gather ys)
gather-permᴰ Permᴰ.nil = Permᴰ.nil
gather-permᴰ (Permᴰ.cons {a = a} {b = b} {l₁ = l} {l₂ = m} e d) =
    Permᴰ.trans (Permᴰ.append_left a (gather-permᴰ d))
      (subst (λ c. Permᴰ (a ++ gather m) (c ++ gather m)) e (Permᴰ.refl (a ++ gather m)))
gather-permᴰ (Permᴰ.swap {a = a} {b = b} {a' = a'} {b' = b'} {l = l} e f) =
    subst₂ (λ c d. Permᴰ (a ++ (b ++ gather l)) (d ++ (c ++ gather l))) e f
      (subst₂ Permᴰ (append_assoc a b (gather l)) (append_assoc b a (gather l))
        (Permᴰ.append_right (gather l) (Permᴰ.append_comm a b)))
gather-permᴰ (Permᴰ.trans d d') = Permᴰ.trans (gather-permᴰ d) (gather-permᴰ d')

gather-Perm : {T : Type 0} {xs ys : List (List T)} → Perm xs ys → Perm (gather xs) (gather ys)
gather-Perm h = ∥∥₁_map h gather-permᴰ

module _ {T : Type 0} (hashable : Hashable T) (q : Query) where
  gather-child_results :
      (kids : Children T)
      → gather (child_results hashable q kids) ≡ range_query_children hashable q kids
  unfolding child_results range_query_node
  gather-child_results none_left = refl
  gather-child_results (child k n rest) =
      ap (◌++◌ (range_query_node hashable q n)) (gather-child_results rest)

  node-children :
      (c : Cell T) (kids : Children T)
      → c.is_leaf ≡ false
      → range_query_node hashable q (node c kids) ≡ range_query_children hashable q kids
  unfolding range_query_node
  node-children c kids inner = rw inner

  sorted-Perm :
      (root : Node T) (arrived : List (List T))
      → (cell root).is_leaf ≡ false
      → Perm arrived (child_results hashable q (children root))
      → Perm
          (sort_by (id_before hashable) (gather arrived))
          (sort_by (id_before hashable) (range_query_node hashable q root))
  sorted-Perm (node c kids) arrived inner h =
      let before = id_before hashable in
      let same = gather-child_results kids ∙ sym (node-children c kids inner) in
      Perm.trans (Perm-sort_by before (gather arrived)) (
        Perm.trans (gather-Perm h) (
          subst (λ xs. Perm xs (sort_by before (range_query_node hashable q (node c kids))))
            (sym same)
            (Perm.symm (Perm-sort_by before (range_query_node hashable q (node c kids))))))

  -- `RangeQueryAuto`, `RangeQueryParallel` and `RangeQueryWorkerPool` return the items that
  -- `RangeQuery` returns, each as often, if the root is no leaf and the results of its children all
  -- arrive, in any order.
  pub range_query_auto-Perm :
      (root : Node T) (arrived : List (List T))
      → (cell root).is_leaf ≡ false
      → Perm arrived (child_results hashable q (children root))
      → Perm (range_query_parallel hashable q arrived) (range_query hashable q root)
        × Perm (range_query_auto hashable q arrived root) (range_query hashable q root)
  unfolding range_query range_query_auto
  range_query_auto-Perm root arrived inner h = (found, auto)
    where
      found : Perm (range_query_parallel hashable q arrived) (range_query hashable q root)
      found = elim (Bool-cases (is_void q)) [
        | inl void ↦ rw void (Perm.refl [])
        | inr some_keys ↦ rw some_keys (sorted-Perm root arrived inner h)
      ]

      either :
          (b : Bool)
          → Perm
              (if b
                then sort_by (id_before hashable) (gather arrived)
                else sort_by (id_before hashable) (range_query_node hashable q root))
              (sort_by (id_before hashable) (range_query_node hashable q root))
      either true = sorted-Perm root arrived inner h
      either false = Perm.refl _

      auto : Perm (range_query_auto hashable q arrived root) (range_query hashable q root)
      auto = elim (Bool-cases (is_void q)) [
        | inl void ↦ rw void (Perm.refl [])
        | inr some_keys ↦ rw some_keys (either _)
      ]
