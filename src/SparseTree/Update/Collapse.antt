-- ===== src/SparseTree/Update/Collapse.antt =====
-- The end of `updateBatchParallel` of smt-v3/smt.go: the node that its children give.
use onchain_exchange_homewor.Prelude.{
  ℕ, zero, suc, ◌+◌, ◌<◌, false, Option, none, some, List, [], ◌∷◌, ◌++◌, if◌then◌else◌, get_or,
  length, length-append, select, ◌≡◌, inl, inr, refl, sym, ap, ◌∙◌, arith, Bool-cases,
}
use mathlib.Core.Path.{subst}
use mathlib.Core.Option.{none-ne-some}
use onchain_exchange_homewor.MerkleTree.Types.{Hash, bytes_eq}
use onchain_exchange_homewor.MerkleTree.Hashing.Caching.{bytes_eq_sound}
use onchain_exchange_homewor.SparseTree.Types.{
  empty_hash, Node, internal, leaf, Result, ok, find, put, Store,
}
use onchain_exchange_homewor.SparseTree.Nodes.{is_active, node_of, save, byte_at}
use onchain_exchange_homewor.SparseTree.Nodes.Stored.{
  Below, Extends, IsLeafAt-IsStored, IsStored, IsStored-Extends, IsBranching, IsBranching-Extends,
  value_at,
}
use onchain_exchange_homewor.SparseTree.Nodes.Reads.{
  Below-next, IsCollisionFree, value_at-empty_hash, IsContent, not-empty_hash, leaf-Below,
  Below-back, not_both, value_at-leaf, value_at-node_of, value_at-Extends, put-IsContent,
  put-Extends, find-put_here,
}
use onchain_exchange_homewor.SparseTree.Update.{collapse, collapse_to}
use onchain_exchange_homewor.SparseTree.Update.Select.{
  select_none, select_one, select_head, select_two,
}

active_sound : (h : Hash) → is_active h ≡ false → h ≡ empty_hash
active_sound h e = bytes_eq_sound h empty_hash (let f = e in ground arith)

not_missing :
    {A : Type 0} (st : Store) (levels : ℕ) (path : List ℕ) (root : Hash)
    → bytes_eq root empty_hash ≡ false
    → find root st ≡ none
    → IsStored st levels path root
    → A
not_missing st zero path root live gone (inl e) = not_both root live e
not_missing st (suc levels) path root live gone (inl e) = not_both root live e
not_missing st zero path root live gone (inr (k, v, at, _)) =
    absurd (none-ne-some _ (sym gone ∙ at))
not_missing st (suc levels) path root live gone (inr (inl (k, v, at, _))) =
    absurd (none-ne-some _ (sym gone ∙ at))
not_missing st (suc levels) path root live gone (inr (inr (cs, at, _, _, _))) =
    absurd (none-ne-some _ (sym gone ∙ at))

select_two-IsBranching :
    (cs : List Hash) (st : Store) (a b : Hash) (rest : List Hash)
    → length cs ≡ 256
    → select is_active cs ≡ a ∷ b ∷ rest
    → IsBranching st cs
select_two-IsBranching cs st a b rest size e =
    let (i, j, away, i_small, j_small, p, q) = select_two is_active empty_hash cs a b rest e in
    inl (i, j, away, omega arith, omega arith, ground arith, ground arith)

module _ (node_hash : Node → Hash) (free : IsCollisionFree node_hash) where
  -- The children of a node at a path are stored.
  abbrev pub AreStored : Store → ℕ → List ℕ → List Hash → Type 0
  AreStored st levels path cs =
      (length cs ≡ 256)
      × ((i : ℕ) → i < 256 → IsStored st levels (path ++ (i ∷ [])) (get_or cs i empty_hash))

  -- A run that leaves a root with the values that the children have.
  abbrev pub Joins : ℕ → List ℕ → List Hash → Store → Result Hash × Store → Type 0
  Joins levels path cs st r =
      (h : Hash) × (new : Store) × (r ≡ (ok h, new))
      × IsContent node_hash new
      × Extends st new
      × IsStored new (suc levels) path h
      × ((key : List ℕ)
          → Below path (suc levels) key
          → value_at (suc levels) new h key (length path)
            ≡ value_at levels st (get_or cs (byte_at (length path) key) empty_hash) key
                (length path + 1))

  save-Joins :
      (levels : ℕ) (path : List ℕ) (cs : List Hash) (st : Store)
      → IsContent node_hash st
      → AreStored st levels path cs
      → IsBranching st cs
      → Joins levels path cs st (save node_hash (node_of cs) st)
  unfolding save
  save-Joins levels path cs st content (size, kids) branching =
      let n = node_of cs in
      let new = put (node_hash n) n st in
      let c = put-IsContent node_hash free n st content in
      let more = put-Extends node_hash free n st content in
      let at = find-put_here (node_hash n) n st in
      (
        node_hash n,
        new,
        refl,
        c,
        more,
        inr (
            inr (
              cs,
              at,
              size,
              IsBranching-Extends st new cs more branching,
              λ i h.
                  IsStored-Extends st new levels (path ++ (i ∷ [])) (get_or cs i empty_hash) more
                    (kids i h),
            )),
        λ key below.
            let (small, next) = Below-next path levels key below in
            let i = byte_at (length path) key in
            let child = get_or cs i empty_hash in
            value_at-node_of node_hash free levels new (node_hash n) key (length path) cs c at
            ∙ subst (λ d. value_at levels new child key d ≡ value_at levels st child key d)
                (length-append path (i ∷ []))
                (value_at-Extends node_hash free levels st new (path ++ (i ∷ [])) child key content
                  c more (kids i small) next),
      )

  empty-Joins :
      (levels : ℕ) (path : List ℕ) (cs : List Hash) (st : Store)
      → IsContent node_hash st
      → select is_active cs ≡ []
      → Joins levels path cs st (ok empty_hash, st)
  empty-Joins levels path cs st content none_left = (
    empty_hash,
    st,
    refl,
    content,
    λ h n at. at,
    inl refl,
    λ key below.
        value_at-empty_hash (suc levels) st key (length path)
        ∙ sym (value_at-empty_hash levels st key (length path + 1))
        ∙ ap (λ c. value_at levels st c key (length path + 1))
            (sym (
              select_none is_active empty_hash active_sound cs (byte_at (length path) key)
                none_left)),
  )

  collapse_to-Joins :
      (levels : ℕ) (path : List ℕ) (cs : List Hash) (st : Store) (c : Hash)
      → IsContent node_hash st
      → AreStored st levels path cs
      → select is_active cs ≡ c ∷ []
      → (o : Option Node) → find c st ≡ o
      → Joins levels path cs st (collapse_to node_hash cs c o st)
  unfolding collapse_to
  collapse_to-Joins levels path cs st c content stored one none at =
      let (i, small, same, _) = select_one is_active empty_hash active_sound cs c one in
      let active = select_head is_active empty_hash cs c [] one in
      not_missing st levels (path ++ (i ∷ [])) c (ground arith) at (
        subst (IsStored st levels (path ++ (i ∷ []))) same
          (stored.1 i (omega (arith, stored.0, small))))
  collapse_to-Joins levels path cs st c content stored one (some (internal bits hashes)) at =
      let (i, small, same, _) = select_one is_active empty_hash active_sound cs c one in
      save-Joins levels path cs st content stored
        (inr (i, bits, hashes, omega (arith, stored.0, small), ap (λ d. find d st) same ∙ at))
  collapse_to-Joins levels path cs st c content stored one (some (leaf k v)) at =
      let (i, small, same, other) = select_one is_active empty_hash active_sound cs c one in
      let live = not-empty_hash node_hash free st c (leaf k v) content at in
      let below = leaf-Below node_hash free st levels (path ++ (i ∷ [])) c k v content at (
        subst (IsStored st levels (path ++ (i ∷ []))) same
          (stored.1 i (omega (arith, stored.0, small)))) in
      let (byte, under) = Below-back path levels i k (omega (arith, stored.0, small)) below in
      (
        c,
        st,
        refl,
        content,
        λ h n found. found,
        IsLeafAt-IsStored st (suc levels) path c (k, v, at, under),
        λ key key_below.
            value_at-leaf node_hash free (suc levels) st c key (length path) k v content at
            ∙ elim (other (byte_at (length path) key)) [
              | inl here ↦ sym (
                  ap (λ d. value_at levels st d key (length path + 1))
                    (ap (λ j. get_or cs j empty_hash) (sym here) ∙ same)
                  ∙ value_at-leaf node_hash free levels st c key (length path + 1) k v content at)
              | inr none_there ↦
                  only_leaf key live (λ e.
                    sym same
                    ∙ ap (λ j. get_or cs j empty_hash) (sym byte ∙ ap (byte_at (length path)) e)
                    ∙ none_there)
                  ∙ sym (
                      ap (λ d. value_at levels st d key (length path + 1)) none_there
                      ∙ value_at-empty_hash levels st key (length path + 1))
            ],
      )
    where
      only_leaf :
          (key : List ℕ)
          → bytes_eq c empty_hash ≡ false
          → (k ≡ key → c ≡ empty_hash)
          → (if bytes_eq k key then some v else none) ≡ none
      only_leaf key live only = elim (Bool-cases (bytes_eq k key)) [
        | inl e ↦ not_both c live (only (bytes_eq_sound k key e))
        | inr e ↦ rw e refl
      ]

  pub collapse-Joins :
      (levels : ℕ) (path : List ℕ) (cs : List Hash) (st : Store)
      → IsContent node_hash st
      → AreStored st levels path cs
      → Joins levels path cs st (collapse node_hash cs st)
  unfolding collapse
  collapse-Joins levels path cs st content stored = by_active (select is_active cs) refl
    where
      by_active :
          (hs : List Hash)
          → select is_active cs ≡ hs
          → Joins levels path cs st (elim hs [
            | [] ↦ (ok empty_hash, st)
            | child ∷ [] ↦ collapse_to node_hash cs child (find child st) st
            | a ∷ b ∷ rest ↦ save node_hash (node_of cs) st
          ])
      by_active [] e = empty-Joins levels path cs st content e
      by_active (c ∷ []) e = collapse_to-Joins levels path cs st c content stored e (find c st) refl
      by_active (a ∷ b ∷ rest) e =
          save-Joins levels path cs st content stored
            (select_two-IsBranching cs st a b rest stored.0 e)
