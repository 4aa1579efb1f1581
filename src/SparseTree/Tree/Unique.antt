-- ===== src/SparseTree/Tree/Unique.antt =====
-- The root of the tree of smt-v3/smt.go as a function of the map that it holds.
use onchain_exchange_homewor.Prelude.{
  ℕ, zero, suc, ◌<◌, none, some, List, [], ◌∷◌, ◌++◌, if◌then◌else◌, length, get_or, ◌≡◌, inl, inr,
  refl, sym, ap, ◌∙◌, arith, Bool-cases,
}
use mathlib.Core.Option.{none-ne-some, some-injective}
use onchain_exchange_homewor.MerkleTree.Types.{Hash, bytes_eq, bytes_eq_refl}
use onchain_exchange_homewor.MerkleTree.Hashing.Caching.{bytes_eq_sound}
use onchain_exchange_homewor.SparseTree.Types.{Node, leaf, empty_hash, Store, find}
use onchain_exchange_homewor.SparseTree.Nodes.{node_of}
use onchain_exchange_homewor.SparseTree.Nodes.Stored.{Below, IsStored, value_at}
use onchain_exchange_homewor.SparseTree.Nodes.Reads.{
  Below-back, IsCollisionFree, IsContent, value_at-empty_hash, value_at-leaf,
}
use onchain_exchange_homewor.SparseTree.Tree.Held.{child_value, leaf-Held, held, internal-Two, Two}

same_items :
    {A : Type 0} (xs ys : List A) (d : A)
    → length xs ≡ length ys
    → ((i : ℕ) → i < length xs → get_or xs i d ≡ get_or ys i d)
    → xs ≡ ys
same_items [] [] d n same = refl
same_items [] (y ∷ ys) d n same = absurd (omega arith)
same_items (x ∷ xs) [] d n same = absurd (omega arith)
same_items (x ∷ xs) (y ∷ ys) d n same =
    ap (λ z. z ∷ xs) (same 0 (omega arith))
    ∙ ap (◌∷◌ y) (same_items xs ys d (omega arith) (λ i small. same (suc i) (omega arith)))

module _ (node_hash : Node → Hash) (free : IsCollisionFree node_hash) where
  -- A leaf has a value for its key only.
  leaf_only :
      (levels : ℕ) (st : Store) (root : Hash) (k v key w : List ℕ) (depth : ℕ)
      → IsContent node_hash st
      → find root st ≡ some (leaf k v)
      → value_at levels st root key depth ≡ some w
      → (k ≡ key) × (v ≡ w)
  leaf_only levels st root k v key w depth content at e =
      let f = sym (value_at-leaf node_hash free levels st root key depth k v content at) ∙ e in
      elim (Bool-cases (bytes_eq k key)) [
        | inl t ↦ (
          bytes_eq_sound k key t,
          some-injective v w (sym (ap (λ b. if b then some v else none) t) ∙ f),
        )
        | inr t ↦ absurd (none-ne-some w (sym (ap (λ b. if b then some v else none) t) ∙ f))
      ]

  -- The two trees have the same values below a path.
  abbrev Agree : ℕ → List ℕ → Store → Hash → Store → Hash → Type 0
  Agree levels path st root other_st other =
      (key : List ℕ)
      → Below path levels key
      → value_at levels st root key (length path) ≡ value_at levels other_st other key (length path)

  empty_both :
      (levels : ℕ) (path : List ℕ) (st other_st : Store) (root other : Hash)
      → IsContent node_hash other_st
      → IsStored other_st levels path other
      → root ≡ empty_hash
      → Agree levels path st root other_st other
      → root ≡ other
  empty_both levels path st other_st root other content stored e agree =
      elim (Bool-cases (bytes_eq other empty_hash)) [
        | inl t ↦ e ∙ sym (bytes_eq_sound other empty_hash t)
        | inr t ↦
            let (key, v, below, found) =
              held node_hash free levels path other_st other content stored t in
            absurd (
              none-ne-some v (
                sym (
                  ap (λ h. value_at levels st h key (length path)) e
                  ∙ value_at-empty_hash levels st key (length path))
                ∙ agree key below
                ∙ found))
      ]

  one_key_only :
      (levels : ℕ) (path : List ℕ) (st other_st : Store) (root other : Hash) (k v : List ℕ)
      → IsContent node_hash st
      → find root st ≡ some (leaf k v)
      → Two node_hash free levels path other_st other
      → Agree levels path st root other_st other
      → root ≡ other
  one_key_only levels path st other_st root other k v content at (a, b, away) agree =
      let p =
        (leaf_only levels st root k v a.0 a.1 (length path) content at (agree a.0 a.2 ∙ a.3)).0 in
      let q =
        (leaf_only levels st root k v b.0 b.1 (length path) content at (agree b.0 b.2 ∙ b.3)).0 in
      absurd (away (sym p ∙ q))

  leaf_both :
      (levels : ℕ) (path : List ℕ) (st other_st : Store) (root other : Hash) (k v j w : List ℕ)
      → IsContent node_hash st
      → IsContent node_hash other_st
      → find root st ≡ some (leaf k v)
      → find other other_st ≡ some (leaf j w)
      → Below path levels j
      → Agree levels path st root other_st other
      → root ≡ other
  leaf_both levels path st other_st root other k v j w c d at found below agree =
      let (key, value, under, e) =
        leaf-Held node_hash free levels path other_st other j w d found below in
      let (p, q) = leaf_only levels st root k v j w (length path) c at (
        agree j below
        ∙ value_at-leaf node_hash free levels other_st other j (length path) j w d found
        ∙ rw (bytes_eq_refl j) refl) in
      c root (leaf k v) at
      ∙ ap node_hash (ap (λ i. leaf i v) p ∙ ap (leaf j) q)
      ∙ sym (d other (leaf j w) found)

  Agree-sym :
      (levels : ℕ) (path : List ℕ) (st other_st : Store) (root other : Hash)
      → Agree levels path st root other_st other
      → Agree levels path other_st other st root
  Agree-sym levels path st other_st root other agree key below = sym (agree key below)

  node-Two :
      (levels : ℕ) (path : List ℕ) (st : Store) (root : Hash) (cs : List Hash)
      → IsContent node_hash st
      → IsStored st levels path root
      → find root st ≡ some (node_of cs)
      → Two node_hash free levels path st root
  unfolding node_of
  node-Two levels path st root cs content stored at =
      internal-Two node_hash free levels path st root _ _ content stored at

  -- Trees with the same values have the same root.
  pub root_unique :
      (levels : ℕ) (path : List ℕ) (st other_st : Store) (root other : Hash)
      → IsContent node_hash st
      → IsContent node_hash other_st
      → IsStored st levels path root
      → IsStored other_st levels path other
      → Agree levels path st root other_st other
      → root ≡ other
  root_unique zero path st os root other c d (inl e) there agree =
      empty_both zero path st os root other d there e agree
  root_unique zero path st os root other c d here (inl e) agree =
      sym (
        empty_both zero path os st other root c here e (Agree-sym zero path st os root other agree))
  root_unique zero path st os root other c d (inr (k, v, at, below)) (inr (j, w, found, under))
        agree =
      leaf_both zero path st os root other k v j w c d at found under agree
  root_unique (suc levels) path st os root other c d (inl e) there agree =
      empty_both (suc levels) path st os root other d there e agree
  root_unique (suc levels) path st os root other c d here (inl e) agree = sym (
      empty_both (suc levels) path os st other root c here e
        (Agree-sym (suc levels) path st os root other agree))
  root_unique (suc levels) path st os root other c d (inr (inl (k, v, at, below)))
        (inr (inl (j, w, found, under))) agree =
      leaf_both (suc levels) path st os root other k v j w c d at found under agree
  root_unique (suc levels) path st os root other c d (inr (inl (k, v, at, below)))
        (inr (inr (es, found, n, br, there))) agree =
      one_key_only (suc levels) path st os root other k v c at
        (node-Two (suc levels) path os other es d (inr (inr (es, found, n, br, there))) found) agree
  root_unique (suc levels) path st os root other c d (inr (inr (cs, at, n, br, here)))
        (inr (inl (j, w, found, under))) agree =
      sym (
        one_key_only (suc levels) path os st other root j w d found
          (node-Two (suc levels) path st root cs c (inr (inr (cs, at, n, br, here))) at)
          (Agree-sym (suc levels) path st os root other agree))
  root_unique (suc levels) path st os root other c d (inr (inr (cs, at, size, _, kids)))
        (inr (inr (es, found, width, _, others))) agree =
      let same : (i : ℕ) → i < 256 → get_or cs i empty_hash ≡ get_or es i empty_hash = λ i small.
        root_unique levels (path ++ (i ∷ [])) st os (get_or cs i empty_hash)
          (get_or es i empty_hash) c d (kids i small) (others i small)
          (λ key below.
            sym (child_value node_hash free levels path st root cs i key c at small below)
            ∙ agree key (Below-back path levels i key small below).1
            ∙ child_value node_hash free levels path os other es i key d found small below) in
      c root (node_of cs) at
      ∙ ap (λ l. node_hash (node_of l))
          (same_items cs es empty_hash (size ∙ sym width)
            (λ i small. same i (omega (arith, size, small))))
      ∙ sym (d other (node_of es) found)
