-- ===== src/MerkleTree/Lru/Keyed.antt =====
-- The places of the cache: the node of an ID has that ID, and evictions keep that.
use onchain_exchange_homewor.Prelude.{
  ℕ, ◌<◌, Option, none, some, ◌==◌, ◌≡◌, ◌≢◌, refl, sym, ap, ◌∙◌, arith, Bool-cases, inl, inr, Map,
  lookup, erase, lookup-erase,
}
use onchain_exchange_homewor.MerkleTree.Lru.{LruNode, LruCache, remove_node, remove_tail}
use onchain_exchange_homewor.MerkleTree.Lru.Links.{label, Relinked, remove_node-Relinks}

pub erase-kept :
    (id j p : ℕ) (m : Map ℕ) → lookup j (erase id m) ≡ some p → (id ≢ j) × (lookup j m ≡ some p)
erase-kept id j p m there =
    let e = sym (lookup-erase id j m) ∙ there in
    elim (Bool-cases (id == j)) [
      | inl same ↦ absurd (let n : none ≡ some p = rw same at e in cc)
      | inr other ↦ (ground (arith, other), rw other at e)
    ]

module _ {T : Type 0} where
  -- The cache has the item under the ID.
  abbrev pub Holds : LruCache T → ℕ → T → Type 0
  Holds c j x = (p : ℕ) × (lookup j c.cache ≡ some p) × (label p c ≡ some (j, x))

  -- The node of an ID has that ID, and its place is taken.
  pub record IsKeyed (c : LruCache T) : Type 0 where
    pub node : (j p : ℕ) → lookup j c.cache ≡ some p → (x : T) × (label p c ≡ some (j, x))
    pub taken : (j p : ℕ) → lookup j c.cache ≡ some p → p < c.fresh

  -- Some IDs may be gone, and the nodes have the IDs and values that they had.
  pub record Shrunk (c c' : LruCache T) : Type 0 where
    pub kept : (j p : ℕ) → lookup j c'.cache ≡ some p → lookup j c.cache ≡ some p
    pub fresh : c'.fresh ≡ c.fresh
    pub label : (p : ℕ) → label p c' ≡ label p c

  pub Shrunk-Holds : (c c' : LruCache T) (j : ℕ) (x : T) → Shrunk c c' → Holds c' j x → Holds c j x
  Shrunk-Holds c c' j x s (p, there, e) = (p, s.kept j p there, sym (s.label p) ∙ e)

  pub Shrunk-IsKeyed : (c c' : LruCache T) → Shrunk c c' → IsKeyed c → IsKeyed c'
  Shrunk-IsKeyed c c' s h = record {
    node = λ j p there. let (x, e) = h.node j p (s.kept j p there) in (x, s.label p ∙ e);
    taken = λ j p there.
        let t = h.taken j p (s.kept j p there) in let f = s.fresh in omega (arith, t, f);
  }

  pub Shrunk-trans : (c c' c'' : LruCache T) → Shrunk c c' → Shrunk c' c'' → Shrunk c c''
  Shrunk-trans c c' c'' s t = record {
    kept = λ j p there. s.kept j p (t.kept j p there);
    fresh = t.fresh ∙ s.fresh;
    label = λ p. t.label p ∙ s.label p;
  }

  pub Relinked-Shrunk : (c c' : LruCache T) → Relinked c c' → Shrunk c c'
  Relinked-Shrunk c c' r = record {
    kept = λ j p there. sym (ap (lookup j) r.cache) ∙ there;
    fresh = r.fresh;
    label = r.label;
  }

  erased-Shrunk : (id : ℕ) (c : LruCache T) → Shrunk c (record c { cache = erase id c.cache })
  erased-Shrunk id c = record {
    kept = λ j p there. (erase-kept id j p c.cache there).1;
    fresh = refl;
    label = λ p. refl;
  }

  pub remove_erased-Shrunk :
      (id p : ℕ) (c : LruCache T) → Shrunk c (remove_node p (record c { cache = erase id c.cache }))
  remove_erased-Shrunk id p c =
      let c' : LruCache T = record c { cache = erase id c.cache } in
      Shrunk-trans c c' (remove_node p c') (erased-Shrunk id c)
        (Relinked-Shrunk c' (remove_node p c') (remove_node-Relinks p c'))

  pub same-Shrunk : (c : LruCache T) → Shrunk c c
  same-Shrunk c = record { kept = λ j p there. there; fresh = refl; label = λ p. refl }

  pub remove_tail-Shrunk : (c : LruCache T) → Shrunk c (remove_tail c)
  unfolding remove_tail
  remove_tail-Shrunk c = of_tail c.tail
    where
      of_node :
          (p : ℕ) (o : Option (LruNode T))
          → Shrunk c (elim o [
            | none ↦ c
            | some n ↦ remove_node p (record c { cache = erase n.id c.cache })
          ])
      of_node p none = same-Shrunk c
      of_node p (some n) = remove_erased-Shrunk n.id p c

      of_tail :
          (o : Option ℕ)
          → Shrunk c (elim o [
            | none ↦ c
            | some p ↦ elim (lookup p c.nodes) [
              | none ↦ c
              | some n ↦ remove_node p (record c { cache = erase n.id c.cache })
            ]
          ])
      of_tail none = same-Shrunk c
      of_tail (some p) = of_node p (lookup p c.nodes)
