-- ===== src/MerkleTree/Lru/Links.antt =====
-- What moves nodes in the list keeps the IDs and values of all nodes.
use onchain_exchange_homewor.Prelude.{
  ℕ, Bool, true, false, Option, none, some, [], ◌∷◌, ◌==◌, if◌then◌else◌, ◌≡◌, refl, ap, ◌∙◌, arith,
  Map, lookup,
}
use onchain_exchange_homewor.MerkleTree.Lru.{
  LruNode, LruCache, revise, write, link_head, add_to_head, unlink_prev, unlink_next, at_node,
  remove_node, move_to_head, points_to,
}

module _ {T : Type 0} where
  abbrev pub revised : (LruNode T → LruNode T) → Option (LruNode T) → Option (LruNode T)
  revised change none = none
  revised change (some n) = some (change n)

  pub lookup-revise :
      (p q : ℕ) (change : LruNode T → LruNode T) (m : Map (LruNode T))
      → lookup q (revise p change m) ≡ (if p == q then revised change (lookup q m) else lookup q m)
  lookup-revise p q change [] = ground arith
  lookup-revise p q change ((i, n) ∷ m) = ground (arith, lookup-revise p q change m)

  -- The ID and the value of a node.
  abbrev pub labels : Option (LruNode T) → Option (ℕ × T)
  labels none = none
  labels (some n) = some (n.id, n.value)

  abbrev pub label : ℕ → LruCache T → Option (ℕ × T)
  label p c = labels (lookup p c.nodes)

  -- Nothing changed but the links.
  pub record Relinked (c c' : LruCache T) : Type 0 where
    pub cache : c'.cache ≡ c.cache
    pub fresh : c'.fresh ≡ c.fresh
    pub label : (p : ℕ) → label p c' ≡ label p c

  abbrev pub Relinks : (LruCache T → LruCache T) → Type 0
  Relinks f = (c : LruCache T) → Relinked c (f c)

  Relinked-trans : (c c' c'' : LruCache T) → Relinked c c' → Relinked c' c'' → Relinked c c''
  Relinked-trans c c' c'' h k = record {
    cache = k.cache ∙ h.cache;
    fresh = k.fresh ∙ h.fresh;
    label = λ p. k.label p ∙ h.label p;
  }

  write-Relinks :
      (p : ℕ) (change : LruNode T → LruNode T)
      → ((n : LruNode T) → ((change n).id ≡ n.id) × ((change n).value ≡ n.value))
      → Relinks (write p change)
  write-Relinks p change keep c = record {
    cache = refl;
    fresh = refl;
    label = λ q. ap labels (lookup-revise p q change c.nodes) ∙ same q (lookup q c.nodes);
  }
    where
      same :
          (q : ℕ) (o : Option (LruNode T))
          → labels (if p == q then revised change o else o) ≡ labels o
      same q none = ground arith
      same q (some n) = let (i, v) = keep n in ground (arith, i, v)

  at_node-Relinks :
      (p : ℕ) (act : LruNode T → LruCache T → LruCache T)
      → ((n : LruNode T) → Relinks (act n))
      → Relinks (at_node p act)
  at_node-Relinks p act h c = of_node (lookup p c.nodes)
    where
      of_node : (o : Option (LruNode T)) → Relinked c (elim o [ none ↦ c | some n ↦ act n c ])
      of_node none = record { cache = refl; fresh = refl; label = λ q. refl }
      of_node (some n) = h n c

  unlink_prev-Relinks : (n : LruNode T) → Relinks (unlink_prev n)
  unfolding unlink_prev
  unlink_prev-Relinks n c = of_prev n.prev
    where
      of_prev :
          (o : Option ℕ)
          → Relinked c (elim o [
            | none ↦ record c { head = n.next }
            | some q ↦ write q (λ m. record m { next = n.next }) c
          ])
      of_prev none = record { cache = refl; fresh = refl; label = λ q. refl }
      of_prev (some q) = write-Relinks q (λ m. record m { next = n.next }) (λ m. (refl, refl)) c

  unlink_next-Relinks : (n : LruNode T) → Relinks (unlink_next n)
  unfolding unlink_next
  unlink_next-Relinks n c = of_next n.next
    where
      of_next :
          (o : Option ℕ)
          → Relinked c (elim o [
            | none ↦ record c { tail = n.prev }
            | some q ↦ write q (λ m. record m { prev = n.prev }) c
          ])
      of_next none = record { cache = refl; fresh = refl; label = λ q. refl }
      of_next (some q) = write-Relinks q (λ m. record m { prev = n.prev }) (λ m. (refl, refl)) c

  pub remove_node-Relinks : (p : ℕ) → Relinks (remove_node p)
  unfolding remove_node
  remove_node-Relinks p c =
      Relinked-trans c (at_node p unlink_prev c) (at_node p unlink_next (at_node p unlink_prev c))
        (at_node-Relinks p unlink_prev unlink_prev-Relinks c)
        (at_node-Relinks p unlink_next unlink_next-Relinks (at_node p unlink_prev c))

  link_head-Relinks : (p : ℕ) → Relinks (link_head p)
  unfolding link_head
  link_head-Relinks p c = of_head c.head
    where
      of_head :
          (o : Option ℕ)
          → Relinked c (elim o [ none ↦ c | some h ↦ write h (λ n. record n { prev = some p }) c ])
      of_head none = record { cache = refl; fresh = refl; label = λ q. refl }
      of_head (some h) = write-Relinks h (λ n. record n { prev = some p }) (λ m. (refl, refl)) c

  pub add_to_head-Relinks : (p : ℕ) → Relinks (add_to_head p)
  unfolding add_to_head
  add_to_head-Relinks p c =
      let first = write p (λ n. record n { next = c.head; prev = none }) c in
      let linked =
        Relinked-trans c first (link_head p first)
          (write-Relinks p (λ n. record n { next = c.head; prev = none }) (λ m. (refl, refl)) c)
          (link_head-Relinks p first) in
      record { cache = linked.cache; fresh = linked.fresh; label = linked.label }

  pub move_to_head-Relinks : (p : ℕ) → Relinks (move_to_head p)
  unfolding move_to_head
  move_to_head-Relinks p c = either (points_to p c.head)
    where
      either : (b : Bool) → Relinked c (if b then c else add_to_head p (remove_node p c))
      either true = record { cache = refl; fresh = refl; label = λ q. refl }
      either false =
          Relinked-trans c (remove_node p c) (add_to_head p (remove_node p c))
            (remove_node-Relinks p c) (add_to_head-Relinks p (remove_node p c))
