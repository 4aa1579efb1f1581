-- ===== src/SparseTree/Tests/Codes.antt =====
-- A code of the nodes of smt-v3/smt.go, in place of their hash.
use onchain_exchange_homewor.Prelude.{
  ℕ, suc, Bool, true, false, List, [], ◌∷◌, ◌++◌, map, length, ◌≡◌, refl, ap, ◌∙◌, arith,
}
use onchain_exchange_homewor.MerkleTree.Types.{Hash, bytes_eq}
use onchain_exchange_homewor.SparseTree.Types.{Node, internal, leaf, empty_hash}
use onchain_exchange_homewor.SparseTree.Nodes.Reads.{IsCollisionFree}

-- A list with an end that can be told.
abbrev code_list : List ℕ → List ℕ
code_list [] = 0 ∷ []
code_list (x ∷ xs) = suc x ∷ code_list xs

abbrev code_lists : List (List ℕ) → List ℕ
code_lists [] = 0 ∷ []
code_lists (xs ∷ xss) = 1 ∷ code_list xs ++ code_lists xss

abbrev code_bit : Bool → ℕ
code_bit false = 0
code_bit true = 1

abbrev pub node_code : Node → Hash
node_code (leaf k v) = 1 ∷ code_list k ++ v
node_code (internal bits hashes) = 2 ∷ code_list (map code_bit bits) ++ code_lists hashes

tail_of : List ℕ → List ℕ
tail_of [] = []
tail_of (x ∷ xs) = xs

head_of : List ℕ → ℕ
head_of [] = 0
head_of (x ∷ xs) = x

code_list-injective :
    (xs ys a b : List ℕ) → code_list xs ++ a ≡ code_list ys ++ b → (xs ≡ ys) × (a ≡ b)
unfolding tail_of head_of
code_list-injective [] [] a b e = (refl, ap tail_of e)
code_list-injective [] (y ∷ ys) a b e = absurd (omega (arith, ap head_of e))
code_list-injective (x ∷ xs) [] a b e = absurd (omega (arith, ap head_of e))
code_list-injective (x ∷ xs) (y ∷ ys) a b e =
    let (p, q) = code_list-injective xs ys a b (ap tail_of e) in
    let same : x ≡ y = omega (arith, ap head_of e) in (ap (λ z. z ∷ xs) same ∙ ap (◌∷◌ y) p, q)

code_lists-injective : (xs ys : List (List ℕ)) → code_lists xs ≡ code_lists ys → xs ≡ ys
unfolding tail_of head_of
code_lists-injective [] [] e = refl
code_lists-injective [] (y ∷ ys) e = absurd (omega (arith, ap head_of e))
code_lists-injective (x ∷ xs) [] e = absurd (omega (arith, ap head_of e))
code_lists-injective (x ∷ xs) (y ∷ ys) e =
    let (p, q) = code_list-injective x y (code_lists xs) (code_lists ys) (ap tail_of e) in
    ap (λ z. z ∷ xs) p ∙ ap (◌∷◌ y) (code_lists-injective xs ys q)

bits-injective : (cs bs : List Bool) → map code_bit cs ≡ map code_bit bs → cs ≡ bs
unfolding tail_of head_of
bits-injective [] [] e = refl
bits-injective [] (b ∷ bs) e = absurd (omega (arith, ap length e))
bits-injective (a ∷ cs) [] e = absurd (omega (arith, ap length e))
bits-injective (false ∷ cs) (false ∷ bs) e = ap (◌∷◌ false) (bits-injective cs bs (ap tail_of e))
bits-injective (true ∷ cs) (true ∷ bs) e = ap (◌∷◌ true) (bits-injective cs bs (ap tail_of e))
bits-injective (false ∷ cs) (true ∷ bs) e = absurd (omega (arith, ap head_of e))
bits-injective (true ∷ cs) (false ∷ bs) e = absurd (omega (arith, ap head_of e))

pub node_code-IsCollisionFree : IsCollisionFree node_code
unfolding tail_of head_of bytes_eq
node_code-IsCollisionFree = record { same_node = same; not_empty = live }
  where
    same : (n m : Node) → node_code n ≡ node_code m → n ≡ m
    same (leaf k v) (leaf j w) e =
        let (p, q) = code_list-injective k j v w (ap tail_of e) in
        ap (λ i. leaf i v) p ∙ ap (leaf j) q
    same (leaf k v) (internal bits hs) e = absurd (omega (arith, ap head_of e))
    same (internal bits hs) (leaf k v) e = absurd (omega (arith, ap head_of e))
    same (internal cs hs) (internal bs js) e =
        let (p, q) =
          code_list-injective (map code_bit cs) (map code_bit bs) (code_lists hs) (code_lists js)
            (ap tail_of e) in
        ap (λ b. internal b hs) (bits-injective cs bs p)
        ∙ ap (internal bs) (code_lists-injective hs js q)

    live : (n : Node) → bytes_eq (node_code n) empty_hash ≡ false
    live (leaf k v) = refl
    live (internal bits hs) = refl
