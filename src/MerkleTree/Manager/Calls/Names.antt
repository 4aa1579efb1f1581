-- ===== src/MerkleTree/Manager/Calls/Names.antt =====
-- The names of a map that is written.
use onchain_exchange_homewor.Prelude.{
  ℕ, false, none, some, List, [], ◌∷◌, if◌then◌else◌, All, ◌≡◌, refl, sym, ap, ◌∙◌, inl, inr,
  Bool-cases, arith,
}
use mathlib.Core.Path.{subst}
use onchain_exchange_homewor.MerkleTree.Types.{bytes_eq}
use onchain_exchange_homewor.MerkleTree.Hashing.Caching.{bytes_eq_sound}
use onchain_exchange_homewor.SparseTree.Types.{BytesMap, find, put, delete_key}
use onchain_exchange_homewor.SparseTree.Nodes.Stored.{find-put, find-delete_key}
use onchain_exchange_homewor.MerkleTree.Manager.{names_of}

-- No name stands twice.
abbrev pub AreApart : List (List ℕ) → Type 0
AreApart [] = Unit
AreApart (n ∷ names) = All (λ k. bytes_eq k n ≡ false) names × AreApart names

pub bytes_eq_sym : (xs ys : List ℕ) → bytes_eq xs ys ≡ bytes_eq ys xs
unfolding bytes_eq
bytes_eq_sym [] [] = refl
bytes_eq_sym [] (y ∷ ys) = refl
bytes_eq_sym (x ∷ xs) [] = refl
bytes_eq_sym (x ∷ xs) (y ∷ ys) = let ih = bytes_eq_sym xs ys in rw ih (ground arith)

pub none-find :
    {V : Type 0} (name : List ℕ) (m : BytesMap V)
    → All (λ n. bytes_eq n name ≡ false) (names_of m)
    → find name m ≡ none
none-find name [] h = refl
none-find name ((i, x) ∷ m) h = rw (h.0, find) (none-find name m h.1)

put-All :
    {V : Type 0} (P : List ℕ → Type 0) (name : List ℕ) (v : V) (m : BytesMap V)
    → P name
    → All P (names_of m)
    → All P (names_of (put name v m))
put-All P name v [] p h = (p, tt)
put-All P name v ((i, x) ∷ m) p h = elim (Bool-cases (bytes_eq i name)) [
  | inl a ↦ rw (a, put) (p, h.1)
  | inr a ↦ rw (a, put) (h.0, put-All P name v m p h.1)
]

pub put-AreApart :
    {V : Type 0} (name : List ℕ) (v : V) (m : BytesMap V)
    → AreApart (names_of m)
    → AreApart (names_of (put name v m))
put-AreApart name v [] h = (tt, tt)
put-AreApart name v ((i, x) ∷ m) h = elim (Bool-cases (bytes_eq i name)) [
  | inl a ↦ rw (a, put) (subst (λ i. AreApart (i ∷ names_of m)) (bytes_eq_sound i name a) h)
  | inr a ↦
      rw (a, put) (put-All _ name v m (bytes_eq_sym name i ∙ a) h.0, put-AreApart name v m h.1)
]

pub delete_key-All :
    {V : Type 0} (P : List ℕ → Type 0) (name : List ℕ) (m : BytesMap V)
    → All P (names_of m)
    → All P (names_of (delete_key name m))
delete_key-All P name [] h = tt
delete_key-All P name ((i, x) ∷ m) h =
    let rest = delete_key-All P name m h.1 in
    elim (Bool-cases (bytes_eq i name)) [
      | inl a ↦ rw (a, delete_key) rest
      | inr a ↦ rw (a, delete_key) (h.0, rest)
    ]

pub delete_key-AreApart :
    {V : Type 0} (name : List ℕ) (m : BytesMap V)
    → AreApart (names_of m)
    → AreApart (names_of (delete_key name m))
delete_key-AreApart name [] h = tt
delete_key-AreApart name ((i, x) ∷ m) h =
    let rest = delete_key-AreApart name m h.1 in
    elim (Bool-cases (bytes_eq i name)) [
      | inl a ↦ rw (a, delete_key) rest
      | inr a ↦ rw (a, delete_key) (delete_key-All _ name m h.0, rest)
    ]

pub put-none :
    {V : Type 0} (name n : List ℕ) (v : V) (m : BytesMap V)
    → find n (put name v m) ≡ none
    → find n m ≡ none
put-none name n v m e = elim (Bool-cases (bytes_eq name n)) [
  | inl a ↦
      let there : some v ≡ none =
        sym (find-put name n v m ∙ ap (λ b. if b then some v else find n m) a) ∙ e in
      cc
  | inr a ↦ sym (find-put name n v m ∙ ap (λ b. if b then some v else find n m) a) ∙ e
]

-- What is deleted is not there, and all else is as before.
pub delete_key-none :
    {V W : Type 0} (name n : List ℕ) (m : BytesMap V) (cache : BytesMap W)
    → (find n m ≡ none → find n cache ≡ none)
    → find n (delete_key name m) ≡ none
    → find n (delete_key name cache) ≡ none
delete_key-none name n m cache narrow e =
    find-delete_key name n cache ∙ elim (Bool-cases (bytes_eq name n)) [
      | inl a ↦ rw a refl
      | inr a ↦
          rw a
            (narrow (sym (find-delete_key name n m ∙ ap (λ b. if b then none else find n m) a) ∙ e))
    ]
