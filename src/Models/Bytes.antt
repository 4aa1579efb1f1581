-- ===== src/Models/Bytes.antt =====
-- Big-endian numbers and fixed fields of a byte slice, as mt-manager/models reads and writes them.
use Prim.Native.Nat.add
use mathlib.Core.Path.{ap₂}
use mathlib.Core.List.{append-nil, append_assoc}
use onchain_exchange_homewor.Prelude.{
  ◌-◌, ℕ, zero, suc, ◌+◌, ◌*◌, ◌/◌, ◌%◌, ◌<◌, ◌≤◌, ◌≡◌, refl, sym, ap, ◌∙◌, List, [], ◌∷◌, ◌++◌,
  arith, length, take, drop, All,
}

-- `binary.BigEndian.PutUint64`, `PutUint32`: the low byte comes last.
unfoldable pub put_be : ℕ → ℕ → List ℕ
put_be zero n = []
put_be (suc w) n = put_be w (n / 256) ++ (n % 256 ∷ [])

-- `binary.BigEndian.Uint64`, `Uint32`, with what is read so far.
unfoldable pub get_be : ℕ → List ℕ → ℕ
get_be acc [] = acc
get_be acc (b ∷ bs) = get_be (acc * 256 + b) bs

-- The numbers of so many bytes are those below.
abbrev pub numbers : ℕ → ℕ
numbers zero = 1
numbers (suc w) = 256 * numbers w

abbrev pub IsByte : ℕ → Type 0
IsByte b = b < 256

pub length-put_be : (w n : ℕ) → length (put_be w n) ≡ w
unfolding put_be
length-put_be zero n = refl
length-put_be (suc w) n =
    length-snoc (put_be w (n / 256)) (n % 256) ∙ ap suc (length-put_be w (n / 256))
  where
    length-snoc : (xs : List ℕ) (x : ℕ) → length (xs ++ (x ∷ [])) ≡ suc (length xs)
    length-snoc [] x = refl
    length-snoc (y ∷ xs) x = ap suc (length-snoc xs x)

get_be-snoc :
    (acc : ℕ) (bs : List ℕ) (b : ℕ) → get_be acc (bs ++ (b ∷ [])) ≡ get_be acc bs * 256 + b
unfolding get_be
get_be-snoc acc [] b = refl
get_be-snoc acc (c ∷ bs) b = get_be-snoc (acc * 256 + c) bs b

-- A number that fits is read back.
pub get_be-put_be : (w n : ℕ) → n < numbers w → get_be 0 (put_be w n) ≡ n
unfolding put_be get_be
get_be-put_be zero n h = omega arith
get_be-put_be (suc w) n h =
    let ih = get_be-put_be w (n / 256) (omega arith) in
    omega (arith, get_be-snoc 0 (put_be w (n / 256)) (n % 256), ih)

pub take-append : (xs ys : List ℕ) (n : ℕ) → length xs ≡ n → take n (xs ++ ys) ≡ xs
take-append [] ys zero h = refl
take-append [] ys (suc n) h = absurd (omega arith)
take-append (x ∷ xs) ys zero h = absurd (omega arith)
take-append (x ∷ xs) ys (suc n) h = ap (◌∷◌ x) (take-append xs ys n (omega arith))

pub drop-append : (xs ys : List ℕ) (n : ℕ) → length xs ≡ n → drop n (xs ++ ys) ≡ ys
drop-append [] ys zero h = refl
drop-append [] ys (suc n) h = absurd (omega arith)
drop-append (x ∷ xs) ys zero h = absurd (omega arith)
drop-append (x ∷ xs) ys (suc n) h = drop-append xs ys n (omega arith)

-- A number written in front of other bytes is read back, and leaves them.
pub take-put_be : (w n : ℕ) (ys : List ℕ) → take w (put_be w n ++ ys) ≡ put_be w n
take-put_be w n ys = take-append (put_be w n) ys w (length-put_be w n)

pub drop-put_be : (w n : ℕ) (ys : List ℕ) → drop w (put_be w n ++ ys) ≡ ys
drop-put_be w n ys = drop-append (put_be w n) ys w (length-put_be w n)

-- The bytes that a reader splits off, `n` at a time, are those that stand there.
pub take-add : (m n : ℕ) (xs : List ℕ) → take (m + n) xs ≡ take m xs ++ take n (drop m xs)
take-add zero n xs = rw add.zero
take-add (suc m) n [] = rw add.suc (sym (take-nil n))
  where
    take-nil : (k : ℕ) → take {A = ℕ} k [] ≡ []
    take-nil zero = refl
    take-nil (suc k) = refl
take-add (suc m) n (x ∷ xs) = rw add.suc (ap (◌∷◌ x) (take-add m n xs))

pub drop-add : (m n : ℕ) (xs : List ℕ) → drop n (drop m xs) ≡ drop (m + n) xs
drop-add zero n xs = rw add.zero
drop-add (suc m) n [] = rw add.suc (drop-nil n)
  where
    drop-nil : (k : ℕ) → drop {A = ℕ} k [] ≡ []
    drop-nil zero = refl
    drop-nil (suc k) = refl
drop-add (suc m) n (x ∷ xs) = rw add.suc (drop-add m n xs)

-- Equal bytes behind parts of the same length: both parts are equal.
pub append-cancel :
    (xs xs' : List ℕ) {ys ys' : List ℕ}
    → length xs ≡ length xs'
    → xs ++ ys ≡ xs' ++ ys'
    → (xs ≡ xs') × (ys ≡ ys')
append-cancel xs xs' {ys} {ys'} h e = (
  sym (take-append xs ys (length xs) refl)
      ∙ ap (take (length xs)) e
      ∙ take-append xs' ys' (length xs) (sym h),
  sym (drop-append xs ys (length xs) refl)
      ∙ ap (drop (length xs)) e
      ∙ drop-append xs' ys' (length xs) (sym h),
)

-- Numbers that fit are equal where their bytes are.
pub put_be-cancel :
    (w n n' : ℕ) → n < numbers w → n' < numbers w → put_be w n ≡ put_be w n' → n ≡ n'
put_be-cancel w n n' h h' e = sym (get_be-put_be w n h) ∙ ap (get_be 0) e ∙ get_be-put_be w n' h'

pub put_be-append :
    (w : ℕ) {n n' : ℕ} {ys ys' : List ℕ}
    → n < numbers w
    → n' < numbers w
    → put_be w n ++ ys ≡ put_be w n' ++ ys'
    → (n ≡ n') × (ys ≡ ys')
put_be-append w {n} {n'} h h' e =
    let (same, rest) =
      append-cancel (put_be w n) (put_be w n') (length-put_be w n ∙ sym (length-put_be w n')) e in
    (put_be-cancel w n n' h h' same, rest)

pub length-take : (n : ℕ) (xs : List ℕ) → n ≤ length xs → length (take n xs) ≡ n
length-take zero xs h = refl
length-take (suc n) [] h = absurd (omega arith)
length-take (suc n) (x ∷ xs) h = ap suc (length-take n xs (omega arith))

pub length-drop : (n : ℕ) (xs : List ℕ) → length (drop n xs) ≡ length xs - n
length-drop zero xs = omega arith
length-drop (suc n) [] = omega arith
length-drop (suc n) (x ∷ xs) = omega (arith, length-drop n xs)

All-take : (n : ℕ) (xs : List ℕ) → All IsByte xs → All IsByte (take n xs)
All-take zero xs h = tt
All-take (suc n) [] h = tt
All-take (suc n) (x ∷ xs) h = (h.0, All-take n xs h.1)

pub All-drop : (n : ℕ) (xs : List ℕ) → All IsByte xs → All IsByte (drop n xs)
All-drop zero xs h = h
All-drop (suc n) [] h = tt
All-drop (suc n) (x ∷ xs) h = All-drop n xs h.1

-- So many bytes, read as a number behind those of `acc`, are written back.
put_be-get_be :
    (bs : List ℕ) (acc k : ℕ)
    → All IsByte bs
    → put_be (length bs + k) (get_be acc bs) ≡ put_be k acc ++ bs
unfolding put_be get_be
put_be-get_be [] acc k h = let e : 0 + k ≡ k = omega arith in rw e (sym (append-nil (put_be k acc)))
put_be-get_be (b ∷ bs) acc k h =
    let e : suc (length bs) + k ≡ length bs + suc k = omega arith in
    let high : (acc * 256 + b) / 256 ≡ acc = omega (arith, h.0) in
    let low : (acc * 256 + b) % 256 ≡ b = omega (arith, h.0) in
    let ih = put_be-get_be bs (acc * 256 + b) (suc k) h.1 in
    ap (λ w. put_be w (get_be (acc * 256 + b) bs)) e
    ∙ ih
    ∙ ap₂ (λ q r. (put_be k q ++ (r ∷ [])) ++ bs) high low
    ∙ append_assoc (put_be k acc) (b ∷ []) bs

pub put_be-take :
    (w : ℕ) (bytes : List ℕ)
    → All IsByte bytes
    → w ≤ length bytes
    → put_be w (get_be 0 (take w bytes)) ≡ take w bytes
unfolding put_be
put_be-take w bytes h long =
    let e : w ≡ length (take w bytes) + 0 = omega (arith, length-take w bytes long) in
    ap (λ k. put_be k (get_be 0 (take w bytes))) e
    ∙ put_be-get_be (take w bytes) 0 0 (All-take w bytes h)
    ∙ none_first (take w bytes)
  where
    none_first : (xs : List ℕ) → put_be 0 0 ++ xs ≡ xs
    none_first xs = refl

-- At least `n` bytes.
abbrev pub HasBytes : ℕ → List ℕ → Type 0
HasBytes n bytes = All IsByte bytes × (n ≤ length bytes)

module _ (w n : ℕ) (bytes : List ℕ) (h : HasBytes (w + n) bytes) {rest : List ℕ}
    (next : HasBytes n (drop w bytes) → rest ≡ take n (drop w bytes)) where
  behind : rest ≡ take n (drop w bytes)
  behind = next (All-drop w bytes h.0, omega (arith, h.1, length-drop w bytes))

  -- A field that is read and written again, and what is known of the fields behind it.
  pub rewrite_field : put_be w (get_be 0 (take w bytes)) ++ rest ≡ take (w + n) bytes
  rewrite_field =
      ap₂ ◌++◌ (put_be-take w bytes h.0 (omega (arith, h.1))) behind ∙ sym (take-add w n bytes)

  pub rewrite_bytes : take w bytes ++ rest ≡ take (w + n) bytes
  rewrite_bytes = ap (◌++◌ (take w bytes)) behind ∙ sym (take-add w n bytes)

-- A last field that is a number.
pub one_field :
    (w : ℕ) (bytes : List ℕ) → HasBytes w bytes → put_be w (get_be 0 (take w bytes)) ≡ take w bytes
one_field w bytes h = put_be-take w bytes h.0 h.1
