-- ===== src/State/Mirror.antt =====
-- The orders in the database of v2-tx-pipeline/state/state.go, where the goroutines send their writes
-- in the order in which they were started.
use mathlib.Core.List.{append_assoc}
use onchain_exchange_homewor.Prelude.{
  ℕ, ◌<◌, Bool, true, false, Option, none, some, List, [], ◌∷◌, ◌++◌, if◌then◌else◌, ltb, leb, ◌==◌,
  length, replicate, lookup, lookup-insert, lookup-erase, All, ◌≡◌, inl, inr, refl, sym, ap, ◌∙◌,
  arith, Bool-cases,
}
use mathlib.Core.Path.{subst}
use onchain_exchange_homewor.Models.Bytes.{numbers, put_be-cancel}
use onchain_exchange_homewor.MerkleTree.Types.{Hash, bytes_eq, bytes_eq_refl}
use onchain_exchange_homewor.MerkleTree.Hashing.Caching.{bytes_eq_sound}
use onchain_exchange_homewor.SparseTree.Types.{BytesMap, find, put}
use onchain_exchange_homewor.SparseTree.Nodes.Stored.{find-put, find-delete_key}
use onchain_exchange_homewor.State.{
  Order, marshal_order, order_key, root_key, WriteTask, State, set_order, cancel_order, take_out,
  sent, taken, send, apply_task, apply_tasks, commit_batch, write_task, write_tick, save_root,
}

find-apply_task :
    (t : WriteTask) (k : List ℕ) (db : BytesMap (List ℕ))
    → find k (apply_task t db) ≡ (if bytes_eq t.key k then t.value else find k db)
find-apply_task t k db = by_value t.key t.value
  where
    by_value :
        (i : List ℕ) (o : Option (List ℕ))
        → find k (apply_task (record { key = i; value = o }) db)
          ≡ (if bytes_eq i k then o else find k db)
    by_value i none = find-delete_key i k db
    by_value i (some v) = find-put i k v db

apply_tasks-append :
    (ts us : List WriteTask) (db : BytesMap (List ℕ))
    → apply_tasks (ts ++ us) db ≡ apply_tasks us (apply_tasks ts db)
apply_tasks-append [] us db = refl
apply_tasks-append (t ∷ ts) us db = apply_tasks-append ts us (apply_task t db)

-- Writes to a key do not look at other keys.
find-apply_tasks :
    (k : List ℕ) (ts : List WriteTask) (db other : BytesMap (List ℕ))
    → find k db ≡ find k other
    → find k (apply_tasks ts db) ≡ find k (apply_tasks ts other)
find-apply_tasks k [] db other e = e
find-apply_tasks k (t ∷ ts) db other e =
    find-apply_tasks k ts (apply_task t db) (apply_task t other) (
      find-apply_task t k db
      ∙ ap (λ o. if bytes_eq t.key k then t.value else o) e
      ∙ sym (find-apply_task t k other))

order_key-eq :
    (a b : ℕ) → a < numbers 8 → b < numbers 8 → bytes_eq (order_key a) (order_key b) ≡ (a == b)
order_key-eq a b h k = elim (Bool-cases (bytes_eq (order_key a) (order_key b))) [
  | inl e ↦
      let same =
        put_be-cancel 8 a b h k (ap tail_of (bytes_eq_sound (order_key a) (order_key b) e)) in
      e ∙ ground (arith, same)
  | inr e ↦ elim (Bool-cases (a == b)) [
    | inl f ↦
        let same : a ≡ b = ground arith in
        absurd (
          let g = ap (λ c. bytes_eq (order_key a) (order_key c)) same in
          let r = bytes_eq_refl (order_key a) in cc)
    | inr f ↦ e ∙ sym f
  ]
]
  where
    tail_of : List ℕ → List ℕ
    tail_of [] = []
    tail_of (x ∷ xs) = xs

root_apart : (id : ℕ) → bytes_eq root_key (order_key id) ≡ false
unfolding bytes_eq
root_apart id = refl

-- What is on its way to the database, in order.
abbrev pub pending : State → List WriteTask
pending s = s.batch ++ (s.write_ch ++ s.sending)

-- The database after all that is on its way.
abbrev pub settled : State → BytesMap (List ℕ)
settled s = apply_tasks (pending s) s.db

abbrev pub stored : Option Order → Option (List ℕ)
stored none = none
stored (some o) = some (marshal_order o)

-- What happens to a `State`.
pub data Event : Type 0 where
  set_event : Order → Event
  cancel_event : ℕ → Event
  send_event : ℕ → Event
  write_event : Event
  tick_event : Event
  root_event : Hash → Event

abbrev pub happen : Event → State → State
happen (set_event o) s = set_order o s
happen (cancel_event id) s = cancel_order id s
happen (send_event i) s = send i s
happen write_event s = write_task s
happen tick_event s = write_tick s
happen (root_event root) s = save_root root s

abbrev pub happen_all : List Event → State → State
happen_all [] s = s
happen_all (e ∷ es) s = happen_all es (happen e s)

-- IDs are 64 bits wide, and the goroutine that was started first sends first.
abbrev pub IsInOrder : Event → Type 0
IsInOrder (set_event o) = o.id < numbers 8
IsInOrder (cancel_event id) = id < numbers 8
IsInOrder (send_event i) = i ≡ 0
IsInOrder write_event = Unit
IsInOrder tick_event = Unit
IsInOrder (root_event root) = Unit

-- In the database, after all that is on its way, an order is what it is in memory.
abbrev pub IsMirrored : State → ℕ → Type 0
IsMirrored s id = find (order_key id) (settled s) ≡ stored (lookup id s.orders)

-- The same is settled, for the same orders.
abbrev Agrees : State → State → Type 0
Agrees s new = (settled new ≡ settled s) × (new.orders ≡ s.orders)

pub either : (P : State → Type 0) (b : Bool) (s t : State) → P s → P t → P (if b then s else t)
either P true s t p q = p
either P false s t p q = q

sent-Agrees : (s : State) (ts : List WriteTask) → s.sending ≡ ts → Agrees s (sent s (take_out 0 ts))
sent-Agrees s [] e = (refl, refl)
sent-Agrees s (t ∷ rest) e = (
  ap (λ us. apply_tasks (s.batch ++ us) s.db) (append_assoc s.write_ch (t ∷ []) rest)
      ∙ ap (λ us. apply_tasks (s.batch ++ (s.write_ch ++ us)) s.db) (sym e),
  refl,
)

send-Agrees : (s : State) → Agrees s (send 0 s)
unfolding send
send-Agrees s =
    either (Agrees s) (ltb (length s.write_ch) 0x40000) (sent s (take_out 0 s.sending)) s
      (sent-Agrees s s.sending refl) (refl, refl)

commit_batch-Agrees : (s : State) → Agrees s (commit_batch s)
commit_batch-Agrees s = (sym (apply_tasks-append s.batch (s.write_ch ++ s.sending) s.db), refl)

taken-Agrees : (s : State) (ts : List WriteTask) → s.write_ch ≡ ts → Agrees s (taken s ts)
taken-Agrees s [] e = (refl, refl)
taken-Agrees s (t ∷ rest) e =
    let batch = s.batch ++ (t ∷ []) in
    let next : State = record s { write_ch = rest; batch = batch } in
    let same : settled next ≡ settled s =
      ap (λ us. apply_tasks us s.db) (append_assoc s.batch (t ∷ []) (rest ++ s.sending))
      ∙ ap (λ us. apply_tasks (s.batch ++ (us ++ s.sending)) s.db) (sym e) in
    either (Agrees s) (leb 8192 (length batch)) (commit_batch next) next
      ((commit_batch-Agrees next).0 ∙ same, refl) (same, refl)

Agrees-IsMirrored : (s new : State) (id : ℕ) → Agrees s new → IsMirrored s id → IsMirrored new id
Agrees-IsMirrored s new id (e, f) h =
    ap (find (order_key id)) e ∙ h ∙ ap (λ m. stored (lookup id m)) (sym f)

-- A write at the end of what is on its way.
settled-snoc :
    (s : State) (t : WriteTask) (k : List ℕ)
    → find k (apply_tasks (s.batch ++ (s.write_ch ++ (s.sending ++ (t ∷ [])))) s.db)
      ≡ (if bytes_eq t.key k then t.value else find k (settled s))
settled-snoc s t k =
    ap (λ us. find k (apply_tasks us s.db))
      (ap (λ us. s.batch ++ us) (sym (append_assoc s.write_ch s.sending (t ∷ [])))
        ∙ sym (append_assoc s.batch (s.write_ch ++ s.sending) (t ∷ [])))
    ∙ ap (find k) (apply_tasks-append (pending s) (t ∷ []) s.db)
    ∙ find-apply_task t k (settled s)

happen-IsMirrored :
    (e : Event) (s : State) (id : ℕ)
    → IsInOrder e
    → id < numbers 8
    → IsMirrored s id
    → IsMirrored (happen e s) id
unfolding set_order cancel_order write_task write_tick save_root
happen-IsMirrored (set_event o) s id w h m =
    settled-snoc s (record { key = order_key o.id; value = some (marshal_order o) }) (order_key id)
    ∙ ap (λ b. if b then some (marshal_order o) else find (order_key id) (settled s))
        (order_key-eq o.id id w h)
    ∙ by_id (o.id == id)
    ∙ ap stored (sym (lookup-insert o.id id o s.orders))
  where
    by_id :
        (b : Bool)
        → (if b then some (marshal_order o) else find (order_key id) (settled s))
          ≡ stored (if b then some o else lookup id s.orders)
    by_id true = refl
    by_id false = m
happen-IsMirrored (cancel_event i) s id w h m =
    settled-snoc s (record { key = order_key i; value = none }) (order_key id)
    ∙ ap (λ b. if b then none else find (order_key id) (settled s)) (order_key-eq i id w h)
    ∙ by_id (i == id)
    ∙ ap stored (sym (lookup-erase i id s.orders))
  where
    by_id :
        (b : Bool)
        → (if b then none else find (order_key id) (settled s))
          ≡ stored (if b then none else lookup id s.orders)
    by_id true = refl
    by_id false = m
happen-IsMirrored (send_event i) s id w h m =
    subst (λ j. IsMirrored (send j s) id) (sym w)
      (Agrees-IsMirrored s (send 0 s) id (send-Agrees s) m)
happen-IsMirrored write_event s id w h m =
    Agrees-IsMirrored s (write_task s) id (taken-Agrees s s.write_ch refl) m
happen-IsMirrored tick_event s id w h m =
    Agrees-IsMirrored s (write_tick s) id (commit_batch-Agrees s) m
happen-IsMirrored (root_event root) s id w h m =
    find-apply_tasks (order_key id) (pending s) (put root_key root s.db) s.db (
      find-put root_key (order_key id) root s.db
      ∙ ap (λ b. if b then some root else find (order_key id) s.db) (root_apart id))
    ∙ m

abbrev pub start : State
start = record {
  accounts = [];
  orders = [];
  dirty_accounts = [];
  dirty_orders = [];
  current_root = replicate 32 0;
  version = 0;
  sending = [];
  write_ch = [];
  batch = [];
  db = [];
}

pub happen_all-IsMirrored :
    (es : List Event) (s : State) (id : ℕ)
    → All IsInOrder es
    → id < numbers 8
    → IsMirrored s id
    → IsMirrored (happen_all es s) id
happen_all-IsMirrored [] s id ok h m = m
happen_all-IsMirrored (e ∷ es) s id ok h m =
    happen_all-IsMirrored es (happen e s) id ok.1 h (happen-IsMirrored e s id ok.0 h m)

pub settled-empty : (s : State) (k : List ℕ) → pending s ≡ [] → find k (settled s) ≡ find k s.db
settled-empty s k e = ap (λ ts. find k (apply_tasks ts s.db)) e
