-- ===== src/MerkleTree/Manager.antt =====
-- `TreeManager` of mt-manager/merkletree/manager.go, without snapshots and statistics: trees by name,
-- and the root over their roots, with its caches. A tree is changed through the manager or through
-- the pointer that `GetTree` returns. A nil configuration is `default_config`. A method
-- runs alone; `GetMerkleProof` holds the lock for reading while it calls `ComputeGlobalRoot`.
pub mod Interface
pub mod Methods
pub mod Loops
pub mod Collect
pub mod Current
pub mod Calls
pub mod Inclusion
pub mod Backing
pub mod Laws
pub mod Waits
use onchain_exchange_homewor.Prelude.{
  ℕ, suc, ◌+◌, ◌-◌, ltb, Bool, true, false, not, ◌||◌, Option, none, some, List, [], ◌∷◌,
  if◌then◌else◌, sort_by,
}
use Prim.Native.Nat.{Ordering}
use onchain_exchange_homewor.MerkleTree.Types.{Hash, zero_hash, bytes_eq}
use onchain_exchange_homewor.MerkleTree.Range.{compare_keys}
use onchain_exchange_homewor.MerkleTree.Tree.{Config}
use onchain_exchange_homewor.MerkleTree.Proof.{compute_merkle_root}
use onchain_exchange_homewor.SparseTree.Types.{BytesMap, find, put, delete_key}
use Interface.{Trees}

-- The order of `sort.Strings`.
unfoldable pub name_before : List ℕ → List ℕ → Bool
unfolding compare_keys
name_before a b = elim (compare_keys a b) [
  | Ordering.lt ↦ true
  | Ordering.eq ↦ false
  | Ordering.gt ↦ false
]

abbrev pub names_of {ℓ} : {V : Type ℓ} → BytesMap V → List (List ℕ)
names_of [] = []
names_of ((name, _) ∷ m) = name ∷ names_of m

-- How a method ends: it returns, or waits for a lock for good.
pub data Ended (A : Type 0) : Type 0 where
  returned : A → Ended A
  deadlock : Ended A

-- `sync.RWMutex`: the calls that hold it for reading, and whether one holds it for writing.
pub record RwMutex : Type 0 where
  pub readers : ℕ
  pub writing : Bool

abbrev pub unlocked : RwMutex
unlocked = record { readers = 0; writing = false }

-- `RLock` and `Lock`; `none` is to wait. With one goroutine at work nobody ends the wait.
abbrev pub r_lock : RwMutex → Option RwMutex
r_lock mu = if mu.writing then none else some (record mu { readers = mu.readers + 1 })

abbrev pub lock : RwMutex → Option RwMutex
lock mu = if mu.writing || ltb 0 mu.readers then none else some (record mu { writing = true })

-- `RUnlock`
abbrev pub r_unlock : RwMutex → RwMutex
r_unlock mu = record mu { readers = mu.readers - 1 }

-- The lock while a method reads.
abbrev pub reading : RwMutex
reading = record { readers = 1; writing = false }

-- What a method returns once it has the write lock.
abbrev pub after_lock : {A : Type 0} → RwMutex → A → Ended A
after_lock mu a = elim (lock mu) [ none ↦ deadlock | some _ ↦ returned a ]

-- The index of a name among the names.
abbrev pub index_of : List ℕ → List (List ℕ) → Option ℕ
index_of name [] = none
index_of name (n ∷ names) =
    if bytes_eq n name
    then some 0
    else elim (index_of name names) [ none ↦ none | some i ↦ some (suc i) ]

-- Whether a root is the one that is cached.
abbrev pub is_root : Hash → Option Hash → Bool
is_root root none = false
is_root root (some cached) = bytes_eq root cached

-- `TreeManager`
pub record TreeManager (S : Type 0) : Type 0 where
  pub trees : BytesMap S
  pub config : Config
  pub global_root_cache : Hash
  pub global_root_dirty : Bool
  pub tree_root_cache : BytesMap Hash

module _ {T : Type 0} (ops : Trees T) (blake3 : List ℕ → Hash) where
  open ops use {Tree, new, insert, insert_batch, clear, compute_root, get, size, all_items}

  -- `NewManager`
  abbrev pub new_manager : Config → TreeManager Tree
  new_manager cfg = record {
    trees = [];
    config = cfg;
    global_root_cache = zero_hash;
    global_root_dirty = true;
    tree_root_cache = [];
  }

  -- A tree under a name.
  abbrev pub set_tree : List ℕ → Tree → TreeManager Tree → TreeManager Tree
  set_tree name t m = record m { trees = put name t m.trees }

  -- `InvalidateGlobalRoot`
  abbrev pub invalidate_global_root : TreeManager Tree → TreeManager Tree
  invalidate_global_root m = record m { global_root_dirty = true }

  -- `InvalidateTreeRoot`
  abbrev pub invalidate_tree_root : List ℕ → TreeManager Tree → TreeManager Tree
  invalidate_tree_root name m = record m {
    tree_root_cache = delete_key name m.tree_root_cache;
    global_root_dirty = true;
  }

  -- `CreateTree`; `none` is an error.
  unfoldable pub create_tree : List ℕ → TreeManager Tree → Option Tree × TreeManager Tree
  create_tree name m = elim (find name m.trees) [
    | some t ↦ (none, m)
    | none ↦ (some (new m.config), invalidate_global_root (set_tree name (new m.config) m))
  ]

  -- `GetTree`
  abbrev pub get_tree : List ℕ → TreeManager Tree → Option Tree
  get_tree name m = find name m.trees

  -- `GetOrCreateTree`
  unfoldable pub get_or_create_tree : List ℕ → TreeManager Tree → Tree × TreeManager Tree
  get_or_create_tree name m = elim (find name m.trees) [
    | some t ↦ (t, m)
    | none ↦ (new m.config, invalidate_global_root (set_tree name (new m.config) m))
  ]

  -- `CreateTreeWithConfig`
  unfoldable pub create_tree_with_config :
      List ℕ → Config → TreeManager Tree → Option Tree × TreeManager Tree
  create_tree_with_config name cfg m = elim (find name m.trees) [
    | some t ↦ (none, m)
    | none ↦ (some (new cfg), set_tree name (new cfg) m)
  ]

  -- `RemoveTree`
  unfoldable pub remove_tree : List ℕ → TreeManager Tree → Bool × TreeManager Tree
  remove_tree name m = elim (find name m.trees) [
    | none ↦ (false, m)
    | some t ↦ (
      true,
      record m {
        trees = delete_key name m.trees;
        tree_root_cache = delete_key name m.tree_root_cache;
        global_root_dirty = true;
      },
    )
  ]

  -- `ListTrees`
  abbrev pub list_trees : TreeManager Tree → List (List ℕ)
  list_trees m = names_of m.trees

  -- The first loop of `ComputeGlobalRoot`: whether some root is not the one that is cached.
  unfoldable pub first_check : BytesMap Hash → BytesMap Tree → Bool × BytesMap Tree
  first_check cache [] = (false, [])
  first_check cache ((name, t) ∷ ts) =
      let (actual_root, t') = compute_root t in
      let rest = first_check cache ts in
      elim (find name cache) [
        | none ↦ (true, (name, t) ∷ ts)
        | some cached_root ↦
            if bytes_eq actual_root cached_root
            then (rest.0, (name, t') ∷ rest.1)
            else (true, (name, t') ∷ ts)
      ]

  -- The second loop, which also writes the roots that changed.
  unfoldable pub second_check : BytesMap Hash → BytesMap Tree → Bool × BytesMap Tree × BytesMap Hash
  second_check cache [] = (false, [], cache)
  second_check cache ((name, t) ∷ ts) =
      let (actual_root, t') = compute_root t in
      let cached = find name cache in
      let same = is_root actual_root cached in
      let rest = second_check (if same then cache else put name actual_root cache) ts in
      elim cached [
        | none ↦ (true, (name, t) ∷ ts, cache)
        | some _ ↦ (not same || rest.0, (name, t') ∷ rest.1, rest.2)
      ]

  -- `m.trees[name].ComputeRoot()`, for a name of the map.
  unfoldable pub compute_named : List ℕ → BytesMap Tree → Hash × BytesMap Tree
  compute_named name [] = (zero_hash, [])
  compute_named name ((n, t) ∷ ts) =
      let (h, t') = compute_root t in
      let rest = compute_named name ts in
      if bytes_eq n name then (h, (n, t') ∷ ts) else (rest.0, (n, t) ∷ rest.1)

  -- The roots of the trees by name, which are also cached.
  unfoldable pub collect :
      List (List ℕ) → BytesMap Tree → BytesMap Hash → List Hash × BytesMap Tree × BytesMap Hash
  unfolding compute_named
  collect [] ts cache = ([], ts, cache)
  collect (name ∷ names) ts cache =
      let (h, ts') = compute_named name ts in
      let rest = collect names ts' (put name h cache) in (h ∷ rest.0, rest.1, rest.2)

  -- `computeMerkleRoot`, whose loop ends.
  abbrev pub merkle_root_of : List Hash → Hash
  merkle_root_of roots = elim (compute_merkle_root blake3 roots) [ none ↦ zero_hash | some h ↦ h ]

  -- The end of `ComputeGlobalRoot`.
  unfoldable pub recompute : TreeManager Tree → Hash × TreeManager Tree
  unfolding collect sort_by name_before
  recompute m =
      let (roots, trees, cache) =
        collect (sort_by name_before (names_of m.trees)) m.trees m.tree_root_cache in
      let root = merkle_root_of roots in
      (
        root,
        record m {
          trees = trees;
          tree_root_cache = cache;
          global_root_cache = root;
          global_root_dirty = false;
        },
      )

  -- `ComputeGlobalRoot` from the write lock on.
  unfoldable pub under_lock : TreeManager Tree → Hash × TreeManager Tree
  unfolding second_check recompute
  under_lock m =
      let (needs_update, trees, cache) = second_check m.tree_root_cache m.trees in
      let checked = record m { trees = trees; tree_root_cache = cache } in
      if m.global_root_dirty
      then recompute m
      else if needs_update
      then recompute checked
      else (m.global_root_cache, checked)

  -- `ComputeGlobalRoot`, for the lock as the caller holds it.
  unfoldable pub compute_global_root : RwMutex → TreeManager Tree → Ended (Hash × TreeManager Tree)
  unfolding first_check under_lock
  compute_global_root mu m =
      let (needs_update, trees) = first_check m.tree_root_cache m.trees in
      let checked = record m { trees = trees } in
      elim (r_lock mu) [
        | none ↦ deadlock
        | some mu' ↦
            if m.global_root_dirty
            then after_lock (r_unlock mu') (under_lock m)
            else if needs_update
            then after_lock (r_unlock mu') (under_lock checked)
            else returned (m.global_root_cache, checked)
      ]
