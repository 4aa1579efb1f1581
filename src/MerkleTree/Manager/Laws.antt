-- ===== src/MerkleTree/Manager/Laws.antt =====
-- What the manager of mt-manager/merkletree/manager.go answers for the global root and for proofs.
use onchain_exchange_homewor.Prelude.{
  ℕ, ◌<◌, true, some, List, length, get_or, map, sort_by, ◌≡◌, refl, sym, ap, ◌∙◌,
}
use mathlib.Core.Path.{subst}
use onchain_exchange_homewor.MerkleTree.Types.{Hash, zero_hash}
use onchain_exchange_homewor.MerkleTree.Proof.{MerkleProof, verify}
use onchain_exchange_homewor.MerkleTree.Proof.Complete.{compute_proof_path-verify}
use onchain_exchange_homewor.SparseTree.Types.{BytesMap, find}
use onchain_exchange_homewor.MerkleTree.Manager.Interface.{Trees}
use onchain_exchange_homewor.MerkleTree.Manager.{
  name_before, names_of, returned, TreeManager, merkle_root_of, first_check, compute_global_root,
  unlocked, reading,
}
use onchain_exchange_homewor.MerkleTree.Manager.Methods.{
  remove_all, roots_of, prove_root, get_merkle_proof, verified, verify_tree_inclusion,
}
use onchain_exchange_homewor.MerkleTree.Manager.Loops.{root_in, AreCached, roots, AreKept}
use onchain_exchange_homewor.MerkleTree.Manager.Current.{
  root_over, global_root_of, IsCurrent, IsGlobalRoot, names_of-roots,
  compute_global_root-IsGlobalRoot,
}
use onchain_exchange_homewor.MerkleTree.Manager.Calls.{Made}
use onchain_exchange_homewor.MerkleTree.Manager.Calls.Sound.{Made-IsSound}
use onchain_exchange_homewor.MerkleTree.Manager.Calls.Names.{AreApart}
use onchain_exchange_homewor.MerkleTree.Manager.Inclusion.{
  roots_of_lem, first_check_clean, found-StandsAt,
}

module _ {T : Type 0} (ops : Trees T) (blake3 : List ℕ → Hash) where
  open ops use {Tree, root_of}

  -- After any calls on a new manager but `RenameTree` and `RemoveAll`, whatever is cached and
  -- whatever was done to the trees by their pointers, `ComputeGlobalRoot` returns the root over the
  -- roots of all trees in the order of their names, and keeps the trees' roots.
  pub compute_global_root-global_root_of :
      (m : TreeManager Tree)
      → Made ops blake3 m
      → (m' : TreeManager Tree) × (compute_global_root ops blake3 unlocked m
          ≡ returned (global_root_of ops blake3 (roots ops blake3 m.trees), m'))
        × (roots ops blake3 m'.trees ≡ roots ops blake3 m.trees)
  compute_global_root-global_root_of m made =
      let sound = Made-IsSound ops blake3 made in
      let (r, returns, root) =
        compute_global_root-IsGlobalRoot ops blake3 sound.by_name m sound.current in
      let same = sound.current.trees.1 in
      (
        r.1,
        returns
            ∙ ap (λ h. returned (h, r.1)) (root.root ∙ ap (global_root_of ops blake3) (sym same)),
        root.current.trees.1 ∙ sym same,
      )

  returned-IsGlobalRoot :
      (s : BytesMap Hash) (h : Hash) (m m' : TreeManager Tree)
      → IsCurrent ops blake3 s m
      → compute_global_root ops blake3 unlocked m ≡ returned (h, m')
      → IsGlobalRoot ops blake3 s (h, m')
  returned-IsGlobalRoot s h m m' current e =
      let (r, returns, done) = compute_global_root-IsGlobalRoot ops blake3 s m current in
      let same : r ≡ (h, m') = cc in subst (IsGlobalRoot ops blake3 s) same done

  prove_root-verify :
      (hs : List Hash) (i : ℕ) (h : Hash) (m : TreeManager Tree)
      → i < length hs
      → merkle_root_of ops blake3 hs ≡ h
      → (proof : MerkleProof) × (prove_root ops blake3 hs i (returned (h, m))
          ≡ returned (some proof, m))
        × (proof.tree_root ≡ get_or hs i zero_hash)
        × (proof.global_root ≡ h)
        × (verify blake3 proof ≡ some true)
  prove_root-verify hs i h m below root =
      let (r, path, flags, computed, proved, accepted) =
        compute_proof_path-verify blake3 hs i below in
      let same : r ≡ h = sym (rw (computed, merkle_root_of) refl) ∙ root in
      (
        record {
          tree_root = get_or hs i zero_hash;
          proof_path = path;
          is_left = flags;
          global_root = h;
        },
        rw (proved, prove_root) refl,
        refl,
        refl,
        subst
            (λ r.
              verify blake3 (record {
                tree_root = get_or hs i zero_hash;
                proof_path = path;
                is_left = flags;
                global_root = r;
              })
              ≡ some true)
            same accepted,
      )

  -- A global root that has been computed is there for a caller with the read lock.
  compute_global_root_held :
      (s : BytesMap Hash) (h : Hash) (m : TreeManager Tree) (ts : BytesMap Tree)
      → IsGlobalRoot ops blake3 s (h, m)
      → AreApart (names_of s)
      → AreKept ops blake3 s ts
      → (last : TreeManager Tree) × (compute_global_root ops blake3 reading
            (record m { trees = ts })
          ≡ returned (h, last))
  unfolding compute_global_root
  compute_global_root_held s h m ts root apart (trees, same) =
      let clean =
        first_check_clean ops blake3 m.tree_root_cache ts trees
          (subst (λ s. AreApart (names_of s)) (sym same) apart)
          (subst (λ s. AreCached m.tree_root_cache s (names_of s)) (sym same) root.cached) in
      let last : TreeManager Tree = record m {
        trees = (first_check ops blake3 m.tree_root_cache ts).1;
      } in
      let kept : compute_global_root ops blake3 reading (record m { trees = ts })
          ≡ returned (m.global_root_cache, last) =
        rw root.is_clean (rw clean refl) in
      (last, kept ∙ ap (λ h. returned (h, last)) root.kept)

  -- `GetMerkleProof` returns a proof with the root of the tree and the global root, and
  -- `VerifyTreeInclusion` accepts it.
  abbrev pub IsIncluded : List ℕ → Tree → Hash → TreeManager Tree → Type 0
  IsIncluded name t h m =
      (proof : MerkleProof) × (last : TreeManager Tree) × (get_merkle_proof ops blake3 name m
        ≡ returned (some proof, last))
      × (proof.tree_root ≡ root_of t)
      × (proof.global_root ≡ h)
      × (verify_tree_inclusion ops blake3 name m ≡ returned (some true, last))

  pub IsGlobalRoot-IsIncluded :
      (s : BytesMap Hash) (h : Hash) (m : TreeManager Tree) (name : List ℕ) (t : Tree)
      → IsGlobalRoot ops blake3 s (h, m)
      → AreApart (names_of s)
      → find name m.trees ≡ some t
      → IsIncluded name t h m
  unfolding get_merkle_proof verify_tree_inclusion
  IsGlobalRoot-IsIncluded s h m name t root apart there =
      let names = sort_by name_before (names_of m.trees) in
      let read = roots_of ops blake3 names m.trees in
      let ((i, found, below, at_i), of_tree) =
        found-StandsAt ops blake3 name t s m.trees root.current.trees.1 there in
      let (hashes, kept) = roots_of_lem ops blake3 names s m.trees root.current.trees in
      let (last, answered) = compute_global_root_held s h m read.1 root apart kept in
      let hs = map (λ n. root_in n s) names in
      let named : global_root_of ops blake3 s ≡ merkle_root_of ops blake3 hs =
        ap (root_over ops blake3 s)
          (sym (names_of-roots ops blake3 m.trees ∙ ap names_of root.current.trees.1)) in
      let (proof, proved, at_tree, at_root, accepted) =
        prove_root-verify hs i h last below (sym (root.root ∙ named)) in
      let answer = compute_global_root ops blake3 reading (record m { trees = read.1 }) in
      let opened : get_merkle_proof ops blake3 name m ≡ prove_root ops blake3 read.0 i answer =
        rw (found, get_merkle_proof) refl in
      let made_proof : get_merkle_proof ops blake3 name m ≡ returned (some proof, last) =
        opened
        ∙ ap (λ hs. prove_root ops blake3 hs i answer) hashes
        ∙ ap (prove_root ops blake3 hs i) answered
        ∙ proved in
      (
        proof,
        last,
        made_proof,
        at_tree ∙ at_i ∙ of_tree,
        at_root,
        ap (verified ops blake3) made_proof ∙ ap (λ o. returned (o, last)) accepted,
      )

  -- Once `ComputeGlobalRoot` has returned a root, after any calls on a new manager but `RenameTree`
  -- and `RemoveAll`, `GetMerkleProof` returns a proof for every tree that is there, with the root of
  -- the tree and that global root, and `VerifyTreeInclusion` accepts it.
  pub verify_tree_inclusion-compute_global_root :
      (name : List ℕ) (t : Tree) (m m' : TreeManager Tree) (h : Hash)
      → Made ops blake3 m
      → compute_global_root ops blake3 unlocked m ≡ returned (h, m')
      → find name m'.trees ≡ some t
      → IsIncluded name t h m'
  verify_tree_inclusion-compute_global_root name t m m' h made e there =
      let sound = Made-IsSound ops blake3 made in
      let root = returned-IsGlobalRoot sound.by_name h m m' sound.current e in
      IsGlobalRoot-IsIncluded sound.by_name h m' name t root sound.apart there

  -- After any calls on a new manager but `RenameTree` and `RemoveAll`: once `ComputeGlobalRoot` has
  -- returned a root, it returns it again after `RemoveAll`, whatever
  -- trees were there.
  pub remove_all-compute_global_root :
      (m m' : TreeManager Tree) (h : Hash)
      → Made ops blake3 m
      → compute_global_root ops blake3 unlocked m ≡ returned (h, m')
      → compute_global_root ops blake3 unlocked (remove_all ops blake3 m')
        ≡ returned (h, remove_all ops blake3 m')
  unfolding compute_global_root remove_all first_check
  remove_all-compute_global_root m m' h made e =
      let sound = Made-IsSound ops blake3 made in
      let root = returned-IsGlobalRoot sound.by_name h m m' sound.current e in
      let kept : compute_global_root ops blake3 unlocked (remove_all ops blake3 m')
          ≡ returned (m'.global_root_cache, remove_all ops blake3 m') =
        rw root.is_clean refl in
      kept ∙ ap (λ h. returned (h, remove_all ops blake3 m')) root.kept
