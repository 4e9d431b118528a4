-- ===== src/Tree/Proofs.antt =====
-- `CreateProof` of internal/zkregistry/sparse_tree.go.
use merkle_proof_service.Prelude.{
  ℕ, zero, suc, ◌+◌, ◌-◌, ◌*◌, ◌/◌, ◌%◌, ◌^◌, ◌≤◌, ◌<◌, ◌≡◌, refl, ◌∙◌, ap, Bool, false, Option,
  List, [], ◌∷◌, inl, inr, arith, ◌==◌, ==→eq, if◌then◌else◌, Bool-cases, length,
}
use mathlib.Core.Path.{ap₂}
use native.Mathlib.Nat.{pow-suc, pow-le-pow_right}
use merkle_proof_service.Tree.Result.{Result, ok, ◌>>=◌}
use merkle_proof_service.Tree.Sparse.{
  SparseMerkleTree, MerkleProof, calculate_hash, get_leaf_from_storage, get_root, proof_path,
  create_proof,
}
use merkle_proof_service.Tree.Merkle.{IsMerkle, IsReadable, root_of}

-- What `create_proof` returns of a leaf.
pub record IsProof (hash : ℕ → ℕ → Result ℕ) (node : ℕ → ℕ → Result ℕ) (depth index : ℕ)
    (r : Result MerkleProof) : Type 0 where
  pub proof : MerkleProof
  pub returned : r ≡ ok proof
  pub leaf : node 0 index ≡ ok proof.leaf
  pub root : node depth 0 ≡ ok proof.root
  pub index_kept : proof.index ≡ index
  pub long : length proof.path ≡ depth
  pub accepted : root_of hash proof.leaf proof.path index ≡ ok proof.root

module _ (hash : ℕ → ℕ → Result ℕ) (node : ℕ → ℕ → Result ℕ) (depth : ℕ)
    (merkle : IsMerkle hash node depth) where
  -- The parent of a node read as a left or as a right child.
  pub parent_even :
      (level i a b : ℕ)
      → level < depth
      → i < 2 ^ 32
      → i % 2 ≡ 0
      → node level i ≡ ok a
      → node level (i + 1) ≡ ok b
      → hash a b ≡ node (suc level) (i / 2)
  parent_even level i a b below small even ha hb =
      rw (let e : 2 * (i / 2) ≡ i = omega arith in e, ha, hb) at
        (merkle level (i / 2) below (omega arith))

  pub parent_odd :
      (level i a b : ℕ)
      → level < depth
      → i < 2 ^ 32
      → i % 2 ≡ 1
      → node level (i - 1) ≡ ok a
      → node level i ≡ ok b
      → hash a b ≡ node (suc level) (i / 2)
  parent_odd level i a b below small odd ha hb =
      rw
        (
          let e : 2 * (i / 2) + 1 ≡ i = omega arith in e,
          let f : 2 * (i / 2) ≡ i - 1 = omega arith in f,
          ha,
          hb,
        )
        at (merkle level (i / 2) below (omega arith))

pub half_lt : (k i : ℕ) → i < 2 ^ suc k → i / 2 < 2 ^ k
half_lt k i h = let p : i < 2 ^ k * 2 = rw pow-suc at h in omega arith

pub odd_of : (r : ℕ) → (r == 0) ≡ false → r < 2 → r ≡ 1
odd_of r h k = ground arith

module _ (poseidon : ℕ → ℕ → Option ℕ) (t : SparseMerkleTree)
    (merkle : IsMerkle (calculate_hash poseidon) (get_leaf_from_storage poseidon t) t.depth)
    (good : ℕ → Type 0) (readable : IsReadable good (get_leaf_from_storage poseidon t) t.depth)
    (done : ℕ → Bool) (running : (level : ℕ) → done level ≡ false) where
  abbrev node : ℕ → ℕ → Result ℕ
  node = get_leaf_from_storage poseidon t

  -- The rest of a path, from a node on the way up.
  record Climbs (k level index v : ℕ) : Type 0 where
    path : List ℕ
    returned : proof_path poseidon t done k level index ≡ ok path
    long : length path ≡ k
    root : ℕ
    at_root : node t.depth 0 ≡ ok root
    accepted : root_of (calculate_hash poseidon) v path index ≡ ok root

  Climbs-next :
      (k level index v s p : ℕ)
      → node level (if index % 2 == 0 then (index + 1) % 2 ^ 32 else index - 1) ≡ ok s
      → (if index % 2 == 0 then calculate_hash poseidon v s else calculate_hash poseidon s v) ≡ ok p
      → Climbs k (level + 1) (index / 2) p
      → Climbs (suc k) level index v
  unfolding proof_path root_of
  Climbs-next k level index v s p sibling parent c = record {
    path = s ∷ c.path;
    returned = rw (running level, sibling, ◌>>=◌) (rw (c.returned, ◌>>=◌) refl);
    long = ap suc c.long;
    root = c.root;
    at_root = c.at_root;
    accepted = rw (parent, ◌>>=◌) c.accepted;
  }

  climbs :
      (k level index v : ℕ)
      → level + k ≡ t.depth
      → index < 2 ^ 32
      → index < 2 ^ k
      → node level index ≡ ok v
      → Climbs k level index v
  unfolding proof_path root_of
  climbs zero level index v e small inside h = record {
    path = [];
    returned = refl;
    long = refl;
    root = v;
    at_root = ap₂ node (omega arith) (omega arith) ∙ h;
    accepted = refl;
  }
  climbs (suc k) level index v e small inside h =
      let (p, ep, _) = readable (suc level) (index / 2) (omega arith) (omega arith) in
      let later =
        climbs k (level + 1) (index / 2) p (omega arith) (omega arith) (half_lt k index inside)
          (ap (λ l. node l (index / 2)) (omega arith) ∙ ep) in
      elim (Bool-cases (index % 2 == 0)) [
        | inl even ↦
            let (s, es, _) =
              readable level (index + 1) (omega arith) (omega (arith, ==→eq (index % 2) 0 even)) in
            Climbs-next k level index v s p
              (rw even (ap (node level) (omega (arith, ==→eq (index % 2) 0 even)) ∙ es))
              (rw even (
                parent_even (calculate_hash poseidon) node t.depth merkle level index v s
                  (omega arith) small (==→eq (index % 2) 0 even) h es
                ∙ ep))
              later
        | inr odd ↦
            let (s, es, _) = readable level (index - 1) (omega arith) (omega arith) in
            Climbs-next k level index v s p (rw odd es)
              (rw odd (
                parent_odd (calculate_hash poseidon) node t.depth merkle level index s v
                  (omega arith) small (odd_of (index % 2) odd (omega arith)) es h
                ∙ ep))
              later
      ]

-- In a Merkle tree whose nodes can be read, of a depth of 32 at most, `CreateProof` of an index of the
-- tree, with a context that is not done, returns a proof: of the leaf that stands there and of the
-- tree's root, with one sibling for each level, and a verifier that hashes the leaf with the
-- siblings along the index gets that root.
pub create_proof-IsProof :
    (poseidon : ℕ → ℕ → Option ℕ) (t : SparseMerkleTree)
    → IsMerkle (calculate_hash poseidon) (get_leaf_from_storage poseidon t) t.depth
    → (good : ℕ → Type 0) → IsReadable good (get_leaf_from_storage poseidon t) t.depth
    → (done : ℕ → Bool) → ((level : ℕ) → done level ≡ false)
    → (index : ℕ) → index < 2 ^ t.depth
    → t.depth ≤ 32
    → IsProof
        (calculate_hash poseidon)
        (get_leaf_from_storage poseidon t)
        t.depth
        index
        (create_proof poseidon t done index)
unfolding create_proof get_root
create_proof-IsProof poseidon t merkle good readable done running index inside shallow =
    let wide : 2 ^ t.depth ≤ 2 ^ 32 = pow-le-pow_right {n = 2} (omega arith) shallow in
    let small : index < 2 ^ 32 = omega arith in
    let (leaf, at_leaf, _) = readable 0 index (omega arith) small in
    let c =
      climbs poseidon t merkle good readable done running t.depth 0 index leaf (omega arith) small
        inside at_leaf in
    record {
      proof = record { leaf = leaf; path = c.path; index = index; root = c.root };
      returned = rw (at_leaf, ◌>>=◌) (rw (c.returned, ◌>>=◌) (rw (c.at_root, ◌>>=◌) refl));
      leaf = at_leaf;
      root = c.at_root;
      index_kept = refl;
      long = c.long;
      accepted = c.accepted;
    }
