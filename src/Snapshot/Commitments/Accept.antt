-- ===== src/Snapshot/Commitments/Accept.antt =====
-- Accepting a commitment event: what the state says about the leaf and the output afterwards, and
-- that the same event is ignored when it comes again.
use go_sdk_test.Common.{
  ℕ, ◌*◌, ◌-◌, ◌≤◌, ◌<◌, ◌≡◌, refl, sym, ◌∙◌, ap, Bool, true, false, Option, none, some, List, [],
  ◌∷◌, ◌++◌, String, ℤ, abs, int_beq_iff, lookup, insert, lookup-insert, string_eq, nat_eq, int_eq,
  arith, Bool-cases, Option-cases, inl, inr, ltb-false,
}
use text.Mathlib.TextEquality.{eq_iff}
use go_sdk_test.Merkle.{MerkleTree, start, logarithm2, get_value, insert_leaf}
use go_sdk_test.Merkle.Consistent.{
  IsConsistent, written, counted, written-IsConsistent, counted-IsConsistent,
}
use go_sdk_test.Merkle.Append.{rehash-leaf}
use go_sdk_test.Snapshot.Commitments.{
  EncryptedOutputWithSign, CommitmentEvent, Commitments, forget, forget_existing, record_output,
  has_output, already_known, accept_commitment,
}

insert_leaf-eq-written :
    (v : ℤ) (n : ℕ) (m : MerkleTree)
    → start m ≤ n
    → insert_leaf v n m ≡ some (written v n (counted n m))
unfolding insert_leaf
insert_leaf-eq-written v n m lo = rw (ltb-false n (start m) lo) refl

-- The climb does not touch the leaf that was stored.
get_value-written :
    (v : ℤ) (n : ℕ) (m : MerkleTree)
    → start m ≤ n
    → n < start m * 2
    → get_value n (written v n m) ≡ some v
unfolding get_value
get_value-written v n m lo hi =
    rehash-leaf m.hash_fn m.default_value (start m) n (logarithm2 (m.index - start m)) n
      (insert n v m.tree) lo hi
    ∙ rw lookup-insert (ground arith)

pub forget_existing-tree :
    (old : Option ℤ) (s : Commitments) → (forget_existing old s).merkle_tree ≡ s.merkle_tree
unfolding forget_existing
forget_existing-tree none s = refl
forget_existing-tree (some v) s = elim (Option-cases (lookup v s.by_commitment)) [
  | inl missing ↦ rw (missing, forget) refl
  | inr (o, found) ↦ rw (found, forget) refl
]

has_output-append :
    (v : String) (o : EncryptedOutputWithSign) (os : List EncryptedOutputWithSign)
    → o.value ≡ v
    → has_output v (os ++ o ∷ []) ≡ true
unfolding has_output
has_output-append v o [] same = rw ((eq_iff o.value v).1 same) refl
has_output-append v o (p ∷ os) same = ground (arith, has_output-append v o os same)

already_known_self : (c : ℤ) → already_known c (some c) ≡ true
unfolding already_known
already_known_self c = (int_beq_iff c c).1 refl

-- What holds after an accepted event.
pub record Holds (e : CommitmentEvent) (s : Commitments) : Type 0 where
  pub leaf : get_value (abs e.index) s.merkle_tree ≡ some e.commitment
  pub output : has_output e.encrypted_output s.enc_outputs ≡ true
  pub mapped : lookup e.commitment s.by_commitment ≡ some e.encrypted_output

record_output-Holds :
    (positive blocked : Bool) (e : CommitmentEvent) (s : Commitments)
    → get_value (abs e.index) s.merkle_tree ≡ some e.commitment
    → Holds e (record_output positive blocked e s)
unfolding record_output
record_output-Holds positive blocked e s leaf = record {
  leaf = leaf;
  output = elim (Bool-cases (has_output e.encrypted_output s.enc_outputs)) [
    | inl old ↦ rw (old) old
    | inr new ↦ rw (new) (has_output-append e.encrypted_output _ s.enc_outputs refl)
  ];
  mapped = rw (lookup-insert, (int_beq_iff e.commitment e.commitment).1 refl) refl;
}

module _ (is_positive : CommitmentEvent → Bool) where
  pub accept_commitment-Holds :
      (e : CommitmentEvent) (block : ℕ) (tx : String) (blocked : Bool) (s : Commitments)
      → IsConsistent s.merkle_tree
      → start s.merkle_tree ≤ abs e.index
      → abs e.index < start s.merkle_tree * 2
      → already_known e.commitment (get_value (abs e.index) s.merkle_tree) ≡ false
      → (s' : Commitments) × (accept_commitment is_positive e block tx blocked s ≡ some (true, s'))
        × IsConsistent s'.merkle_tree
        × Holds e s'
  unfolding accept_commitment record_output
  accept_commitment-Holds e block tx blocked s c lo hi new =
      let n = abs e.index in
      let t = written e.commitment n (counted n s.merkle_tree) in
      let s1 : Commitments =
        forget_existing (get_value n s.merkle_tree) (record s { merkle_tree = t }) in
      let same : s1.merkle_tree ≡ t = forget_existing-tree (get_value n s.merkle_tree) _ in
      (
        record_output (is_positive e) blocked e s1,
        rw (new, insert_leaf-eq-written e.commitment n s.merkle_tree lo) refl,
        rw (same) (
            written-IsConsistent e.commitment n (counted n s.merkle_tree) lo (ground arith)
              (counted-IsConsistent n s.merkle_tree hi c)),
        record_output-Holds (is_positive e) blocked e s1 (
            ap (get_value n) same
            ∙ get_value-written e.commitment n (counted n s.merkle_tree) lo hi),
      )

  accept_known :
      (e : CommitmentEvent) (block : ℕ) (tx : String) (blocked : Bool) (s : Commitments)
      → already_known e.commitment (get_value (abs e.index) s.merkle_tree) ≡ true
      → accept_commitment is_positive e block tx blocked s ≡ some (false, s)
  unfolding accept_commitment
  accept_known e block tx blocked s known = rw (known) refl

  -- The same event, read once more as within the reorganisation depth, is not counted and changes
  -- nothing, whatever block or transaction it comes with and whether it was new the first time.
  pub accept_commitment_again :
      (e : CommitmentEvent) (block block' : ℕ) (tx tx' : String) (blocked blocked' : Bool)
      (s : Commitments) (new : Bool) (s' : Commitments)
      → IsConsistent s.merkle_tree
      → start s.merkle_tree ≤ abs e.index
      → abs e.index < start s.merkle_tree * 2
      → accept_commitment is_positive e block tx blocked s ≡ some (new, s')
      → accept_commitment is_positive e block' tx' blocked' s' ≡ some (false, s')
  accept_commitment_again e block block' tx tx' blocked blocked' s new s' c lo hi once =
      elim (Bool-cases (already_known e.commitment (get_value (abs e.index) s.merkle_tree))) [
        | inl known ↦
            let same : s ≡ s' = cc (once, accept_known e block tx blocked s known) in
            accept_known e block' tx' blocked' s' (rw (sym same) known)
        | inr fresh ↦
            let (s1, out, c1, h) = accept_commitment-Holds e block tx blocked s c lo hi fresh in
            let same : s1 ≡ s' = cc (once, out) in
            accept_known e block' tx' blocked' s'
              (rw (sym same, h.leaf) (already_known_self e.commitment))
      ]
