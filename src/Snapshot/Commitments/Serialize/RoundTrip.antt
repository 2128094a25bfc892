-- ===== src/Snapshot/Commitments/Serialize/RoundTrip.antt =====
-- What DeserializeSnapshot reads of a snapshot that SerializeSnapshot wrote.
use go_sdk_test.Common.{
  ℕ, ◌≡◌, refl, ◌∙◌, ap, sym, inl, inr, true, false, Bool, Bool-cases, Option, none, some, List, [],
  ◌∷◌, String, ℤ, pos, string_eq, int_eq, int_beq, int_beq_iff, Map, lookup, insert, lookup-insert,
  HasUniqueKeys, ok, ltb, if◌then◌else◌,
}
use go_sdk_test.Merkle.{MerkleTree, new, merkle_levels}
use go_sdk_test.Merkle.Json.{to_json, from_json}
use go_sdk_test.Merkle.Json.RoundTrip.{from-to_json}
use go_sdk_test.Snapshot.Commitments.{Commitments, EncryptedOutputWithSign}
use go_sdk_test.Snapshot.Commitments.Serialize.{
  wrap_merkle, parse_bool, format_bool, serialize_outputs, entries, serialize_commitments,
  deserialize_outputs, to_map, deserialize_tree, deserialize_commitments,
}

parse-format_bool : (b : Bool) → parse_bool (format_bool b) ≡ some b
unfolding parse_bool
parse-format_bool true = refl
parse-format_bool false = refl

deserialize-serialize_outputs :
    (os : List EncryptedOutputWithSign) → deserialize_outputs (serialize_outputs os) ≡ ok os
unfolding deserialize_outputs serialize_outputs
deserialize-serialize_outputs [] = refl
deserialize-serialize_outputs (o ∷ os) =
    rw (deserialize_outputs, parse-format_bool o.is_positive, deserialize-serialize_outputs os) refl

abbrev or_else_of : Option String → Option String → Option String
or_else_of none other = other
or_else_of (some v) other = some v

-- The entry that a list of entries adds to a map is that of the map they came from, or else the old.
lookup-to_map-entries :
    (k : ℤ) (m acc : Map ℤ String)
    → HasUniqueKeys m
    → lookup k (to_map (entries m) acc) ≡ or_else_of (lookup k m) (lookup k acc)
unfolding to_map entries lookup
lookup-to_map-entries k [] acc unique = refl
lookup-to_map-entries k ((c, output) ∷ rest) acc (new, unique) =
    lookup-to_map-entries k rest (insert c output acc) unique ∙ elim (Bool-cases (int_beq c k)) [
      | inl same ↦
          let e : c ≡ k = (int_beq_iff c k).0 same in
          let missing : lookup k rest ≡ none = rw (e) at new in
          rw (missing, same) (rw (lookup-insert, same) refl)
      | inr other ↦ rw (other) (ap (or_else_of (lookup k rest)) (rw (lookup-insert, other) refl))
    ]

-- What DeserializeSnapshot returns of a snapshot serialized at `block`.
abbrev pub Restored : (ℤ → ℤ → ℤ) → ℕ → Commitments → ℕ × Commitments → Type 0
Restored hash block s (block', s') =
    (block' ≡ block)
    × (s'.merkle_tree ≡ (if ltb 0 block then s.merkle_tree else new hash (pos 0) 0))
    × (s'.enc_outputs ≡ s.enc_outputs)
    × ((k : ℤ) → lookup k s'.by_commitment ≡ lookup k s.by_commitment)

or_else_of-none : (o : Option String) → or_else_of o none ≡ o
or_else_of-none none = refl
or_else_of-none (some v) = refl

from-to_json_zero :
    (m : MerkleTree)
    → m.levels ≡ merkle_levels
    → m.default_value ≡ pos 0
    → from_json m.hash_fn (pos 0) (to_json m) ≡ ok m
from-to_json_zero m levels zero_default =
    ap (λ d. from_json m.hash_fn d (to_json m)) (sym zero_default) ∙ from-to_json m levels

deserialize-serialize_tree :
    (block : ℕ) (s : Commitments)
    → s.merkle_tree.levels ≡ merkle_levels
    → s.merkle_tree.default_value ≡ pos 0
    → deserialize_tree s.merkle_tree.hash_fn (some block) (some (to_json s.merkle_tree))
      ≡ ok (if ltb 0 block then s.merkle_tree else new s.merkle_tree.hash_fn (pos 0) 0)
unfolding deserialize_tree
deserialize-serialize_tree block s levels zero_default = elim (Bool-cases (ltb 0 block)) [
  | inl later ↦ rw (later) (ap wrap_merkle (from-to_json_zero s.merkle_tree levels zero_default))
  | inr start ↦ rw (start) refl
]

-- A snapshot that was serialized at a block above 0 is restored whole: its block, tree and outputs,
-- and the same output for each commitment. At block 0 the tree is replaced by a new one, the rest
-- is restored. The tree has the 200 levels and the default 0 that the services give it, and the
-- map holds each commitment once.
pub deserialize-serialize_commitments :
    (block : ℕ) (s : Commitments)
    → s.merkle_tree.levels ≡ merkle_levels
    → s.merkle_tree.default_value ≡ pos 0
    → HasUniqueKeys s.by_commitment
    → (restored : ℕ × Commitments) × (deserialize_commitments s.merkle_tree.hash_fn
          (serialize_commitments block s)
        ≡ ok restored)
      × Restored s.merkle_tree.hash_fn block s restored
unfolding deserialize_commitments serialize_commitments lookup
deserialize-serialize_commitments block s levels zero_default unique = (
  (
    block,
    record {
      merkle_tree = if ltb 0 block then s.merkle_tree else new s.merkle_tree.hash_fn (pos 0) 0;
      enc_outputs = s.enc_outputs;
      by_commitment = to_map (entries s.by_commitment) [];
    },
  ),
  rw
      (
        deserialize-serialize_tree block s levels zero_default,
        deserialize-serialize_outputs s.enc_outputs,
      )
      refl,
  (
    refl,
    refl,
    refl,
    λ k.
        lookup-to_map-entries k s.by_commitment [] unique
        ∙ or_else_of-none (lookup k s.by_commitment),
  ),
)
