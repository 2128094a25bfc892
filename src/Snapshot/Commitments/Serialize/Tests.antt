-- ===== src/Snapshot/Commitments/Serialize/Tests.antt =====
-- A snapshot that is stored and restored, and one that is refused.
use go_sdk_test.Common.{ℕ, ◌≡◌, refl, true, none, [], ◌∷◌, ℤ, pos, ◌+ℤ◌, ok, err, int_eq, lookup}
use go_sdk_test.Merkle.{new}
use go_sdk_test.Snapshot.Commitments.{Commitments}
use go_sdk_test.Snapshot.Commitments.Serialize.{
  CommitmentsSerializedSnapshot, serialize_commitments, deserialize_commitments, deserialize_tree,
  deserialize_outputs, parse_bool, parse_is_positive,
}
use go_sdk_test.Snapshot.Commitments.Serialize.RoundTrip.{
  Restored, deserialize-serialize_commitments,
}

abbrev sum_hash : ℤ → ℤ → ℤ
sum_hash a b = a +ℤ a +ℤ b +ℤ pos 1

abbrev held : Commitments
held = record {
  merkle_tree = new sum_hash (pos 0) 0;
  enc_outputs = record { value = "0xab"; is_positive = true; is_blocked = true } ∷ [];
  by_commitment = (pos 7, "0xab") ∷ [];
}

abbrev unsigned : CommitmentsSerializedSnapshot
unsigned = record {
  latest_block_number = none;
  merkle_tree = none;
  encrypted_outputs = record { value = "0xab"; is_positive = "yes"; is_blocked = true } ∷ [];
  encrypted_outputs_by_commitment = [];
}

not_a_sign : deserialize_commitments sum_hash unsigned ≡ err (parse_is_positive "yes")
unfolding deserialize_commitments deserialize_tree deserialize_outputs parse_bool
not_a_sign = refl

deserialize-serialize_commitments_example :
    (restored : ℕ × Commitments) × (deserialize_commitments held.merkle_tree.hash_fn
        (serialize_commitments 12 held)
      ≡ ok restored)
    × Restored held.merkle_tree.hash_fn 12 held restored
unfolding new lookup
deserialize-serialize_commitments_example =
    deserialize-serialize_commitments 12 held refl refl (refl, tt)
