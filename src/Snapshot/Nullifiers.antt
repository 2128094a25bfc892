-- ===== src/Snapshot/Nullifiers.antt =====
-- snapshot/nullifiers.go and snapshot/solana_nullifiers.go: the set of spent nullifiers. The two
-- services differ in MapEvent alone, which is a parameter.
pub mod Set
pub mod Replay
pub mod Page
use go_sdk_test.Common.{
  ℕ, Bool, true, false, Option, none, some, List, [], ◌∷◌, String, Map, insert, contains, string_eq,
  if◌then◌else◌, map,
}
use go_sdk_test.Emitter.{BlockchainEvent}
use go_sdk_test.Snapshot.Service.{Delegate}

abbrev pub Nullifiers : Type 0
Nullifiers = Map String (Unit {0})

-- AcceptEvent, on the nullifier of the event.
unfoldable pub accept_nullifier :
    String → ℕ → String → Bool → Nullifiers → Option (Bool × Nullifiers)
accept_nullifier n block tx blocked s =
    if contains n s then some (false, s) else some (true, insert n tt s)

unfoldable pub nullifier_delegate : (BlockchainEvent → Option String) → Delegate String Nullifiers
unfolding accept_nullifier
nullifier_delegate map_event = record { map_event = map_event; accept_event = accept_nullifier }

pub record NullifierSerializedSnapshot : Type 0 where
  pub latest_block_number : Option ℕ
  pub nullifiers : List String

-- The keys of the map, in the order of its iteration.
unfoldable pub keys : Nullifiers → List String
keys [] = []
keys ((n, u) ∷ s) = n ∷ keys s

unfoldable pub serialize_nullifiers : ℕ → Nullifiers → NullifierSerializedSnapshot
unfolding keys
serialize_nullifiers block s = record { latest_block_number = some block; nullifiers = keys s }

unfoldable pub to_set : List String → Nullifiers → Nullifiers
to_set [] s = s
to_set (n ∷ ns) s = to_set ns (insert n tt s)

unfoldable pub deserialize_nullifiers : NullifierSerializedSnapshot → ℕ × Nullifiers
unfolding to_set
deserialize_nullifiers z =
    (elim z.latest_block_number [ none ↦ 0 | some b ↦ b ], to_set z.nullifiers [])
