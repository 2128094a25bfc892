-- ===== src/Utxo/Tests.antt =====
-- A UTXO over a toy hash: its kept values, and a changed copy.
use go_sdk_test.Common.{◌≡◌, refl, true, false, none, some, [], pos}
use mathlib.Core.Option
use go_sdk_test.Utxo.{
  Primitives, Utxo, UtxoPatch, new_utxo, create_from, drawn_randomization, derived_h0,
  get_commitment, get_nullifier, get_stealth_address, computed_commitment, computed_nullifier,
  computed_stealth_address, keep_commitment, keep_nullifier, get_constructable_params, apply_patch,
}
use go_sdk_test.Utxo.Caching.{create_from-IsMadeFrom}

abbrev pub toy : Primitives
toy = record {
  now = "100";
  parse_big_int = λ s. some (pos 7);
  to_be_hex = λ n. "0xaa";
  poseidon = λ xs. some (pos 3);
  random_randomization = λ k. some (pos 4);
  find_h0 = λ r k. some (pos 1, pos 2);
  get_stealth_address_new_style = λ h k s. some "stealth";
  get_stealth_address_old_style = λ r k. some "old";
  encryption_public_key = λ k. some "pk";
}

abbrev pub coin : Utxo
coin = record {
  amount = pos 5;
  erc20_token_address = "token";
  mint_address = "";
  time_stamp = "9";
  nullifying_key = "key";
  spending_public_key = [];
  randomization = some (pos 8);
  h0 = none;
  stealth_address = "";
  encryption_key = "";
  commitment = "";
  nullifier = "";
  is_blocked = true;
  is_new_style = false;
}

abbrev addressed : Utxo
addressed = record coin { stealth_address = "old" }

abbrev committed : Utxo
committed = record addressed { commitment = "0xaa" }

coin_commitment : get_commitment toy coin ≡ (some "0xaa", committed)
unfolding get_commitment get_stealth_address computed_stealth_address computed_commitment
    keep_commitment Option.bind
coin_commitment = refl

abbrev nullified : Utxo
nullified = record committed { nullifier = "0xaa" }

coin_nullifier : get_nullifier toy coin ≡ (some "0xaa", nullified)
unfolding get_nullifier get_commitment get_stealth_address computed_stealth_address
    computed_commitment keep_commitment computed_nullifier keep_nullifier Option.bind
coin_nullifier = refl

abbrev half : UtxoPatch
half = record {
  amount = some (pos 2);
  erc20_token_address = "";
  mint_address = "";
  time_stamp = "";
  nullifying_key = "";
  spending_public_key = none;
  randomization = none;
  h0 = none;
  stealth_address = "";
  encryption_key = "";
  commitment = "";
  nullifier = "";
  is_blocked = false;
  is_new_style = true;
}

abbrev pub halved : Utxo
halved = record coin { amount = pos 2; stealth_address = "old" }

halved_made : create_from toy nullified half ≡ some halved
unfolding create_from get_constructable_params apply_patch new_utxo drawn_randomization derived_h0
    Option.bind
halved_made = refl

create_from-IsMadeFrom_example :
    (halved.commitment ≡ "")
    × (halved.nullifier ≡ "")
    × (halved.amount ≡ pos 2)
    × (halved.is_blocked ≡ true)
    × (halved.is_new_style ≡ false)
create_from-IsMadeFrom_example = create_from-IsMadeFrom toy nullified half halved halved_made
