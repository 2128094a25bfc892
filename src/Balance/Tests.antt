-- ===== src/Balance/Tests.antt =====
-- The reading of outputs over a toy decryption.
use go_sdk_test.Common.{
  contains, lookup, ◌≡◌, refl, true, false, none, some, List, [], ◌∷◌, String, pos, string_eq, ◌==◌,
  if◌then◌else◌,
}
use mathlib.Core.Option
use go_sdk_test.Utxo.{
  get_nullifier, get_commitment, get_stealth_address, computed_stealth_address, computed_commitment,
  keep_commitment, computed_nullifier, keep_nullifier, Utxo, new_utxo, drawn_randomization,
  derived_h0,
}
use go_sdk_test.Utxo.Tests.{toy, coin, halved}
use go_sdk_test.Snapshot.Commitments.{EncryptedOutputWithSign}
use go_sdk_test.Balance.{
  InputUtxoParams, get_input_utxo_and_balance, all_utxos, input_source, index_of_output, Wallet,
  decode_output, owned_flag, HinkalCacheInterface,
}
use go_sdk_test.Balance.Unspent.{AreSpendable, get_input_utxo_and_balance-AreSpendable}
use go_sdk_test.Balance.Sorted.{sort_by_amount, insert_by_amount}

-- Only the text "mine" can be decrypted.
abbrev wallet : Wallet
wallet = record {
  primitives = toy;
  decrypt_utxo_hex = λ s. if s == "mine" then some coin else none;
  decode_utxo = λ s. none;
  workers = 4;
}

abbrev output : String → EncryptedOutputWithSign
output s = record { value = s; is_positive = true; is_blocked = false }

abbrev outs : List EncryptedOutputWithSign
outs = output "mine" ∷ output "other" ∷ output "mine" ∷ []

-- The cache after the first two outputs.
abbrev cached : HinkalCacheInterface
cached = record { encrypted_outputs = output "mine" ∷ []; last_output = "other" }

abbrev no_coin : Utxo
no_coin = record coin { amount = pos 0 }

no_coin_made : new_utxo toy no_coin ≡ some no_coin
unfolding new_utxo drawn_randomization derived_h0 Option.bind
no_coin_made = refl

larger_first : sort_by_amount (halved ∷ coin ∷ []) ≡ coin ∷ halved ∷ []
unfolding sort_by_amount insert_by_amount
larger_first = refl

abbrev question : InputUtxoParams
question = record {
  reset_cache_before = false;
  allow_remote_decryption = false;
  use_blocked_utxos = false;
  force_read_from_cache = false;
}

-- The wallet's coin has the nullifier that the toy hash gives every coin.
spent_are_left_out :
    get_input_utxo_and_balance wallet question none outs (("0xaa", tt) ∷ []) cached
    ≡ ([], record { encrypted_outputs = output "mine" ∷ output "mine" ∷ []; last_output = "mine" })
unfolding get_input_utxo_and_balance all_utxos input_source index_of_output get_nullifier
    get_commitment get_stealth_address computed_stealth_address computed_commitment keep_commitment
    computed_nullifier keep_nullifier contains lookup Option.bind decode_output owned_flag
spent_are_left_out = refl

get_input_utxo_and_balance-AreSpendable_example :
    AreSpendable [] false (get_input_utxo_and_balance wallet question none outs [] cached).0
get_input_utxo_and_balance-AreSpendable_example =
    get_input_utxo_and_balance-AreSpendable wallet question none outs [] cached
