-- ===== src/Hinkal/Tests.antt =====
-- Runs of an object that is given adapters.
use go_sdk_test.Common.{ℕ, ◌+◌, ◌≡◌, refl, some, [], ◌∷◌, Result, ok}
use go_sdk_test.Chains.{
  chain_ids, is_solana_like, is_tron_like, contains_id, select_chains, wallet_supported_chains,
  is_sepolia_testnet, is_tempo,
}
use go_sdk_test.Hinkal.{
  ProviderAdapter, ethers, solana_kind, ProviderError, Hinkal, no_adapters, init_provider_adapter,
  update_provider_adapter, get_provider_adapter, get_supported_chains,
}
use go_sdk_test.Hinkal.Adapters.{start, given, held, count_id, Reached-accounted}
use go_sdk_test.Hinkal.Supported.{get_supported_chains-HasAdapter}

abbrev connects : ProviderAdapter → Result ProviderError ℕ
connects a = ok 1

abbrev starts : ProviderAdapter → ℕ → Result ProviderError (Unit {0})
starts a chain = ok tt

abbrev evm_adapter : ProviderAdapter
evm_adapter = record { id = 7; kind = ethers }

abbrev solana : ProviderAdapter
solana = record { id = 8; kind = solana_kind }

abbrev given_once : Hinkal
given_once =
    (init_provider_adapter connects starts (some evm_adapter)
      (no_adapters chain_ids.tron_mainnet)).1

abbrev given_twice : Hinkal
given_twice = (init_provider_adapter connects starts (some evm_adapter) given_once).1

abbrev both : Hinkal
both = (init_provider_adapter connects starts (some solana) given_once).1

-- An adapter that is given again is released while it is held.
released_and_held :
    (given_twice.released ≡ 7 ∷ []) × (given_twice.ethereum_provider_adapter ≡ some evm_adapter)
unfolding init_provider_adapter update_provider_adapter is_solana_like is_tron_like contains_id
released_and_held = (refl, refl)

Reached-accounted_example :
    held 7 given_twice + count_id 7 given_twice.released ≡ count_id 7 (7 ∷ 7 ∷ [])
Reached-accounted_example = Reached-accounted (7 ∷ 7 ∷ []) given_twice 7 (
    given connects starts evm_adapter
      (given connects starts evm_adapter (start chain_ids.tron_mainnet)))

get_supported_chains-HasAdapter_example :
    (a : ProviderAdapter) × (get_provider_adapter (some 501) both ≡ ok a)
unfolding init_provider_adapter update_provider_adapter is_solana_like is_tron_like contains_id
    get_supported_chains select_chains wallet_supported_chains is_sepolia_testnet is_tempo
get_supported_chains-HasAdapter_example = get_supported_chains-HasAdapter both 501 refl refl
