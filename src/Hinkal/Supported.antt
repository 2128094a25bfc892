-- ===== src/Hinkal/Supported.antt =====
-- The chains that an object supports have an adapter.
use go_sdk_test.Common.{
  ℕ, ◌≡◌, refl, sym, ◌∙◌, Bool, true, false, not, ◌&&◌, Bool-cases, inl, inr, Option-cases, some,
  [], ◌∷◌, nat_beq, ok, arith,
}
use go_sdk_test.Chains.{
  contains_id, is_solana_like, is_tron_like, is_evm_only, is_wallet_chain, hinkal_supported_chains,
  select_chains,
}
use go_sdk_test.Chains.Lists.{contains-select, solana-or-tron}
use go_sdk_test.Hinkal.{ProviderAdapter, Hinkal, get_provider_adapter, get_supported_chains}

-- Zero is the chain of no list.
nonzero : (chain : ℕ) → contains_id hinkal_supported_chains chain ≡ true → nat_beq chain 0 ≡ false
unfolding contains_id
nonzero chain h = ground arith

nonzero_tron : (chain : ℕ) → is_tron_like chain ≡ true → nat_beq chain 0 ≡ false
unfolding is_tron_like contains_id
nonzero_tron chain h = ground arith

and-parts : (a b : Bool) → (a && b) ≡ true → (a ≡ true) × (b ≡ true)
and-parts true b h = (refl, h)
and-parts false b h = absurd (cc h)

flip_not : (b : Bool) → not b ≡ true → b ≡ false
flip_not true h = absurd (cc h)
flip_not false h = refl

wallet-not_tron : (id : ℕ) → is_wallet_chain id ≡ true → is_tron_like id ≡ false
wallet-not_tron id h = elim (Bool-cases (is_tron_like id)) [
  | inl tron ↦ absurd (cc (rw (tron) at h))
  | inr other ↦ other
]

-- A selected chain is supported and kept.
selected :
    (keep : ℕ → Bool) (chain : ℕ)
    → contains_id (select_chains keep hinkal_supported_chains) chain ≡ true
    → (nat_beq chain 0 ≡ false) × (keep chain ≡ true)
selected keep chain h =
    let (supported, kept) =
      and-parts (contains_id hinkal_supported_chains chain) (keep chain)
        (sym (contains-select keep hinkal_supported_chains chain) ∙ h) in
    (nonzero chain supported, kept)

module _ (h : Hinkal) (chain : ℕ) (positive : nat_beq chain 0 ≡ false) (a : ProviderAdapter) where
  adapter-solana :
      is_solana_like chain ≡ true
      → h.solana_provider_adapter ≡ some a
      → get_provider_adapter (some chain) h ≡ ok a
  unfolding get_provider_adapter
  adapter-solana solana e = rw (positive, solana, e) refl

  adapter-tron :
      is_tron_like chain ≡ true
      → h.tron_provider_adapter ≡ some a
      → get_provider_adapter (some chain) h ≡ ok a
  unfolding get_provider_adapter
  adapter-tron tron e = elim (Bool-cases (is_solana_like chain)) [
    | inl solana ↦ absurd (cc (solana-or-tron chain solana, tron))
    | inr other ↦ rw (positive, other, tron, e) refl
  ]

  adapter-evm :
      is_solana_like chain ≡ false
      → is_tron_like chain ≡ false
      → h.ethereum_provider_adapter ≡ some a
      → get_provider_adapter (some chain) h ≡ ok a
  unfolding get_provider_adapter
  adapter-evm solana tron e = rw (positive, solana, tron, e) refl

only_tron : (id chain : ℕ) → contains_id (id ∷ []) chain ≡ true → id ≡ chain
unfolding contains_id
only_tron id chain h = ground arith

listed_nowhere : (chain : ℕ) → contains_id [] chain ≡ true → ⊥
unfolding contains_id
listed_nowhere chain h = absurd (cc h)

-- Every chain that GetSupportedChains lists has an adapter, so that GetProviderAdapter finds one for
-- it, if the Tron chain of the object is one.
pub get_supported_chains-HasAdapter :
    (h : Hinkal) (chain : ℕ)
    → is_tron_like h.tron_chain_id ≡ true
    → contains_id (get_supported_chains h) chain ≡ true
    → (a : ProviderAdapter) × (get_provider_adapter (some chain) h ≡ ok a)
unfolding get_supported_chains
get_supported_chains-HasAdapter h chain tron listed =
    elim (Option-cases h.ethereum_provider_adapter) [
      | inr (e, eth) ↦ elim (Option-cases h.solana_provider_adapter) [
        | inr (s, sol) ↦
            let (positive, kept) = selected is_wallet_chain chain (rw (eth, sol) at listed) in
            let evm = wallet-not_tron chain kept in
            elim (Bool-cases (is_solana_like chain)) [
              | inl solana ↦ (s, adapter-solana h chain positive s solana sol)
              | inr other ↦ (e, adapter-evm h chain positive e other evm eth)
            ]
        | inl no_solana ↦
            let (positive, kept) = selected is_evm_only chain (rw (eth, no_solana) at listed) in
            let (other, evm) = and-parts _ _ kept in
            (
              e,
              adapter-evm h chain positive e (flip_not (is_solana_like chain) other)
                  (flip_not (is_tron_like chain) evm) eth,
            )
      ]
      | inl no_eth ↦ elim (Option-cases h.solana_provider_adapter) [
        | inr (s, sol) ↦
            let (positive, solana) = selected is_solana_like chain (rw (no_eth, sol) at listed) in
            (s, adapter-solana h chain positive s solana sol)
        | inl no_solana ↦ elim (Option-cases h.tron_provider_adapter) [
          | inr (t, found) ↦
              let e : h.tron_chain_id ≡ chain =
                only_tron h.tron_chain_id chain (rw (no_eth, no_solana, found) at listed) in
              let tron' : is_tron_like chain ≡ true = rw (e) at tron in
              (t, adapter-tron h chain (nonzero_tron chain tron') t tron' found)
          | inl no_tron ↦ absurd (listed_nowhere chain (rw (no_eth, no_solana, no_tron) at listed))
        ]
      ]
    ]
