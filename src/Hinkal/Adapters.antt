-- ===== src/Hinkal/Adapters.antt =====
-- Every adapter that the object was given is held or was released, whatever the calls.
use go_sdk_test.Common.{
  ℕ, ◌+◌, ◌≡◌, refl, Bool-cases, inl, inr, Option, none, some, List, [], ◌∷◌, nat_beq, Result,
  arith, if◌then◌else◌,
}
use go_sdk_test.Chains.{is_solana_like, is_tron_like}
use go_sdk_test.Hinkal.{
  ProviderAdapter, ProviderError, Hinkal, no_adapters, release, update_provider_adapter,
  default_chain_id, init_provider_adapter, reset_provider_adapters, destroy,
}

-- What is reached from an object without adapters: by giving it an adapter, which may fail to
-- connect, by a reset, and by Destroy. The list has the adapters given, the last one first.
pub data Reached : List ℕ → Hinkal → Type 0 where
  start : (tron_chain_id : ℕ) → Reached [] (no_adapters tron_chain_id)
  given :
      {ids : List ℕ} {h : Hinkal} (connect : ProviderAdapter → Result ProviderError ℕ)
      (init : ProviderAdapter → ℕ → Result ProviderError (Unit {0})) (a : ProviderAdapter)
      → Reached ids h
      → Reached (a.id ∷ ids) (init_provider_adapter connect init (some a) h).1
  refused :
      {ids : List ℕ} {h : Hinkal} (connect : ProviderAdapter → Result ProviderError ℕ)
      (init : ProviderAdapter → ℕ → Result ProviderError (Unit {0}))
      → Reached ids h
      → Reached ids (init_provider_adapter connect init none h).1
  reset : {ids : List ℕ} {h : Hinkal} → Reached ids h → Reached ids (reset_provider_adapters h)
  destroyed : {ids : List ℕ} {h : Hinkal} → Reached ids h → Reached ids (destroy h).1

abbrev pub count_id : ℕ → List ℕ → ℕ
count_id i [] = 0
count_id i (j ∷ js) = (if nat_beq i j then 1 else 0) + count_id i js

abbrev pub count_held : ℕ → Option ProviderAdapter → ℕ
count_held i none = 0
count_held i (some a) = if nat_beq i a.id then 1 else 0

-- The places that hold the adapter.
abbrev pub held : ℕ → Hinkal → ℕ
held i h =
    count_held i h.ethereum_provider_adapter
    + count_held i h.solana_provider_adapter
    + count_held i h.tron_provider_adapter

count-release :
    (i : ℕ) (o : Option ProviderAdapter) (log : List ℕ)
    → count_id i (release o log) ≡ count_held i o + count_id i log
count-release i none log = omega arith
count-release i (some a) log = refl

update-accounted :
    (i chain : ℕ) (a : ProviderAdapter) (h : Hinkal)
    → held i (update_provider_adapter chain a h)
        + count_id i (update_provider_adapter chain a h).released
      ≡ (if nat_beq i a.id then 1 else 0) + (held i h + count_id i h.released)
unfolding update_provider_adapter
update-accounted i chain a h = elim (Bool-cases (is_solana_like chain)) [
  | inl solana ↦ rw (solana) (omega (arith, count-release i h.solana_provider_adapter h.released))
  | inr other ↦ elim (Bool-cases (is_tron_like chain)) [
    | inl tron ↦
        rw (other, tron) (omega (arith, count-release i h.tron_provider_adapter h.released))
    | inr evm ↦
        rw (other, evm) (omega (arith, count-release i h.ethereum_provider_adapter h.released))
  ]
]

reset-accounted :
    (i : ℕ) (h : Hinkal)
    → held i (reset_provider_adapters h) + count_id i (reset_provider_adapters h).released
      ≡ held i h + count_id i h.released
unfolding reset_provider_adapters
reset-accounted i h =
    let first = release h.ethereum_provider_adapter h.released in
    let second = release h.solana_provider_adapter first in
    omega (
      arith,
      count-release i h.ethereum_provider_adapter h.released,
      count-release i h.solana_provider_adapter first,
      count-release i h.tron_provider_adapter second,
    )

-- However an object is used, an adapter is held or was released exactly as often as it was given:
-- none is leaked, and an adapter given once is not released twice, nor while it is held.
pub Reached-accounted :
    (ids : List ℕ) (h : Hinkal) (i : ℕ)
    → Reached ids h
    → held i h + count_id i h.released ≡ count_id i ids
unfolding init_provider_adapter destroy
Reached-accounted ids h i (start tron_chain_id) = refl
Reached-accounted ids h i (given {ids = ids'} {h = h'} connect init a r) =
    omega
      (arith, update-accounted i (default_chain_id a.kind h') a h', Reached-accounted ids' h' i r)
Reached-accounted ids h i (refused connect init r) = Reached-accounted ids _ i r
Reached-accounted ids h i (reset {ids = ids'} {h = h'} r) =
    omega (arith, reset-accounted i h', Reached-accounted ids' h' i r)
Reached-accounted ids h i (destroyed {ids = ids'} {h = h'} r) =
    omega (arith, reset-accounted i h', Reached-accounted ids' h' i r)
