-- ===== src/Shielded/Total.antt =====
-- The balances of all tokens are the amounts of all UTXOs.
use go_sdk_test.Common.{
  ℕ, ◌+◌, ◌≡◌, refl, sym, ◌∙◌, true, false, Bool-cases, inl, inr, some, List, [], ◌∷◌, String, ℤ,
  pos, ◌+ℤ◌, int_laws, +ℤ_zero, ◌==◌, string_eq, Map, lookup, insert, lookup-insert, arith,
  if◌then◌else◌,
}
use go_sdk_test.Utxo.{Utxo}
use go_sdk_test.Inputs.{Tokens}
use go_sdk_test.Funds.{count_total_amount_in_utxos}
use go_sdk_test.Shielded.{
  TokenBalance, is_of_token, balance_of, timestamp_of, balances_from, get_shielded_balance,
  get_total_balance,
}

-- The tokens of the registry that a UTXO is of.
abbrev pub count_tokens : Tokens → List String → Utxo → ℕ
count_tokens c [] u = 0
count_tokens c (t ∷ ts) u = (if is_of_token c t u then 1 else 0) + count_tokens c ts u

-- Each UTXO is of one token of the registry.
abbrev pub AreRegistered : Tokens → List String → List Utxo → Type 0
AreRegistered c registry [] = Unit {0}
AreRegistered c registry (u ∷ us) = (count_tokens c registry u ≡ 1) × AreRegistered c registry us

-- No later token has the key.
abbrev pub IsFresh : Tokens → String → List String → Type 0
IsFresh c key [] = Unit {0}
IsFresh c key (t ∷ ts) = (c.to_lower t == key ≡ false) × IsFresh c key ts

-- No two tokens of the registry have one key.
abbrev pub HasUniqueTokens : Tokens → List String → Type 0
HasUniqueTokens c [] = Unit {0}
HasUniqueTokens c (t ∷ ts) = IsFresh c (c.to_lower t) ts × HasUniqueTokens c ts

abbrev pub total_balance : List TokenBalance → ℤ
total_balance [] = pos 0
total_balance (b ∷ bs) = b.balance +ℤ total_balance bs

abbrev sum_of : Tokens → List String → List Utxo → ℤ
sum_of c [] us = pos 0
sum_of c (t ∷ ts) us = balance_of c t us +ℤ sum_of c ts us

abbrev part_of : Tokens → List String → Utxo → ℤ
part_of c [] u = pos 0
part_of c (t ∷ ts) u = (if is_of_token c t u then u.amount else pos 0) +ℤ part_of c ts u

part_of_none :
    (c : Tokens) (ts : List String) (u : Utxo) → count_tokens c ts u ≡ 0 → part_of c ts u ≡ pos 0
part_of_none c [] u h = refl
part_of_none c (t ∷ ts) u h = elim (Bool-cases (is_of_token c t u)) [
  | inl here ↦ absurd (omega (arith, rw (here) at h))
  | inr other ↦ rw (other, part_of_none c ts u (omega (arith, rw (other) at h))) (+ℤ_zero (pos 0))
]

part_of_one :
    (c : Tokens) (ts : List String) (u : Utxo) → count_tokens c ts u ≡ 1 → part_of c ts u ≡ u.amount
part_of_one c [] u h = absurd (omega (arith, h))
part_of_one c (t ∷ ts) u h = elim (Bool-cases (is_of_token c t u)) [
  | inl here ↦ rw (here, part_of_none c ts u (omega (arith, rw (here) at h))) (+ℤ_zero u.amount)
  | inr other ↦ rw (other, part_of_one c ts u (omega (arith, rw (other) at h))) (zero_left u.amount)
]
  where
    zero_left : (a : ℤ) → pos 0 +ℤ a ≡ a
    zero_left a = omega int_laws

sum_of-cons :
    (c : Tokens) (ts : List String) (u : Utxo) (us : List Utxo)
    → sum_of c ts (u ∷ us) ≡ part_of c ts u +ℤ sum_of c ts us
unfolding balance_of
sum_of-cons c [] u us = sym (+ℤ_zero (pos 0))
sum_of-cons c (t ∷ ts) u us = rw (sum_of-cons c ts u us) (
    exchange (if is_of_token c t u then u.amount else pos 0) (balance_of c t us) (part_of c ts u)
      (sum_of c ts us))
  where
    exchange : (a b x y : ℤ) → a +ℤ b +ℤ (x +ℤ y) ≡ a +ℤ x +ℤ (b +ℤ y)
    exchange a b x y = omega int_laws

sum_of-nil : (c : Tokens) (ts : List String) → sum_of c ts [] ≡ pos 0
unfolding balance_of
sum_of-nil c [] = refl
sum_of-nil c (t ∷ ts) = rw (sum_of-nil c ts) (+ℤ_zero (pos 0))

sum_of-total :
    (c : Tokens) (ts : List String) (us : List Utxo)
    → AreRegistered c ts us
    → sum_of c ts us ≡ count_total_amount_in_utxos us
unfolding count_total_amount_in_utxos
sum_of-total c ts [] h = sum_of-nil c ts
sum_of-total c ts (u ∷ us) (once, h) =
    sum_of-cons c ts u us ∙ rw (part_of_one c ts u once, sum_of-total c ts us h) refl

fresh_lookup :
    (c : Tokens) (us : List Utxo) (key : String) (ts : List String) (m : Map String TokenBalance)
    → IsFresh c key ts
    → lookup key (balances_from c us ts m) ≡ lookup key m
unfolding balances_from
fresh_lookup c us key [] m h = refl
fresh_lookup c us key (t ∷ ts) m (other, h) =
    fresh_lookup c us key ts _ h ∙ lookup-insert (c.to_lower t) key _ m ∙ rw (other) refl

-- The balances that are looked up are those of the tokens.
total-sum_of :
    (c : Tokens) (us : List Utxo) (ts : List String) (m : Map String TokenBalance)
    → HasUniqueTokens c ts
    → total_balance (get_total_balance c ts (balances_from c us ts m)) ≡ sum_of c ts us
unfolding get_total_balance balances_from
total-sum_of c us [] m unique = refl
total-sum_of c us (t ∷ ts) m (fresh, unique) =
    let e : TokenBalance = record {
      token = t;
      balance = balance_of c t us;
      timestamp = timestamp_of c t us;
    } in
    let key = c.to_lower t in
    let same : key == key ≡ true = (string_eq.same_key_iff key key).1 refl in
    let found : lookup key (balances_from c us ts (insert key e m)) ≡ some e =
      fresh_lookup c us key ts (insert key e m) fresh
      ∙ lookup-insert key key e m
      ∙ rw (same) refl in
    rw (found, total-sum_of c us ts (insert key e m) unique) refl

-- The balances that GetTotalBalance reads from those of GetShieldedBalance add up to the amounts of
-- the UTXOs, if each of these is of exactly one token of the registry, and no two tokens of the
-- registry are the same but for case.
pub get_total_balance-eq-amounts :
    (c : Tokens) (registry : List String) (us : List Utxo)
    → HasUniqueTokens c registry
    → AreRegistered c registry us
    → total_balance (get_total_balance c registry (get_shielded_balance c registry us))
      ≡ count_total_amount_in_utxos us
unfolding get_shielded_balance
get_total_balance-eq-amounts c registry us unique registered =
    total-sum_of c us registry [] unique ∙ sum_of-total c registry us registered
