-- ===== src/Deposit/Tests.antt =====
-- Runs of the amounts and the matching, and of the whole flow on a chain that confirms everything.
use mathlib.Core.List.Perm
use go_sdk_test.Common.{
  ℕ, ◌≡◌, refl, true, false, Option, none, some, List, [], ◌∷◌, String, ℤ, pos, ok, err, string_eq,
  int_eq, nat_eq, ◌==◌, lookup,
}
use go_sdk_test.Utxo.{Primitives, Utxo}
use go_sdk_test.Utxo.Tests.{toy, coin}
use go_sdk_test.Funds.Approvals.{Erc20Token}
use go_sdk_test.Inputs.{Tokens}
use go_sdk_test.Merkle.{MerkleTree}
use go_sdk_test.Deposit.{RecipientUtxo, take_match, match_recipient_utxos, no_match}
use go_sdk_test.Deposit.Matched.{IsMatched, match_recipient_utxos-IsMatched}
use go_sdk_test.Deposit.{GivenFee, not_available, call_failed}
use go_sdk_test.Deposit.Flow.{transact_hash, Session}

abbrev two_units : Utxo
two_units = record coin { amount = pos 2 }

matched_last_first :
    match_recipient_utxos ("a" ∷ "b" ∷ []) (pos 2 ∷ pos 5 ∷ []) (coin ∷ two_units ∷ [])
    ≡ ok (
        record { recipient_address = "a"; utxo = two_units }
        ∷ record { recipient_address = "b"; utxo = coin }
        ∷ [])
unfolding match_recipient_utxos take_match
matched_last_first = refl

not_there : match_recipient_utxos ("a" ∷ []) (pos 3 ∷ []) (coin ∷ []) ≡ err no_match
unfolding match_recipient_utxos take_match
not_there = refl

match_recipient_utxos-IsMatched_example :
    (out : List RecipientUtxo) × (match_recipient_utxos
        ("a" ∷ "b" ∷ [])
        (pos 2 ∷ pos 5 ∷ [])
        (coin ∷ two_units ∷ [])
      ≡ ok out)
    × IsMatched ("a" ∷ "b" ∷ []) (pos 2 ∷ pos 5 ∷ []) (coin ∷ two_units ∷ []) out
match_recipient_utxos-IsMatched_example =
    match_recipient_utxos-IsMatched ("a" ∷ "b" ∷ []) (pos 2 ∷ pos 5 ∷ []) (coin ∷ two_units ∷ [])
      refl (Perm.swap (pos 5) (pos 2) [])

abbrev pub numbers : List (String × ℤ)
numbers =
    ("c1", pos 1)
    ∷ ("c2", pos 2)
    ∷ ("c3", pos 3)
    ∷ ("c4", pos 4)
    ∷ ("c5", pos 5)
    ∷ ("c6", pos 6)
    ∷ ("c7", pos 7)
    ∷ ("c8", pos 8)
    ∷ ("c9", pos 9)
    ∷ ("c10", pos 10)
    ∷ ("c11", pos 11)
    ∷ ("c12", pos 12)
    ∷ ("c13", pos 13)
    ∷ ("c14", pos 14)
    ∷ ("c15", pos 15)
    ∷ ("c16", pos 16)
    ∷ ("c17", pos 17)
    ∷ ("c18", pos 18)
    ∷ ("c19", pos 19)
    ∷ ("c20", pos 20)
    ∷ ("c21", pos 21)
    ∷ []

-- The texts of the commitments stand for the numbers of the table, other texts for 0.
abbrev pub number_of : String → Option ℤ
number_of s = elim (lookup s numbers) [ none ↦ some (pos 0) | some n ↦ some n ]

abbrev pub numbered : Primitives
numbered = record toy { parse_big_int = number_of }

abbrev pub plain_tokens : Tokens
plain_tokens = record {
  is_solana = false;
  to_lower = λ s. s;
  first_part = λ s. "token";
  equal_fold = λ s t. s == t;
  format_mint = λ s. some s;
  shielded_private_key = "key";
  spending_public_key = [];
}

-- The UTXO of five units and their fee of one.
abbrev pub due : Utxo
due = record coin { amount = pos 6; commitment = "c9" }

abbrev pub one_leaf : MerkleTree
one_leaf = record {
  hash_fn = λ a b. a;
  levels = 2;
  default_value = pos 0;
  tree = (2, pos 9) ∷ [];
  reverse_tree = (pos 9, 2) ∷ [];
  count = 1;
  index = 3;
}

-- A chain that confirms everything; the deposit makes one UTXO.
abbrev pub chain : Session (Unit {0}) ℕ
chain = record {
  primitives = numbered;
  tokens = plain_tokens;
  keys = record { shielded_private_key = some "key"; spending_public_key = some [] };
  address_to_hex = λ s. some s;
  now = λ s. "1";
  get_ethereum_address = λ s. ok "me";
  get_fee_structure = λ s. err not_available;
  cross_fee = λ a s. none;
  is_known_token = true;
  relayer_address = λ s. ok "relay";
  utxos = λ s. [];
  prove_deposit = λ amounts ins outs s. (ok 7, s);
  update_status = λ phase s. (ok "id", s);
  adapter = λ s. ok tt;
  transact = λ total proof s. (("0xhash", none), s);
  wait_for_transaction = λ hash s. (ok true, s);
  fetch_receipt = λ hash s. (ok tt, s);
  decode_receipt = λ hash s. (ok (due ∷ []), s);
  reset_merkle = λ s. (ok tt, s);
  tree = λ s. some one_leaf;
  pause = λ s. (ok tt, s);
  prove_withdrawal = λ ins outs fee relay to s. (ok 8, s);
  schedule = λ items s. (ok "schedule", s);
}

abbrev pub token : Erc20Token
token = record { chain_id = 1; erc20_token_address = "token" }

abbrev pub given : GivenFee
given = record { fee_token = "token"; flat_fee = some (pos 1); variable_rate = none }

-- A call that fails and returns a hash all the same goes unnoticed.
abbrev failing : Session (Unit {0}) ℕ
failing = record chain { transact = λ total proof s. (("0xhash", some call_failed), s) }

failure_unread : transact_hash failing (pos 6) 7 tt ≡ (ok "0xhash", tt)
unfolding transact_hash
failure_unread = refl
