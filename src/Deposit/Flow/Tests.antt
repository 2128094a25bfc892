-- ===== src/Deposit/Flow/Tests.antt =====
-- A deposit of 21 UTXOs.
use mathlib.Core.Option
use go_sdk_test.Common.{
  ◌≢◌, refl, List, [], ◌∷◌, map, String, ℤ, pos, ok, arith, string_eq, int_eq, nat_eq, lookup,
}
use go_sdk_test.Utxo.{
  get_commitment, get_stealth_address, computed_stealth_address, computed_commitment,
  keep_commitment,
}
use go_sdk_test.Utxo.Tests.{coin}
use go_sdk_test.Deposit.{RecipientUtxo, commitment_number, has_leaf}
use go_sdk_test.Deposit.Leaves.{HaveCommitments, AreDistinct, wait_for_deposited_utxos_too_many}
use go_sdk_test.Deposit.Flow.{wait_for_deposited_utxos}
use go_sdk_test.Deposit.Tests.{numbered, chain}

-- The commitments of 21 deposited UTXOs, which differ.
abbrev deposit_of : String → RecipientUtxo
deposit_of text = record { recipient_address = "you"; utxo = record coin { commitment = text } }

abbrev many_deposits : List RecipientUtxo
many_deposits = map deposit_of (
    "c1" ∷ "c2" ∷ "c3" ∷ "c4" ∷ "c5" ∷ "c6" ∷ "c7" ∷ "c8" ∷ "c9" ∷ "c10" ∷ "c11" ∷ "c12" ∷ "c13"
    ∷ "c14" ∷ "c15" ∷ "c16" ∷ "c17" ∷ "c18" ∷ "c19" ∷ "c20" ∷ "c21" ∷ [])

abbrev many_numbers : List ℤ
many_numbers =
    pos 1
    ∷ pos 2
    ∷ pos 3
    ∷ pos 4
    ∷ pos 5
    ∷ pos 6
    ∷ pos 7
    ∷ pos 8
    ∷ pos 9
    ∷ pos 10
    ∷ pos 11
    ∷ pos 12
    ∷ pos 13
    ∷ pos 14
    ∷ pos 15
    ∷ pos 16
    ∷ pos 17
    ∷ pos 18
    ∷ pos 19
    ∷ pos 20
    ∷ pos 21
    ∷ []

many_commitments : HaveCommitments numbered many_deposits many_numbers
unfolding commitment_number get_commitment get_stealth_address computed_stealth_address
    computed_commitment keep_commitment lookup Option.bind
many_commitments = (
  refl,
  (
    refl,
    (
      refl,
      (
        refl,
        (
          refl,
          (
            refl,
            (
              refl,
              (
                refl,
                (
                  refl,
                  (
                    refl,
                    (
                      refl,
                      (
                        refl,
                        (refl, (refl, (refl, (refl, (refl, (refl, (refl, (refl, (refl, tt))))))))),
                      ),
                    ),
                  ),
                ),
              ),
            ),
          ),
        ),
      ),
    ),
  ),
)

many_distinct : AreDistinct many_numbers
unfolding has_leaf
many_distinct = (
  refl,
  (
    refl,
    (
      refl,
      (
        refl,
        (
          refl,
          (
            refl,
            (
              refl,
              (
                refl,
                (
                  refl,
                  (
                    refl,
                    (
                      refl,
                      (
                        refl,
                        (refl, (refl, (refl, (refl, (refl, (refl, (refl, (refl, (refl, tt))))))))),
                      ),
                    ),
                  ),
                ),
              ),
            ),
          ),
        ),
      ),
    ),
  ),
)

wait_for_deposited_utxos_too_many_example :
    (wait_for_deposited_utxos chain many_deposits tt).0 ≢ ok tt
wait_for_deposited_utxos_too_many_example =
    wait_for_deposited_utxos_too_many chain many_deposits many_numbers tt many_commitments
      many_distinct (omega arith)
