-- ===== src/Inputs/Rectangular.antt =====
-- AddPaddingToUtxos gives the circuits rows of one length.
use go_sdk_test.Common.{ℕ, ◌≡◌, Bool, true, false, ◌⊎◌, List, [], ◌∷◌, string_eq, String, ℤ}
use go_sdk_test.Utxo.{Utxo}
use go_sdk_test.Inputs.{Tokens, Rows, encode_token_with_id, or_six}
use go_sdk_test.Inputs.Grouped.{IsRowOf}
use go_sdk_test.Inputs.Rows.{AreRows}

-- The row of a token before it is filled up or cut: no UTXOs where empty ones are forced, else those of
-- the token.
abbrev pub IsOwnRow : Tokens → List Utxo → Bool → String → List Utxo → Type 0
IsOwnRow c us true token row = row ≡ []
IsOwnRow c us false token row = IsRowOf c us (encode_token_with_id c token) row

abbrev pub AreOwnRows : Tokens → List Utxo → Bool → List String → List (List Utxo) → Type 0
AreOwnRows c us force [] [] = Unit {0}
AreOwnRows c us force [] (row ∷ rows) = ⊥
AreOwnRows c us force (token ∷ tokens) [] = ⊥
AreOwnRows c us force (token ∷ tokens) (row ∷ rows) =
    IsOwnRow c us force token row × AreOwnRows c us force tokens rows

-- The tokens' rows, filled up or cut to one number of inputs.
abbrev pub IsRectangular :
    Tokens → ℕ → Bool → List String → List ℤ → List Utxo → List (List Utxo) → Type 0
IsRectangular c max_input force tokens changes us outs =
    (rows : List (List Utxo)) × (n : ℕ) × AreOwnRows c us force tokens rows
    × ((n ≡ 2) ⊎ (n ≡ or_six max_input))
    × AreRows n changes rows outs
