-- ===== src/Inputs.antt =====
-- internal/functions/balance/input_utxos_per_token.go, add_padding_to_utxos.go and stuck_utxos.go: the
-- inputs of a transaction, per token and padded to the sizes of the circuits. The texts' functions of
-- the standard library and FormatMintAddress are parameters; the UTXOs of the user are an argument.
pub mod PerToken
pub mod Rows
pub mod Grouped
pub mod Rectangular
mod Tests
use Prim.Native.String.{◌++◌ as append_text}
use go_sdk_test.Common.{
  ℕ, zero, suc, ◌-◌, Bool, true, false, not, ◌&&◌, Option, none, some, List, [], ◌∷◌, ◌++◌, String,
  ℤ, pos, neg, abs, is_neg, ltb_ℤ, ltb, nat_beq, max, length, take, Map, lookup, insert, contains,
  string_eq, Result, ok, err, ◌>>=◌, ◌>>◌, fail_if, require, if◌then◌else◌,
}
use go_sdk_test.Utxo.{Primitives, Utxo, new_utxo, get_token_address}
use go_sdk_test.Funds.{count_total_amount_in_utxos}
use go_sdk_test.Balance.Sorted.{sort_and_pad_utxos}

-- `first_part` is strings.Split(key, "-")[0], `format_mint` the compressed address of
-- FormatMintAddress.
pub record Tokens : Type 0 where
  pub is_solana : Bool
  pub to_lower : String → String
  pub first_part : String → String
  pub equal_fold : String → String → Bool
  pub format_mint : String → Option String
  pub shielded_private_key : String
  pub spending_public_key : List ℤ

pub data InputsError : Type 0 where
  mint_failed : InputsError
  construction_failed : InputsError
  still_running : InputsError
  over_limit : InputsError
  panics : InputsError

-- The empty UTXO that fills up the inputs.
abbrev pub zero_params : Tokens → String → String → Utxo
zero_params c erc20 mint = record {
  amount = pos 0;
  erc20_token_address = erc20;
  mint_address = mint;
  time_stamp = "";
  nullifying_key = c.shielded_private_key;
  spending_public_key = c.spending_public_key;
  randomization = none;
  h0 = none;
  stealth_address = "";
  encryption_key = "";
  commitment = "";
  nullifier = "";
  is_blocked = false;
  is_new_style = true;
}

unfoldable pub encode_token_with_id : Tokens → String → String
encode_token_with_id c token =
    let key = append_text token "-0" in if c.is_solana then key else c.to_lower key

unfoldable pub any_token_address_matches : Tokens → List String → String → Bool
any_token_address_matches c [] address = false
any_token_address_matches c (t ∷ ts) address =
    let rest = any_token_address_matches c ts address in
    if c.equal_fold t address then true else rest

-- `none` is a nil list, which is no filter.
abbrev pub is_wanted : Tokens → Option (List String) → String → Bool
is_wanted c none address = true
is_wanted c (some ts) address = any_token_address_matches c ts address

abbrev pub Rows : Type 0
Rows = Map String (List Utxo)

abbrev pub or_no_utxos : Option (List Utxo) → List Utxo
or_no_utxos none = []
or_no_utxos (some us) = us

-- addKey
unfoldable pub add_key : String → Rows → Rows
add_key key m = if contains key m then m else insert key [] m

unfoldable pub add_item : Tokens → Option (List String) → Utxo → Rows → Rows
unfolding any_token_address_matches encode_token_with_id
add_item c filter item m = elim (get_token_address c.is_solana item) [
  | none ↦ m
  | some address ↦
      let key = encode_token_with_id c address in
      if is_wanted c filter address
      then insert key (or_no_utxos (lookup key m) ++ item ∷ []) m
      else m
]

unfoldable pub group_items : Tokens → Option (List String) → List Utxo → Rows → Rows
unfolding add_item
group_items c filter [] m = m
group_items c filter (item ∷ items) m = group_items c filter items (add_item c filter item m)

unfoldable pub ensure_tokens : Tokens → List String → Rows → Rows
unfolding add_key encode_token_with_id
ensure_tokens c [] m = m
ensure_tokens c (t ∷ ts) m = ensure_tokens c ts (add_key (encode_token_with_id c t) m)

-- The parameters of the empty UTXO for a key.
unfoldable pub key_params : Tokens → String → Option Utxo
key_params c key =
    let address = c.first_part key in
    if c.is_solana
    then elim (c.format_mint address) [
      | none ↦ none
      | some compressed ↦ some (zero_params c (c.to_lower compressed) address)
    ]
    else some (zero_params c (c.to_lower address) "")

abbrev pub padded_result : Option (Option (List Utxo)) → Result InputsError (List Utxo)
padded_result none = err still_running
padded_result (some none) = err construction_failed
padded_result (some (some us)) = ok us

-- The loop over the keys, in their order. Seven rounds are enough for the padding of a key.
unfoldable pub pad_each : Primitives → Tokens → ℕ → Bool → Rows → Result InputsError Rows
unfolding key_params sort_and_pad_utxos
pad_each p c min_input slice [] = ok []
pad_each p c min_input slice ((key, us) ∷ rest) =
    let others = pad_each p c min_input slice rest in
    require (key_params c key) mint_failed >>= λ params.
    padded_result (sort_and_pad_utxos p params 7 min_input slice us) >>= λ out.
    others >>= λ m. ok ((key, out) ∷ m)

unfoldable pub get_input_utxo_and_balance_per_token :
    Primitives
    → Tokens
    → ℕ
    → Bool
    → Option (List String)
    → List String
    → List Utxo
    → Result InputsError Rows
unfolding group_items ensure_tokens pad_each
get_input_utxo_and_balance_per_token p c min_input slice filter ensured us =
    pad_each p c min_input slice (ensure_tokens c ensured (group_items c filter us []))

-- The rows to be padded: those of the tokens, or empty ones.
unfoldable pub collect_rows : Tokens → Bool → Rows → List String → List (List Utxo)
unfolding encode_token_with_id
collect_rows c force m [] = []
collect_rows c force m (t ∷ ts) =
    (if force then [] else or_no_utxos (lookup (encode_token_with_id c t) m))
    ∷ collect_rows c force m ts

unfoldable pub max_utxo_num : List (List Utxo) → ℕ
max_utxo_num [] = 0
max_utxo_num (row ∷ rows) = max (length row) (max_utxo_num rows)

-- The parameters of the empty UTXO for a token.
unfoldable pub token_params : Tokens → String → Option Utxo
token_params c token =
    if c.is_solana
    then elim (c.format_mint token) [
      | none ↦ none
      | some compressed ↦ some (zero_params c compressed token)
    ]
    else some (zero_params c token "")

-- The loop that appends `diff` empty UTXOs.
unfoldable pub append_padding :
    Primitives → Tokens → String → ℕ → List Utxo → Result InputsError (List Utxo)
unfolding token_params
append_padding p c token zero us = ok us
append_padding p c token (suc diff) us = require (token_params c token) mint_failed >>= λ params.
    require (new_utxo p params) construction_failed >>= λ z.
    append_padding p c token diff (us ++ z ∷ [])

-- The amount of the inputs that are kept has to do for the change.
abbrev pub is_short : ℤ → ℤ → Bool
is_short change total = is_neg change && ltb_ℤ total (neg change)

abbrev pub first_change : List ℤ → Result InputsError ℤ
first_change [] = err panics
first_change (change ∷ changes) = ok change

abbrev pub later_changes : List ℤ → List ℤ
later_changes [] = []
later_changes (change ∷ changes) = changes

unfoldable pub pad_row :
    Primitives → Tokens → ℕ → String → List ℤ → List Utxo → Result InputsError (List Utxo)
unfolding append_padding
pad_row p c max_input token changes row =
    if ltb max_input (length row)
    then (first_change changes >>= λ change.
        fail_if (is_short change (count_total_amount_in_utxos (take max_input row))) over_limit
        >> ok (take max_input row))
    else append_padding p c token (max_input - length row) row

unfoldable pub pad_rows :
    Primitives
    → Tokens
    → ℕ
    → List String
    → List ℤ
    → List (List Utxo)
    → Result InputsError (List (List Utxo))
unfolding pad_row
pad_rows p c max_input [] changes rows = ok []
pad_rows p c max_input (token ∷ tokens) changes [] = ok []
pad_rows p c max_input (token ∷ tokens) changes (row ∷ rows) =
    let others = pad_rows p c max_input tokens (later_changes changes) rows in
    pad_row p c max_input token changes row >>= λ out. others >>= λ outs. ok (out ∷ outs)

abbrev pub or_six : ℕ → ℕ
or_six max_input = if nat_beq max_input 0 then 6 else max_input

-- AddPaddingToUtxos, once the keys and the address are there.
unfoldable pub add_padding_to_utxos :
    Primitives
    → Tokens
    → ℕ
    → Bool
    → List String
    → List ℤ
    → List Utxo
    → Result InputsError (List (List Utxo))
unfolding get_input_utxo_and_balance_per_token collect_rows max_utxo_num pad_rows
add_padding_to_utxos p c max_input force [] changes us = ok []
add_padding_to_utxos p c max_input force (token ∷ tokens) changes us =
    get_input_utxo_and_balance_per_token p c 2 false none (token ∷ tokens) us >>= λ m.
    let rows = collect_rows c force m (token ∷ tokens) in
    if nat_beq (max_utxo_num rows) 2
    then ok rows
    else pad_rows p c (or_six max_input) (token ∷ tokens) changes rows

-- GetInputUtxoAndBalanceOfStuckUtxos: of the blocked UTXOs those at the indexes that the server
-- answers, as far as they are in range.
unfoldable pub stuck_at : List Utxo → ℕ → List Utxo
stuck_at [] index = []
stuck_at (u ∷ us) zero = u ∷ []
stuck_at (u ∷ us) (suc index) = stuck_at us index

unfoldable pub select_stuck : List Utxo → List ℤ → List Utxo
unfolding stuck_at
select_stuck us [] = []
select_stuck us (index ∷ indexes) =
    let rest = select_stuck us indexes in
    if not (is_neg index) && ltb (abs index) (length us)
    then stuck_at us (abs index) ++ rest
    else rest
