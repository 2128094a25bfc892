-- ===== src/Utxo/Caching.antt =====
-- The kept values of a UTXO: a getter gives the same answer again, and a changed copy starts without
-- the commitment and nullifier of its source.
use mathlib.Core.Option
use go_sdk_test.Common.{
  ◌≡◌, refl, ◌∙◌, false, Option, none, some, String, ◌==◌, string_eq, arith, Bool-cases,
  Option-cases, inl, inr,
}
use text.Mathlib.TextEquality.{eq_iff}
use go_sdk_test.Utxo.{
  Primitives, Utxo, UtxoPatch, new_utxo, create_from, drawn_randomization, derived_h0,
  get_commitment, get_nullifier, get_stealth_address, keep_commitment, keep_nullifier,
  get_constructable_params, apply_patch, patch_text, patch_value,
}

-- The value of a getter stands in the field that it is kept in.
abbrev pub Keeps : (Utxo → String) → Option String × Utxo → Type 0
Keeps field (none, u) = Unit {0}
Keeps field (some v, u) = field u ≡ v

-- What NewUtxo copies.
abbrev pub IsMadeFrom : Utxo → Option Utxo → Type 0
IsMadeFrom params none = Unit {0}
IsMadeFrom params (some u) =
    (u.commitment ≡ params.commitment)
    × (u.nullifier ≡ params.nullifier)
    × (u.amount ≡ params.amount)
    × (u.is_blocked ≡ params.is_blocked)
    × (u.is_new_style ≡ params.is_new_style)

patch_text_empty : (t : String) → patch_text t "" ≡ t
patch_text_empty t = ground (arith, eq_iff t "")

module _ (p : Primitives) where
  keep_nullifier-Keeps :
      (u : Utxo) (o : Option String) → Keeps Utxo.nullifier (keep_nullifier p u o)
  unfolding keep_nullifier
  keep_nullifier-Keeps u none = tt
  keep_nullifier-Keeps u (some n) = refl

  pub get_nullifier-Keeps : (u : Utxo) → Keeps Utxo.nullifier (get_nullifier p u)
  unfolding get_nullifier
  get_nullifier-Keeps u = elim (Bool-cases (u.nullifier == "")) [
    | inr held ↦ rw (held) refl
    | inl empty ↦ elim (Bool-cases (u.nullifying_key == "")) [
      | inl keyless ↦ rw (empty, keyless) tt
      | inr key ↦ elim (Option-cases (get_commitment p u).0) [
        | inl missing ↦ rw (empty, key, missing) tt
        | inr (c, found) ↦ rw (empty, key, found) (keep_nullifier-Keeps _ _)
      ]
    ]
  ]

  keep_commitment-Keeps :
      (u : Utxo) (o : Option String) → Keeps Utxo.commitment (keep_commitment p u o)
  unfolding keep_commitment
  keep_commitment-Keeps u none = tt
  keep_commitment-Keeps u (some n) = refl

  get_commitment-Keeps : (u : Utxo) → Keeps Utxo.commitment (get_commitment p u)
  unfolding get_commitment
  get_commitment-Keeps u = elim (Bool-cases (u.commitment == "")) [
    | inr held ↦ rw (held) refl
    | inl empty ↦ elim (Option-cases (get_stealth_address p u).0) [
      | inl missing ↦ rw (empty, missing) tt
      | inr (c, found) ↦ rw (empty, found) (keep_commitment-Keeps _ _)
    ]
  ]

  -- A nullifier that GetNullifier returned is returned again, with no further change of the UTXO. The
  -- condition on the hash is that its text is not empty.
  pub get_nullifier_again :
      (u u' : Utxo) (n : String)
      → (n == "") ≡ false
      → get_nullifier p u ≡ (some n, u')
      → get_nullifier p u' ≡ (some n, u')
  unfolding get_nullifier
  get_nullifier_again u u' n full once =
      let kept : u'.nullifier ≡ n = rw (once) at (get_nullifier-Keeps u) in rw (kept, full) refl

  -- A commitment that GetCommitment returned is returned again, with no further change of the UTXO.
  -- The condition on the hash is that its text is not empty.
  pub get_commitment_again :
      (u u' : Utxo) (c : String)
      → (c == "") ≡ false
      → get_commitment p u ≡ (some c, u')
      → get_commitment p u' ≡ (some c, u')
  unfolding get_commitment
  get_commitment_again u u' c full once =
      let kept : u'.commitment ≡ c = rw (once) at (get_commitment-Keeps u) in rw (kept, full) refl

  pub new_utxo-IsMadeFrom : (params : Utxo) → IsMadeFrom params (new_utxo p params)
  unfolding new_utxo Option.bind
  new_utxo-IsMadeFrom params = elim (Option-cases (drawn_randomization p params)) [
    | inl missing ↦ rw (missing) tt
    | inr (r, drawn) ↦ elim (Option-cases (derived_h0 p params r)) [
      | inl missing ↦ rw (drawn, missing) tt
      | inr (h, derived) ↦ rw (drawn, derived) (refl, refl, refl, refl, refl)
    ]
  ]

  -- A copy by CreateFrom has the commitment and the nullifier of the patch alone, so none that the
  -- source has kept; its amount is the patch's or else the source's, and the two flags are those of
  -- the source, whatever the flags of the patch are.
  pub create_from-IsMadeFrom :
      (src : Utxo) (patch : UtxoPatch) (u : Utxo)
      → create_from p src patch ≡ some u
      → (u.commitment ≡ patch.commitment)
        × (u.nullifier ≡ patch.nullifier)
        × (u.amount ≡ patch_value patch.amount src.amount)
        × (u.is_blocked ≡ src.is_blocked)
        × (u.is_new_style ≡ src.is_new_style)
  unfolding create_from get_constructable_params apply_patch
  create_from-IsMadeFrom src patch u made =
      let params : Utxo = apply_patch (record src { commitment = ""; nullifier = "" }) patch in
      let copied : new_utxo p params ≡ some u = made in
      let (c, n, a, b, s) : IsMadeFrom params (some u) =
        rw (copied) at (new_utxo-IsMadeFrom params) in
      (c ∙ patch_text_empty patch.commitment, n ∙ patch_text_empty patch.nullifier, a, b, s)
