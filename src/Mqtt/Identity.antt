-- ===== src/Mqtt/Identity.antt =====
-- The form of a generated client identifier.
use entropy_tdc_gateway.Common.{
  ℕ, zero, suc, ◌/◌, ◌≡◌, refl, Bool, true, ◌||◌, some, List, [], ◌∷◌, arith, length, take, ◌==◌,
  ==_iff,
}
use entropy_tdc_gateway.Common.Bytes.{AreBytes, holds_below, holds_below-test}
use entropy_tdc_gateway.Mqtt.Client.{
  Text, generate_client_id, hex_encode, hex_digit, version_byte, variant_byte, id_prefix,
}

version_table : holds_below (λ b. hex_digit (version_byte b / 16) == 52) 256 ≡ true
unfolding holds_below version_byte
version_table = refl

-- "8", "9", "a" or "b"
abbrev pub is_variant : ℕ → Bool
is_variant c = (c == 56) || ((c == 57) || ((c == 97) || (c == 98)))

variant_table : holds_below (λ b. is_variant (hex_digit (variant_byte b / 16))) 256 ≡ true
unfolding holds_below variant_byte
variant_table = refl

-- The character at a position, and 0 beyond the end.
abbrev pub char_at : ℕ → Text → ℕ
char_at i [] = 0
char_at zero (c ∷ cs) = c
char_at (suc i) (c ∷ cs) = char_at i cs

-- "entropy-rx-", then thirty-six characters with dashes as a UUID has them, with a 4 as the version
-- and 8, 9, a or b as the variant.
abbrev pub IsClientId : Text → Type 0
IsClientId id =
    (take 11 id ≡ id_prefix)
    × ((length id ≡ 47)
        × ((char_at 25 id ≡ 52)
            × ((is_variant (char_at 30 id) ≡ true)
                × ((char_at 19 id ≡ 45)
                    × ((char_at 24 id ≡ 45) × ((char_at 29 id ≡ 45) × (char_at 34 id ≡ 45)))))))

-- Sixteen random bytes give such an identifier.
pub generate_client_id-IsClientId :
    (uuid : List ℕ)
    → length uuid ≡ 16
    → AreBytes uuid
    → (id : Text) × ((generate_client_id (some uuid) ≡ some id) × IsClientId id)
unfolding generate_client_id hex_encode
generate_client_id-IsClientId [] h bytes = absurd (omega (arith, h))
generate_client_id-IsClientId (b0 ∷ []) h bytes = absurd (omega (arith, h))
generate_client_id-IsClientId (b0 ∷ b1 ∷ []) h bytes = absurd (omega (arith, h))
generate_client_id-IsClientId (b0 ∷ b1 ∷ b2 ∷ []) h bytes = absurd (omega (arith, h))
generate_client_id-IsClientId (b0 ∷ b1 ∷ b2 ∷ b3 ∷ []) h bytes = absurd (omega (arith, h))
generate_client_id-IsClientId (b0 ∷ b1 ∷ b2 ∷ b3 ∷ b4 ∷ []) h bytes = absurd (omega (arith, h))
generate_client_id-IsClientId (b0 ∷ b1 ∷ b2 ∷ b3 ∷ b4 ∷ b5 ∷ []) h bytes = absurd (omega (arith, h))
generate_client_id-IsClientId (b0 ∷ b1 ∷ b2 ∷ b3 ∷ b4 ∷ b5 ∷ b6 ∷ []) h bytes =
    absurd (omega (arith, h))
generate_client_id-IsClientId (b0 ∷ b1 ∷ b2 ∷ b3 ∷ b4 ∷ b5 ∷ b6 ∷ b7 ∷ []) h bytes =
    absurd (omega (arith, h))
generate_client_id-IsClientId (b0 ∷ b1 ∷ b2 ∷ b3 ∷ b4 ∷ b5 ∷ b6 ∷ b7 ∷ b8 ∷ []) h bytes =
    absurd (omega (arith, h))
generate_client_id-IsClientId (b0 ∷ b1 ∷ b2 ∷ b3 ∷ b4 ∷ b5 ∷ b6 ∷ b7 ∷ b8 ∷ b9 ∷ []) h bytes =
    absurd (omega (arith, h))
generate_client_id-IsClientId (b0 ∷ b1 ∷ b2 ∷ b3 ∷ b4 ∷ b5 ∷ b6 ∷ b7 ∷ b8 ∷ b9 ∷ b10 ∷ []) h bytes =
    absurd (omega (arith, h))
generate_client_id-IsClientId (b0 ∷ b1 ∷ b2 ∷ b3 ∷ b4 ∷ b5 ∷ b6 ∷ b7 ∷ b8 ∷ b9 ∷ b10 ∷ b11 ∷ []) h
      bytes =
    absurd (omega (arith, h))
generate_client_id-IsClientId
      (b0 ∷ b1 ∷ b2 ∷ b3 ∷ b4 ∷ b5 ∷ b6 ∷ b7 ∷ b8 ∷ b9 ∷ b10 ∷ b11 ∷ b12 ∷ []) h bytes =
    absurd (omega (arith, h))
generate_client_id-IsClientId
      (b0 ∷ b1 ∷ b2 ∷ b3 ∷ b4 ∷ b5 ∷ b6 ∷ b7 ∷ b8 ∷ b9 ∷ b10 ∷ b11 ∷ b12 ∷ b13 ∷ []) h bytes =
    absurd (omega (arith, h))
generate_client_id-IsClientId
      (b0 ∷ b1 ∷ b2 ∷ b3 ∷ b4 ∷ b5 ∷ b6 ∷ b7 ∷ b8 ∷ b9 ∷ b10 ∷ b11 ∷ b12 ∷ b13 ∷ b14 ∷ []) h bytes =
    absurd (omega (arith, h))
generate_client_id-IsClientId
      (b0 ∷ b1 ∷ b2 ∷ b3 ∷ b4 ∷ b5 ∷ b6 ∷ b7 ∷ b8 ∷ b9 ∷ b10 ∷ b11 ∷ b12 ∷ b13 ∷ b14 ∷ b15 ∷ x ∷ xs)
      h bytes =
    absurd (omega (arith, h))
generate_client_id-IsClientId
      (b0 ∷ b1 ∷ b2 ∷ b3 ∷ b4 ∷ b5 ∷ b6 ∷ b7 ∷ b8 ∷ b9 ∷ b10 ∷ b11 ∷ b12 ∷ b13 ∷ b14 ∷ b15 ∷ []) h
      bytes =
    (
      _,
      (
        refl,
        (
          refl,
          (
            refl,
            (
              (==_iff _ 52).0 (
                  holds_below-test (λ b. hex_digit (version_byte b / 16) == 52) 256 version_table b6
                    bytes.1.1.1.1.1.1.0),
              (
                holds_below-test (λ b. is_variant (hex_digit (variant_byte b / 16))) 256
                    variant_table b8 bytes.1.1.1.1.1.1.1.1.0,
                (refl, (refl, (refl, refl))),
              ),
            ),
          ),
        ),
      ),
    )
