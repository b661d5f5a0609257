-- ===== src/Mqtt/Topics.antt =====
-- Topics that end in a channel number, for isMetaTopic in internal/mqtt/handler.go.
use entropy_tdc_gateway.Common.{
  ℕ, suc, ◌≡◌, refl, sym, subst, inl, inr, Bool, true, false, List, [], ◌∷◌, ◌++◌, arith,
  Bool-cases, is_empty,
}
use entropy_tdc_gateway.Common.Text.{
  is_space, is_digit, all_digits, trim_left, trim_right, trim_space, to_lower, same_text,
  same_text→path, has_suffix,
}
use entropy_tdc_gateway.Common.Numerals.{
  print_decimal, all_digits-print, is_empty-print, digit-space,
}
use entropy_tdc_gateway.Mqtt.{slash, meta_suffix, is_meta_topic}

abbrev ends_digit : List ℕ → Bool
ends_digit [] = false
ends_digit (c ∷ []) = is_digit c
ends_digit (c ∷ d ∷ ds) = ends_digit (d ∷ ds)

ends_digit-all_digits :
    (c : ℕ) (cs : List ℕ) → all_digits (c ∷ cs) ≡ true → ends_digit (c ∷ cs) ≡ true
ends_digit-all_digits c [] h = ground (arith, h)
ends_digit-all_digits c (d ∷ ds) h = ends_digit-all_digits d ds ground (arith, h)

ends_digit-append :
    (xs : List ℕ) (c : ℕ) (cs : List ℕ)
    → ends_digit (c ∷ cs) ≡ true
    → ends_digit (xs ++ c ∷ cs) ≡ true
ends_digit-append [] c cs h = h
ends_digit-append (x ∷ []) c cs h = h
ends_digit-append (x ∷ y ∷ ys) c cs h = ends_digit-append (y ∷ ys) c cs h

ends_digit-trim_left : (cs : List ℕ) → ends_digit cs ≡ true → ends_digit (trim_left cs) ≡ true
unfolding trim_left
ends_digit-trim_left [] h = h
ends_digit-trim_left (c ∷ []) h = rw (digit-space c h) h
ends_digit-trim_left (c ∷ d ∷ ds) h = elim (Bool-cases (is_space c)) [
  | inl e ↦ rw e (ends_digit-trim_left (d ∷ ds) h)
  | inr e ↦ rw e h
]

trim_right-ends_digit : (cs : List ℕ) → ends_digit cs ≡ true → trim_right cs ≡ cs
unfolding trim_right
trim_right-ends_digit [] h = refl
trim_right-ends_digit (c ∷ []) h = rw (digit-space c h) refl
trim_right-ends_digit (c ∷ d ∷ ds) h = rw (trim_right, trim_right-ends_digit (d ∷ ds) h) refl

ends_digit-to_lower : (cs : List ℕ) → ends_digit cs ≡ true → ends_digit (to_lower cs) ≡ true
unfolding to_lower
ends_digit-to_lower [] h = h
ends_digit-to_lower (c ∷ []) h = ground (arith, h)
ends_digit-to_lower (c ∷ d ∷ ds) h = ends_digit-to_lower (d ∷ ds) h

not_meta_suffix : (cs : List ℕ) → ends_digit cs ≡ true → same_text cs meta_suffix ≡ false
not_meta_suffix cs h = elim (Bool-cases (same_text cs meta_suffix)) [
  | inl e ↦ absurd (cc (subst (λ x. ends_digit x ≡ true) (same_text→path cs meta_suffix e) h))
  | inr e ↦ e
]

has_suffix-ends_digit : (cs : List ℕ) → ends_digit cs ≡ true → has_suffix cs meta_suffix ≡ false
unfolding has_suffix same_text
has_suffix-ends_digit [] h = absurd (cc h)
has_suffix-ends_digit (c ∷ []) h = rw (not_meta_suffix (c ∷ []) h) refl
has_suffix-ends_digit (c ∷ d ∷ ds) h =
    rw (has_suffix, not_meta_suffix (c ∷ d ∷ ds) h) (has_suffix-ends_digit (d ∷ ds) h)

ends_digit-slash :
    (cs : List ℕ) → is_empty cs ≡ false → all_digits cs ≡ true → ends_digit (slash ∷ cs) ≡ true
ends_digit-slash [] e h = absurd (cc e)
ends_digit-slash (c ∷ cs) e h = ends_digit-all_digits c cs h

ends_digit-print : (cs : List ℕ) (n : ℕ) → ends_digit (cs ++ slash ∷ print_decimal n) ≡ true
ends_digit-print cs n =
    ends_digit-append cs slash (print_decimal n)
      (ends_digit-slash (print_decimal n) (is_empty-print n n) (all_digits-print (suc n) n))

-- A topic whose last segment is a decimal numeral is not one of metadata.
pub is_meta_topic-print_decimal :
    (prefix : List ℕ) (ch : ℕ) → is_meta_topic (prefix ++ slash ∷ print_decimal ch) ≡ false
unfolding is_meta_topic
is_meta_topic-print_decimal prefix ch =
    let left =
      ends_digit-trim_left (prefix ++ slash ∷ print_decimal ch) (ends_digit-print prefix ch) in
    has_suffix-ends_digit (to_lower (trim_space (prefix ++ slash ∷ print_decimal ch))) (
      ends_digit-to_lower _
        (subst (λ x. ends_digit x ≡ true) (sym (trim_right-ends_digit _ left)) left))
