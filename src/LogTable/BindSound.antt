-- ===== src/LogTable/BindSound.antt =====
-- What holds of a call that was bound.
use duck_hunt.Prelude.{
  ℕ, zero, suc, ◌≤◌, ◌<◌, ◌≡◌, refl, subst, leb, Bool, Bool-cases, inl, inr, true, false, not, ◌||◌,
  ◌&&◌, Option, none, some, [], ◌∷◌, Text, codes, text_eq, lower, length, drop, is_empty, arith,
  if◌then◌else◌,
}
use duck_hunt.Prelude.Int.{ℤ, pos, negsuc}
use duck_hunt.Parser.{Outcome, ok, io_exception, exception, ◌>>=◌}
use duck_hunt.Registry.{Registry}
use duck_hunt.Formats.{is_valid_format}
use duck_hunt.Context.{is_positive, magnitude}
use duck_hunt.TestFormat.{TestResultFormat, unknown}
use duck_hunt.TestFormat.Table.{string_to_test_result_format}
use duck_hunt.TestFormat.Canonical.{get_canonical_format_name}
use duck_hunt.Dispatch.{is_auto, is_regexp}
use duck_hunt.LogTable.Bind.{
  BindData, bind_data, Arguments, ContentParameter, number, word, is_unknown, bind_format,
  bind_format_option, bind_threshold, bind_ignore_errors, bind_include_unparsed, bind_content,
  bind_context, bind, bind_inputs,
}

-- A predicate of what a call returns.
abbrev pub Holds {ℓ κ} : {A : Type ℓ} → (A → Type κ) → Outcome A → Type κ
Holds P (ok a) = P a
Holds P (io_exception e) = Unit
Holds P (exception e) = Unit

pub Holds-bind {ℓ κ ι μ} :
    {A : Type ℓ} {B : Type κ} (P : A → Type ι) (Q : B → Type μ) (m : Outcome A) (f : A → Outcome B)
    → Holds P m
    → ((a : A) → P a → Holds Q (f a))
    → Holds Q (m >>= f)
Holds-bind P Q (ok a) f h k = k a h
Holds-bind P Q (io_exception e) f h k = tt
Holds-bind P Q (exception e) f h k = tt

-- At most 50 lines of context, a positive limit, a pattern where one is needed, and a format that is
-- known or valid by its name.
pub record Bound (r : Registry) (b : BindData) : Type 0 where
  pub few_lines : b.context_lines ≤ 50
  pub positive : 0 < b.content_limit
  pub has_pattern : (not (is_regexp b.format) || not (is_empty b.regexp_pattern)) ≡ true
  pub is_known : (not (is_unknown b.format) || is_valid_format 2 r b.format_name) ≡ true

longer : (s : Text) (n : ℕ) → leb (length s) n ≡ false → is_empty (drop n s) ≡ false
longer [] zero h = absurd (ground (arith, h))
longer [] (suc n) h = absurd (ground (arith, h))
longer (c ∷ s) zero h = refl
longer (c ∷ s) (suc n) h = longer s n (ground (arith, h))

known_name :
    (f : TestResultFormat) (valid : Bool)
    → (is_unknown f && not valid) ≡ false
    → (not (is_unknown f) || valid) ≡ true
known_name f valid h = ground (arith, h)

regexp_known : (f : TestResultFormat) → is_regexp f ≡ true → is_unknown f ≡ false
regexp_known unknown h = absurd (ground (arith, h))
regexp_known _ h = refl

or_right : (a b : Bool) → b ≡ true → (a || b) ≡ true
or_right true b h = refl
or_right false b h = h

-- The name that is kept where the format is not a pattern.
plain_known :
    (r : Registry) (f : TestResultFormat) (c s : Text)
    → (is_unknown f && not (is_valid_format 2 r s)) ≡ false
    → (not (is_unknown f)
        || is_valid_format 2 r
            (if not (is_unknown f) && not (is_auto f) && not false then c else s))
      ≡ true
plain_known r unknown c s h = known_name unknown (is_valid_format 2 r s) h
plain_known r _ c s h = refl

bind_format-Bound :
    (r : Registry) (s : Text) (b : BindData)
    → b.context_lines ≤ 50
    → 0 < b.content_limit
    → Holds (Bound r) (bind_format r s b)
unfolding bind_format
bind_format-Bound r s b h k =
    let f = string_to_test_result_format s in
    elim (Bool-cases (is_unknown f && not (is_valid_format 2 r s))) [
      | inl u ↦ rw u tt
      | inr u ↦ elim (Bool-cases (is_regexp f)) [
        | inr x ↦
            rw (u, x)
              (record {
                few_lines = h;
                positive = k;
                has_pattern = rw x refl;
                is_known = plain_known r f (get_canonical_format_name f) s u;
              })
        | inl x ↦ elim (Bool-cases (leb (length s) 7)) [
          | inl l ↦ rw (u, x, l) tt
          | inr l ↦
              rw (u, x, l)
                (record {
                  few_lines = h;
                  positive = k;
                  has_pattern =
                      or_right (not (is_regexp f)) (not (is_empty (drop 7 s)))
                        (rw (longer s 7 l) refl);
                  is_known = rw (regexp_known f x) refl;
                })
        ]
      ]
    ]

bind_format_option-Bound :
    (r : Registry) (o : Option Text) (b : BindData)
    → b.context_lines ≤ 50
    → 0 < b.content_limit
    → Holds (Bound r) (bind_format_option r o b)
bind_format_option-Bound r none b h k = record {
  few_lines = h;
  positive = k;
  has_pattern = refl;
  is_known = refl;
}
bind_format_option-Bound r (some s) b h k = bind_format-Bound r s b h k

-- The steps that leave the format alone.
abbrev SameFormat : BindData → BindData → Type 0
SameFormat b c =
    (c.format ≡ b.format)
    × ((c.format_name ≡ b.format_name) × (c.regexp_pattern ≡ b.regexp_pattern))

Bound-kept :
    (r : Registry) (b c : BindData)
    → Bound r b
    → SameFormat b c
    → c.context_lines ≤ 50
    → 0 < c.content_limit
    → Bound r c
Bound-kept r b c v s h k = record {
  few_lines = h;
  positive = k;
  has_pattern = rw (s.0, s.1.1) v.has_pattern;
  is_known = rw (s.0, s.1.0) v.is_known;
}

bind_threshold-Bound :
    (r : Registry) (o : Option Text) (b : BindData) → Bound r b → Bound r (bind_threshold o b)
bind_threshold-Bound r none b v = v
bind_threshold-Bound r (some s) b v = Bound-kept r b _ v (refl, (refl, refl)) v.few_lines v.positive

bind_ignore_errors-Bound :
    (r : Registry) (o : Option Bool) (b : BindData) → Bound r b → Bound r (bind_ignore_errors o b)
bind_ignore_errors-Bound r none b v = v
bind_ignore_errors-Bound r (some i) b v =
    Bound-kept r b _ v (refl, (refl, refl)) v.few_lines v.positive

bind_include_unparsed-Bound :
    (r : Registry) (o : Option Bool) (b : BindData)
    → Bound r b
    → Bound r (bind_include_unparsed o b)
bind_include_unparsed-Bound r none b v = v
bind_include_unparsed-Bound r (some i) b v =
    Bound-kept r b _ v (refl, (refl, refl)) v.few_lines v.positive

magnitude_positive : (z : ℤ) → is_positive z ≡ true → 0 < magnitude z
magnitude_positive (pos zero) h = absurd (ground (arith, h))
magnitude_positive (pos (suc n)) h = omega arith
magnitude_positive (negsuc n) h = absurd (ground (arith, h))

bind_content-Bound :
    (r : Registry) (o : Option ContentParameter) (b : BindData)
    → Bound r b
    → Holds (Bound r) (bind_content o b)
unfolding bind_content
bind_content-Bound r none b v = v
bind_content-Bound r (some (number z)) b v = elim (Bool-cases (is_positive z)) [
  | inl p ↦ rw p (Bound-kept r b _ v (refl, (refl, refl)) v.few_lines (magnitude_positive z p))
  | inr p ↦ rw p (Bound-kept r b _ v (refl, (refl, refl)) v.few_lines v.positive)
]
bind_content-Bound r (some (word s)) b v = elim (Bool-cases (text_eq (lower s) (codes "full"))) [
  | inl p ↦ rw p (Bound-kept r b _ v (refl, (refl, refl)) v.few_lines v.positive)
  | inr p ↦ elim (Bool-cases (text_eq (lower s) (codes "none"))) [
    | inl q ↦ rw (p, q) (Bound-kept r b _ v (refl, (refl, refl)) v.few_lines v.positive)
    | inr q ↦ elim (Bool-cases (text_eq (lower s) (codes "smart"))) [
      | inl t ↦ rw (p, q, t) (Bound-kept r b _ v (refl, (refl, refl)) v.few_lines v.positive)
      | inr t ↦ rw (p, q, t) tt
    ]
  ]
]

bind_context-Bound :
    (r : Registry) (o : Option ℤ) (b : BindData) → Bound r b → Holds (Bound r) (bind_context o b)
unfolding bind_context
bind_context-Bound r none b v = v
bind_context-Bound r (some (pos n)) b v =
    Bound-kept r b _ v (refl, (refl, refl)) (omega arith) v.positive
bind_context-Bound r (some (negsuc n)) b v = tt

bind-Holds : (r : Registry) (args : Arguments) → Holds (Bound r) (bind r args)
unfolding bind
bind-Holds r args =
    Holds-bind (Bound r) (Bound r) _ _
      (bind_format_option-Bound r (bind_inputs r args.inputs).1
        (record bind_data { source = (bind_inputs r args.inputs).0 }) (omega arith) (omega arith))
      (λ b v.
        Holds-bind (Bound r) (Bound r) _ _
          (bind_content-Bound r args.content
            (bind_ignore_errors args.ignore_errors (bind_threshold args.severity_threshold b))
            (bind_ignore_errors-Bound r args.ignore_errors _
              (bind_threshold-Bound r args.severity_threshold b v)))
          (λ c v'.
            Holds-bind (Bound r) (Bound r) _ _ (bind_context-Bound r args.context c v')
              (λ d v''. bind_include_unparsed-Bound r args.include_unparsed d v'')))

-- A call that is bound has at most 50 lines of context and a positive limit for the content. It has a
-- pattern where its format is a pattern of the user, and its format is one of the table's, or a valid
-- format by its name.
pub bind-Bound : (r : Registry) (args : Arguments) (b : BindData) → bind r args ≡ ok b → Bound r b
bind-Bound r args b h = subst (Holds (Bound r)) h (bind-Holds r args)
