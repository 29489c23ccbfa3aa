-- ===== src/Tachibackup/Walk.antt =====
-- About the fuel of the walk over the fields (forEachField of internal/tachibackup/decode.go).
use makidoku.Common.{
  ℕ, zero, suc, ◌<◌, ◌≡◌, ◌≢◌, refl, inl, inr, Bool, true, false, Option, none, some, List, [], ◌∷◌,
  arith, length, drop, length-drop, if◌then◌else◌, Option-cases,
}
use makidoku.Common.Result.{Result, ok, err, ◌>>=◌}
use makidoku.Tachibackup.Wire.{
  Wire, Field, DecodeError, out_of_fuel, parsed, next_field, for_each_field, varint_of, int32_of,
  int64_of, boolean_of, float32_of, bytes_of, string_of,
}

-- The model's own error does not come out.
pub record Ends {ℓ} {A : Type ℓ} (r : Result DecodeError A) : Type ℓ where
  pub ends : (e : DecodeError) → r ≡ err e → e ≢ out_of_fuel

pub Ends-ok {ℓ} : {A : Type ℓ} (a : A) → Ends (ok a)
Ends-ok a = record { ends = λ e h. cc }

pub Ends-err {ℓ} : {A : Type ℓ} (e : DecodeError) → e ≢ out_of_fuel → Ends {A = A} (err e)
Ends-err e ne = record { ends = λ x p q. ne (cc (p, q)) }

pub Ends-bind {ℓ κ} :
    {A : Type ℓ} {B : Type κ} (m : Result DecodeError A) (f : A → Result DecodeError B)
    → Ends m
    → ((a : A) → Ends (f a))
    → Ends (m >>= f)
Ends-bind (ok a) f h k = k a
Ends-bind (err e) f h k = record { ends = λ e' p. h.ends e' (cc p) }

pub Ends-if {ℓ} :
    {A : Type ℓ} (b : Bool) (m n : Result DecodeError A)
    → Ends m
    → Ends n
    → Ends (if b then m else n)
Ends-if true m n h k = h
Ends-if false m n h k = k

pub Ends-parsed {ℓ} : {A : Type ℓ} (o : Option A) → Ends (parsed o)
Ends-parsed none = record { ends = λ e p q. cc }
Ends-parsed (some a) = Ends-ok a

module _ (w : Wire) where
  Ends-next_field : (input : List ℕ) → Ends (next_field w input)
  unfolding next_field
  Ends-next_field input =
      Ends-bind (parsed (w.consume_tag input)) _ (Ends-parsed (w.consume_tag input)) (λ t.
        Ends-bind (parsed (w.consume_field_value t.0 t.1 (drop t.2 input))) _
          (Ends-parsed (w.consume_field_value t.0 t.1 (drop t.2 input))) (λ size. Ends-ok _))

  -- A round takes at least the tag.
  next_field-shrinks :
      (input : List ℕ) {f : Field} {rest : List ℕ}
      → next_field w input ≡ ok (f, rest)
      → length rest < length input
  unfolding next_field
  next_field-shrinks input {f} {rest} e = elim (Option-cases (w.consume_tag input)) [
    | inl no_tag ↦ absurd (ground arith)
    | inr ((num, typ, n), tag) ↦
        elim (Option-cases (w.consume_field_value num typ (drop n input))) [
          | inl no_value ↦ absurd (ground arith)
          | inr (size, value) ↦
              let behind : drop size (drop n input) ≡ rest = ground arith in
              rw (← behind) (
                omega (
                  arith,
                  length-drop size (drop n input),
                  length-drop n input,
                  w.tag_length input num typ n tag,
                ))
        ]
  ]

  module _ {ℓ} {S : Type ℓ} (visit : S → Field → Result DecodeError S)
      (ends : (s : S) (f : Field) → Ends (visit s f)) where
    pub Ends-for_each_field :
        (fuel : ℕ) (input : List ℕ) (s : S)
        → length input < fuel
        → Ends (for_each_field w fuel visit input s)
    unfolding for_each_field
    Ends-for_each_field zero input s h = absurd (omega arith)
    Ends-for_each_field (suc fuel) [] s h = Ends-ok s
    Ends-for_each_field (suc fuel) (x ∷ input) s h =
        go (next_field w (x ∷ input)) refl (Ends-next_field (x ∷ input)) (Ends-for_each_field fuel)
      where
        go :
            (m : Result DecodeError (Field × List ℕ))
            → next_field w (x ∷ input) ≡ m
            → Ends m
            → ((rest : List ℕ) (s' : S)
                → length rest < fuel
                → Ends (for_each_field w fuel visit rest s'))
            → Ends (m >>= λ (f, rest). visit s f >>= λ s'. for_each_field w fuel visit rest s')
        go (err e) k m rec = record { ends = λ e' p. m.ends e' (cc p) }
        go (ok (f, rest)) k m rec =
            Ends-bind (visit s f) _ (ends s f)
              (λ s'. rec rest s' (omega (arith, next_field-shrinks (x ∷ input) k)))

  pub Ends-varint : (f : Field) → Ends (varint_of w f)
  unfolding varint_of
  Ends-varint f = Ends-bind _ _ (Ends-parsed (w.consume_varint f.raw)) (λ v. Ends-ok _)

  pub Ends-int32 : (f : Field) → Ends (int32_of w f)
  unfolding int32_of
  Ends-int32 f = Ends-bind _ _ (Ends-varint f) (λ v. Ends-ok _)

  pub Ends-int64 : (f : Field) → Ends (int64_of w f)
  unfolding int64_of
  Ends-int64 f = Ends-bind _ _ (Ends-varint f) (λ v. Ends-ok _)

  pub Ends-boolean : (f : Field) → Ends (boolean_of w f)
  unfolding boolean_of
  Ends-boolean f = Ends-bind _ _ (Ends-varint f) (λ v. Ends-ok _)

  pub Ends-float32 : (f : Field) → Ends (float32_of w f)
  unfolding float32_of
  Ends-float32 f = Ends-bind _ _ (Ends-parsed (w.consume_fixed32 f.raw)) (λ v. Ends-ok _)

  pub Ends-bytes : (f : Field) → Ends (bytes_of w f)
  unfolding bytes_of
  Ends-bytes f = Ends-bind _ _ (Ends-parsed (w.consume_bytes f.raw)) (λ v. Ends-ok _)

  pub Ends-string : (f : Field) → Ends (string_of w f)
  unfolding string_of
  Ends-string f = Ends-bytes f

pub ruleset ends_rules = (
  Ends-ok, Ends-bind, Ends-if, Ends-int32, Ends-int64, Ends-boolean, Ends-float32, Ends-bytes,
  Ends-string,
)
