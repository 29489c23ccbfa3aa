-- ===== src/Tachibackup/Codec.antt =====
-- What a writer of the format puts in a document, and the walk over it (forEachField of
-- internal/tachibackup/decode.go).
use makidoku.Common.{
  ℕ, zero, suc, ◌<◌, ◌≡◌, refl, false, some, List, [], ◌∷◌, ◌++◌, arith, length, length-append,
  take-append, drop-append, is_empty,
}
use makidoku.Common.Result.{Result, ok, err, ◌>>=◌}
use makidoku.Tachibackup.Wire.{Wire, Field, DecodeError, next_field, for_each_field}

-- One field with its value, by wire type: 0, 5 and 2.
pub data Entry : Type 0 where
  varint : ℕ → ℕ → Entry
  fixed32 : ℕ → ℕ → Entry
  bytes : ℕ → List ℕ → Entry

abbrev pub number : Entry → ℕ
number (varint num v) = num
number (fixed32 num v) = num
number (bytes num b) = num

-- Valid numbers are those that protowire takes, from 1 to 2^29 - 1, and values fit their width.
abbrev pub IsValid : Entry → Type 0
IsValid (varint num v) = (0 < num) × (num < 0x2000_0000) × (v < 0x1_0000_0000_0000_0000)
IsValid (fixed32 num v) = (0 < num) × (num < 0x2000_0000) × (v < 0x1_0000_0000)
IsValid (bytes num b) = (0 < num) × (num < 0x2000_0000)

-- The package's Append functions, and that its Consume functions read back what they wrote.
pub record Codec : Type 0 where
  pub wire : Wire
  pub append_tag : ℕ → ℕ → List ℕ
  pub append_varint : ℕ → List ℕ
  pub append_fixed32 : ℕ → List ℕ
  pub append_bytes : List ℕ → List ℕ
  pub tag_read :
      (num typ : ℕ) (rest : List ℕ)
      → 0 < num
      → num < 0x2000_0000
      → wire.consume_tag (append_tag num typ ++ rest) ≡ some (num, typ, length (append_tag num typ))
  pub varint_read :
      (v : ℕ) (rest : List ℕ)
      → v < 0x1_0000_0000_0000_0000
      → wire.consume_varint (append_varint v ++ rest) ≡ some (v, length (append_varint v))
  pub fixed32_read :
      (v : ℕ) (rest : List ℕ)
      → v < 0x1_0000_0000
      → wire.consume_fixed32 (append_fixed32 v ++ rest) ≡ some (v, length (append_fixed32 v))
  pub bytes_read :
      (b rest : List ℕ)
      → wire.consume_bytes (append_bytes b ++ rest) ≡ some (b, length (append_bytes b))
  pub varint_skipped :
      (num v : ℕ) (rest : List ℕ)
      → v < 0x1_0000_0000_0000_0000
      → wire.consume_field_value num 0 (append_varint v ++ rest) ≡ some (length (append_varint v))
  pub fixed32_skipped :
      (num v : ℕ) (rest : List ℕ)
      → v < 0x1_0000_0000
      → wire.consume_field_value num 5 (append_fixed32 v ++ rest) ≡ some (length (append_fixed32 v))
  pub bytes_skipped :
      (num : ℕ) (b rest : List ℕ)
      → wire.consume_field_value num 2 (append_bytes b ++ rest) ≡ some (length (append_bytes b))

abbrev pub AllValid : List Entry → Type 0
AllValid [] = Unit
AllValid (e ∷ es) = IsValid e × AllValid es

pub AllValid-append : (es fs : List Entry) → AllValid es → AllValid fs → AllValid (es ++ fs)
AllValid-append [] fs h k = k
AllValid-append (e ∷ es) fs (he, h) k = (he, AllValid-append es fs h k)

module _ (c : Codec) where
  abbrev pub value : Entry → List ℕ
  value (varint num v) = c.append_varint v
  value (fixed32 num v) = c.append_fixed32 v
  value (bytes num b) = c.append_bytes b

  abbrev pub wire_type : Entry → ℕ
  wire_type (varint num v) = 0
  wire_type (fixed32 num v) = 5
  wire_type (bytes num b) = 2

  abbrev pub field_of : Entry → Field
  field_of e = record { num = number e; typ = wire_type e; raw = value e }

  unfoldable pub encode : List Entry → List ℕ
  encode [] = []
  encode (e ∷ es) = c.append_tag (number e) (wire_type e) ++ (value e ++ encode es)

  valid_number : (e : Entry) → IsValid e → (0 < number e) × (number e < 0x2000_0000)
  valid_number (varint num v) (p, q, r) = (p, q)
  valid_number (fixed32 num v) (p, q, r) = (p, q)
  valid_number (bytes num b) (p, q) = (p, q)

  skipped :
      (e : Entry) (rest : List ℕ)
      → IsValid e
      → c.wire.consume_field_value (number e) (wire_type e) (value e ++ rest)
        ≡ some (length (value e))
  skipped (varint num v) rest (p, q, r) = c.varint_skipped num v rest r
  skipped (fixed32 num v) rest (p, q, r) = c.fixed32_skipped num v rest r
  skipped (bytes num b) rest (p, q) = c.bytes_skipped num b rest

  encode-cons :
      (e : Entry) (es : List Entry)
      → IsValid e
      → next_field c.wire (encode (e ∷ es)) ≡ ok (field_of e, encode es)
  unfolding encode next_field
  encode-cons e es h =
      let (p, q) = valid_number e h in
      rw
        (
          c.tag_read (number e) (wire_type e) (value e ++ encode es) p q,
          drop-append (c.append_tag (number e) (wire_type e)) (value e ++ encode es),
          skipped e (encode es) h,
          take-append (value e) (encode es),
          drop-append (value e) (encode es),
        )
        refl

  encode-cons_pos : (e : Entry) (es : List Entry) → IsValid e → 0 < length (encode (e ∷ es))
  unfolding encode
  encode-cons_pos e es h =
      let (p, q) = valid_number e h in
      let tag = c.append_tag (number e) (wire_type e) in
      let rest = value e ++ encode es in
      omega (
        arith,
        c.wire.tag_length (tag ++ rest) (number e) (wire_type e) (length tag)
            (c.tag_read (number e) (wire_type e) rest p q),
        length-append tag rest,
      )

  is_empty-pos : (xs : List ℕ) → 0 < length xs → is_empty xs ≡ false
  is_empty-pos [] h = elim h [ ]
  is_empty-pos (x ∷ xs) h = refl

  -- The tag alone makes the rest shorter.
  encode-shorter :
      (e : Entry) (es : List Entry) → IsValid e → length (encode es) < length (encode (e ∷ es))
  unfolding encode
  encode-shorter e es h =
      let (p, q) = valid_number e h in
      let tag = c.append_tag (number e) (wire_type e) in
      let rest = value e ++ encode es in
      omega (
        arith,
        c.wire.tag_length (tag ++ rest) (number e) (wire_type e) (length tag)
            (c.tag_read (number e) (wire_type e) rest p q),
        length-append tag rest,
        length-append (value e) (encode es),
      )

  module _ {ℓ} {S : Type ℓ} (visit : S → Field → Result DecodeError S) where
    -- The fields handed to the visitor one after the other, up to its first error.
    abbrev pub visit_all : List Entry → S → Result DecodeError S
    visit_all [] s = ok s
    visit_all (e ∷ es) s = visit s (field_of e) >>= λ s'. visit_all es s'

    -- The walk over an encoded message of valid fields, with fuel above its length, hands each field
    -- to the visitor with its number, wire type and value bytes, in the order written, stops at the
    -- visitor's first error, and returns what the last call leaves.
    pub for_each_field-encode :
        (fuel : ℕ) (es : List Entry) (s : S)
        → AllValid es
        → length (encode es) < fuel
        → for_each_field c.wire fuel visit (encode es) s ≡ visit_all es s
    unfolding for_each_field
    for_each_field-encode zero es s h lt = absurd (omega arith)
    for_each_field-encode (suc fuel) [] s h lt = unfold encode in refl
    for_each_field-encode (suc fuel) (e ∷ es) s (he, h) lt =
        rw (is_empty-pos (encode (e ∷ es)) (encode-cons_pos e es he), encode-cons e es he)
          (each (visit s (field_of e))
            (λ s'. for_each_field-encode fuel es s' h (omega (arith, encode-shorter e es he))))
      where
        each :
            (m : Result DecodeError S)
            → ((s' : S) → for_each_field c.wire fuel visit (encode es) s' ≡ visit_all es s')
            → (m >>= λ s'. for_each_field c.wire fuel visit (encode es) s')
              ≡ (m >>= λ s'. visit_all es s')
        each (ok s') k = k s'
        each (err x) k = refl

    pub visit_all-append :
        (es fs : List Entry) (s : S)
        → visit_all (es ++ fs) s ≡ (visit_all es s >>= λ s'. visit_all fs s')
    visit_all-append [] fs s = refl
    visit_all-append (e ∷ es) fs s = go (visit s (field_of e)) (visit_all-append es fs)
      where
        go :
            (m : Result DecodeError S)
            → ((s' : S) → visit_all (es ++ fs) s' ≡ (visit_all es s' >>= λ t. visit_all fs t))
            → (m >>= λ s'. visit_all (es ++ fs) s')
              ≡ ((m >>= λ s'. visit_all es s') >>= λ t. visit_all fs t)
        go (ok s') k = k s'
        go (err x) k = refl
