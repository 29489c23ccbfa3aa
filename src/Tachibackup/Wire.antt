-- ===== src/Tachibackup/Wire.antt =====
-- The walk over the fields of a message (internal/tachibackup/decode.go). The package protowire of
-- google.golang.org/protobuf is a parameter: `none` is its negative length, which the code turns into
-- a parse error. Bytes are numbers.
use makidoku.Common.{
  ℕ, zero, suc, ◌≤◌, ◌<◌, ◌≡◌, Bool, not, Option, none, some, List, ◌==◌, length, take, drop,
  is_empty, if◌then◌else◌,
}
use makidoku.Common.Int.{ℤ, to_int32, to_int64}
use makidoku.Common.Result.{Result, ok, err, ◌>>=◌}

pub record Wire : Type 0 where
  -- the field number, the wire type and the length of the tag
  pub consume_tag : List ℕ → Option (ℕ × ℕ × ℕ)
  -- the length of the value
  pub consume_field_value : ℕ → ℕ → List ℕ → Option ℕ
  pub consume_varint : List ℕ → Option (ℕ × ℕ)
  pub consume_fixed32 : List ℕ → Option (ℕ × ℕ)
  pub consume_bytes : List ℕ → Option (List ℕ × ℕ)
  -- a tag is not empty, and no length passes the end of the data
  pub tag_length :
      (data' : List ℕ) (num typ n : ℕ)
      → consume_tag data' ≡ some (num, typ, n)
      → (0 < n) × (n ≤ length data')
  pub value_length :
      (num typ : ℕ) (data' : List ℕ) (n : ℕ)
      → consume_field_value num typ data' ≡ some n
      → n ≤ length data'

-- `out_of_fuel` is of the model alone.
pub data DecodeError : Type 0 where
  parse_error : DecodeError
  no_backup_records : DecodeError
  json_unsupported : DecodeError
  gzip_failed : DecodeError
  too_large : DecodeError
  out_of_fuel : DecodeError

pub record Field : Type 0 where
  pub num : ℕ
  pub typ : ℕ
  pub raw : List ℕ

abbrev pub parsed {ℓ} : {A : Type ℓ} → Option A → Result DecodeError A
parsed none = err parse_error
parsed (some a) = ok a

module _ (w : Wire) where
  -- One round of the loop: the field in front, and the data behind it.
  unfoldable pub next_field : List ℕ → Result DecodeError (Field × List ℕ)
  next_field input = do
    (num, typ, n) ← parsed (w.consume_tag input)
    size ← parsed (w.consume_field_value num typ (drop n input))
    ok (record { num = num; typ = typ; raw = take size (drop n input) }, drop size (drop n input))

  module _ {ℓ} {S : Type ℓ} where
    unfoldable pub for_each_field :
        ℕ → (S → Field → Result DecodeError S) → List ℕ → S → Result DecodeError S
    unfolding next_field
    for_each_field zero visit input s = err out_of_fuel
    for_each_field (suc fuel) visit input s =
        let round = (do
          (f, rest) ← next_field input
          s' ← visit s f
          for_each_field fuel visit rest s') in
        if is_empty input then ok s else round

  unfoldable pub varint_of : Field → Result DecodeError ℕ
  varint_of f = do (v, n) ← parsed (w.consume_varint f.raw); ok v

  unfoldable pub int32_of : Field → Result DecodeError ℤ
  unfolding varint_of
  int32_of f = do v ← varint_of f; ok (to_int32 v)

  unfoldable pub int64_of : Field → Result DecodeError ℤ
  unfolding varint_of
  int64_of f = do v ← varint_of f; ok (to_int64 v)

  unfoldable pub boolean_of : Field → Result DecodeError Bool
  unfolding varint_of
  boolean_of f = do v ← varint_of f; ok (not (v == 0))

  unfoldable pub float32_of : Field → Result DecodeError ℕ
  float32_of f = do (v, n) ← parsed (w.consume_fixed32 f.raw); ok v

  unfoldable pub bytes_of : Field → Result DecodeError (List ℕ)
  bytes_of f = do (v, n) ← parsed (w.consume_bytes f.raw); ok v

  unfoldable pub string_of : Field → Result DecodeError (List ℕ)
  unfolding bytes_of
  string_of f = bytes_of f
