-- ===== src/Tachibackup/Unknown.antt =====
-- About field numbers that decodeManga (internal/tachibackup/decode.go) does not know.
use makidoku.Common.{
  ℕ, suc, ◌≡◌, ◌≢◌, refl, sym, ◌∙◌, true, List, [], ◌∷◌, ◌++◌, arith, length, All,
}
use makidoku.Common.Result.{Result, ok, err, ◌>>=◌}
use makidoku.Tachibackup.Wire.{Wire, Field, DecodeError}
use makidoku.Tachibackup.Model.{Manga, empty_manga}
use makidoku.Tachibackup.Library.{visit_manga, decode_manga}
use makidoku.Tachibackup.Codec.{
  Codec, Entry, number, AllValid, AllValid-append, IsValid, field_of, encode, visit_all,
  visit_all-append, for_each_field-encode,
}

-- The numbers of decodeManga's `switch`.
abbrev pub known_manga : List ℕ
known_manga =
    1 ∷ 2 ∷ 3 ∷ 4 ∷ 5 ∷ 6 ∷ 7 ∷ 8 ∷ 9 ∷ 13 ∷ 14 ∷ 16 ∷ 17 ∷ 18 ∷ 100 ∷ 101 ∷ 103 ∷ 104 ∷ 105 ∷ 106
    ∷ 107 ∷ 108 ∷ 109 ∷ 110 ∷ 111 ∷ 112 ∷ 600 ∷ 601 ∷ 602 ∷ 603 ∷ 800 ∷ 801 ∷ 802 ∷ 804 ∷ 805 ∷ []

module _ (w : Wire) where
  visit_manga-unknown :
      (s : Manga) (f : Field) → All (λ n. f.num ≢ n) known_manga → visit_manga w s f ≡ ok s
  unfolding visit_manga
  visit_manga-unknown s f h = ground arith

module _ (c : Codec) where
  dropped :
      (es : List Entry) (u : Entry) (fs : List Entry) (s : Manga)
      → All (λ n. number u ≢ n) known_manga
      → visit_all c (visit_manga c.wire) (es ++ u ∷ fs) s
        ≡ visit_all c (visit_manga c.wire) (es ++ fs) s
  dropped es u fs s h =
      visit_all-append c (visit_manga c.wire) es (u ∷ fs) s
      ∙ (go (visit_all c (visit_manga c.wire) es s)
          ∙ sym (visit_all-append c (visit_manga c.wire) es fs s))
    where
      go :
          (m : Result DecodeError Manga)
          → (m >>= λ t. visit_all c (visit_manga c.wire) (u ∷ fs) t)
            ≡ (m >>= λ t. visit_all c (visit_manga c.wire) fs t)
      go (ok t) = rw (visit_manga-unknown c.wire t (field_of c u) h) refl
      go (err x) = refl

  -- A field whose number the decoder of a library entry does not know changes nothing, wherever it
  -- stands: the entry decodes as without it, to the same record or the same error.
  pub decode_manga-unknown :
      (es : List Entry) (u : Entry) (fs : List Entry)
      → AllValid es
      → IsValid u
      → AllValid fs
      → All (λ n. number u ≢ n) known_manga
      → decode_manga c.wire (encode c (es ++ u ∷ fs)) ≡ decode_manga c.wire (encode c (es ++ fs))
  unfolding decode_manga
  decode_manga-unknown es u fs he hu hf h =
      let start = record empty_manga { favorite = true } in
      for_each_field-encode c (visit_manga c.wire) (suc (length (encode c (es ++ u ∷ fs))))
        (es ++ u ∷ fs) start (AllValid-append es (u ∷ fs) he (hu, hf)) (omega arith)
      ∙ (dropped es u fs start h
          ∙ sym (
              for_each_field-encode c (visit_manga c.wire) (suc (length (encode c (es ++ fs))))
                (es ++ fs) start (AllValid-append es fs he hf) (omega arith)))
