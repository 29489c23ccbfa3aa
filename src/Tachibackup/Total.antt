-- ===== src/Tachibackup/Total.antt =====
-- About the fuel of the decoders (internal/tachibackup/decode.go).
use makidoku.Common.{
  ℕ, suc, ◌+◌, ◌≢◌, refl, true, Bool-cases, inl, inr, Option, none, some, List, arith, length,
}
use makidoku.Common.Result.{err}
use makidoku.Tachibackup.Wire.{Wire, Field, out_of_fuel}
use makidoku.Tachibackup.Model.{
  Chapter, History, Category, Tracking, Source, SavedSearch, Feed, MergedReference, FlatMetadataTag,
  FlatMetadataTitle, FlatMetadata, Manga, Backup, empty_chapter, empty_history, empty_category,
  empty_tracking, empty_source, empty_saved_search, empty_feed, empty_merged_reference,
  empty_flat_metadata_tag, empty_flat_metadata_title, empty_flat_metadata, empty_manga,
  empty_backup,
}
use makidoku.Tachibackup.Messages.{
  visit_chapter, decode_chapter, visit_history, decode_history, visit_category, decode_category,
  visit_tracking, decode_tracking, visit_source, decode_source, visit_saved_search,
  decode_saved_search,
}
use makidoku.Tachibackup.Metadata.{
  visit_feed, decode_feed, visit_merged_reference, decode_merged_reference, visit_search_metadata,
  decode_search_metadata, visit_flat_metadata_tag, decode_flat_metadata_tag,
  visit_flat_metadata_title, decode_flat_metadata_title, visit_flat_metadata, decode_flat_metadata,
  SearchMetadata, empty_search_metadata,
}
use makidoku.Tachibackup.Library.{visit_manga, decode_manga}
use makidoku.Tachibackup.Document.{
  visit_backup, decode_backup, checked, has_records, max_decoded_bytes, decode_plain, decode,
}
use makidoku.Tachibackup.Walk.{
  Ends, Ends-ok, Ends-err, Ends-bind, Ends-if, Ends-for_each_field, ends_rules,
}

module _ (w : Wire) where
  Ends-visit_chapter : (s : Chapter) (f : Field) → Ends (visit_chapter w s f)
  unfolding visit_chapter
  Ends-visit_chapter s f = search ends_rules depth 40

  Ends-decode_chapter : (raw : List ℕ) → Ends (decode_chapter w raw)
  unfolding decode_chapter
  Ends-decode_chapter raw =
      Ends-for_each_field w (visit_chapter w) Ends-visit_chapter (suc (length raw)) raw
        empty_chapter (omega arith)

  Ends-visit_history : (s : History) (f : Field) → Ends (visit_history w s f)
  unfolding visit_history
  Ends-visit_history s f = search ends_rules depth 40

  Ends-decode_history : (raw : List ℕ) → Ends (decode_history w raw)
  unfolding decode_history
  Ends-decode_history raw =
      Ends-for_each_field w (visit_history w) Ends-visit_history (suc (length raw)) raw
        empty_history (omega arith)

  Ends-visit_category : (s : Category) (f : Field) → Ends (visit_category w s f)
  unfolding visit_category
  Ends-visit_category s f = search ends_rules depth 40

  Ends-decode_category : (raw : List ℕ) → Ends (decode_category w raw)
  unfolding decode_category
  Ends-decode_category raw =
      Ends-for_each_field w (visit_category w) Ends-visit_category (suc (length raw)) raw
        empty_category (omega arith)

  Ends-visit_tracking : (s : Tracking) (f : Field) → Ends (visit_tracking w s f)
  unfolding visit_tracking
  Ends-visit_tracking s f = search ends_rules depth 40

  Ends-decode_tracking : (raw : List ℕ) → Ends (decode_tracking w raw)
  unfolding decode_tracking
  Ends-decode_tracking raw =
      Ends-for_each_field w (visit_tracking w) Ends-visit_tracking (suc (length raw)) raw
        empty_tracking (omega arith)

  Ends-visit_source : (s : Source) (f : Field) → Ends (visit_source w s f)
  unfolding visit_source
  Ends-visit_source s f = search ends_rules depth 40

  Ends-decode_source : (raw : List ℕ) → Ends (decode_source w raw)
  unfolding decode_source
  Ends-decode_source raw =
      Ends-for_each_field w (visit_source w) Ends-visit_source (suc (length raw)) raw empty_source
        (omega arith)

  Ends-visit_saved_search : (s : SavedSearch) (f : Field) → Ends (visit_saved_search w s f)
  unfolding visit_saved_search
  Ends-visit_saved_search s f = search ends_rules depth 40

  Ends-decode_saved_search : (raw : List ℕ) → Ends (decode_saved_search w raw)
  unfolding decode_saved_search
  Ends-decode_saved_search raw =
      Ends-for_each_field w (visit_saved_search w) Ends-visit_saved_search (suc (length raw)) raw
        empty_saved_search (omega arith)

  Ends-visit_feed : (s : Feed) (f : Field) → Ends (visit_feed w s f)
  unfolding visit_feed
  Ends-visit_feed s f = search (ends_rules, Ends-decode_saved_search) depth 40

  Ends-decode_feed : (raw : List ℕ) → Ends (decode_feed w raw)
  unfolding decode_feed
  Ends-decode_feed raw =
      Ends-for_each_field w (visit_feed w) Ends-visit_feed (suc (length raw)) raw
        (record empty_feed { global = true }) (omega arith)

  Ends-visit_merged_reference :
      (s : MergedReference) (f : Field) → Ends (visit_merged_reference w s f)
  unfolding visit_merged_reference
  Ends-visit_merged_reference s f = search ends_rules depth 40

  Ends-decode_merged_reference : (raw : List ℕ) → Ends (decode_merged_reference w raw)
  unfolding decode_merged_reference
  Ends-decode_merged_reference raw =
      Ends-for_each_field w (visit_merged_reference w) Ends-visit_merged_reference
        (suc (length raw)) raw empty_merged_reference (omega arith)

  Ends-visit_search_metadata : (s : SearchMetadata) (f : Field) → Ends (visit_search_metadata w s f)
  unfolding visit_search_metadata
  Ends-visit_search_metadata s f = search ends_rules depth 40

  Ends-decode_search_metadata : (raw : List ℕ) → Ends (decode_search_metadata w raw)
  unfolding decode_search_metadata
  Ends-decode_search_metadata raw =
      Ends-for_each_field w (visit_search_metadata w) Ends-visit_search_metadata (suc (length raw))
        raw empty_search_metadata (omega arith)

  Ends-visit_flat_metadata_tag :
      (s : FlatMetadataTag) (f : Field) → Ends (visit_flat_metadata_tag w s f)
  unfolding visit_flat_metadata_tag
  Ends-visit_flat_metadata_tag s f = search ends_rules depth 40

  Ends-decode_flat_metadata_tag : (raw : List ℕ) → Ends (decode_flat_metadata_tag w raw)
  unfolding decode_flat_metadata_tag
  Ends-decode_flat_metadata_tag raw =
      Ends-for_each_field w (visit_flat_metadata_tag w) Ends-visit_flat_metadata_tag
        (suc (length raw)) raw empty_flat_metadata_tag (omega arith)

  Ends-visit_flat_metadata_title :
      (s : FlatMetadataTitle) (f : Field) → Ends (visit_flat_metadata_title w s f)
  unfolding visit_flat_metadata_title
  Ends-visit_flat_metadata_title s f = search ends_rules depth 40

  Ends-decode_flat_metadata_title : (raw : List ℕ) → Ends (decode_flat_metadata_title w raw)
  unfolding decode_flat_metadata_title
  Ends-decode_flat_metadata_title raw =
      Ends-for_each_field w (visit_flat_metadata_title w) Ends-visit_flat_metadata_title
        (suc (length raw)) raw empty_flat_metadata_title (omega arith)

  Ends-visit_flat_metadata : (s : FlatMetadata) (f : Field) → Ends (visit_flat_metadata w s f)
  unfolding visit_flat_metadata
  Ends-visit_flat_metadata s f =
      search
        (
          ends_rules, Ends-decode_search_metadata, Ends-decode_flat_metadata_tag,
          Ends-decode_flat_metadata_title,
        )
        depth 40

  Ends-decode_flat_metadata : (raw : List ℕ) → Ends (decode_flat_metadata w raw)
  unfolding decode_flat_metadata
  Ends-decode_flat_metadata raw =
      Ends-for_each_field w (visit_flat_metadata w) Ends-visit_flat_metadata (suc (length raw)) raw
        empty_flat_metadata (omega arith)

  Ends-visit_manga : (s : Manga) (f : Field) → Ends (visit_manga w s f)
  unfolding visit_manga
  Ends-visit_manga s f =
      search
        (
          ends_rules, Ends-decode_chapter, Ends-decode_tracking, Ends-decode_history,
          Ends-decode_merged_reference, Ends-decode_flat_metadata,
        )
        depth 110 fits 20000

  Ends-decode_manga : (raw : List ℕ) → Ends (decode_manga w raw)
  unfolding decode_manga
  Ends-decode_manga raw =
      Ends-for_each_field w (visit_manga w) Ends-visit_manga (suc (length raw)) raw
        (record empty_manga { favorite = true }) (omega arith)

  Ends-visit_backup : (s : Backup) (f : Field) → Ends (visit_backup w s f)
  unfolding visit_backup
  Ends-visit_backup s f =
      search
        (
          ends_rules, Ends-decode_manga, Ends-decode_category, Ends-decode_source,
          Ends-decode_saved_search, Ends-decode_feed,
        )
        depth 40

  Ends-checked : (b : Backup) → Ends (checked b)
  Ends-checked b = elim (Bool-cases (has_records b)) [
    | inl e ↦ rw e (Ends-ok b)
    | inr e ↦ rw e (Ends-err _ (λ q. cc))
  ]

  Ends-decode_backup : (raw : List ℕ) → Ends (decode_backup w raw)
  unfolding decode_backup
  Ends-decode_backup raw =
      Ends-bind _ _
        (Ends-for_each_field w (visit_backup w) Ends-visit_backup (suc (length raw)) raw
          empty_backup (omega arith))
        Ends-checked

module _ (w : Wire) (gunzip : ℕ → List ℕ → Option (List ℕ)) where
  Ends-decode_plain : (o : Option (List ℕ)) → Ends (decode_plain w gunzip o)
  Ends-decode_plain none = Ends-err _ (λ q. cc)
  Ends-decode_plain (some plain) = Ends-if _ _ _ (Ends-err _ (λ q. cc)) (Ends-decode_backup w plain)

  -- Decode ends on every input, whatever the wire package and the decompressor return: it gives a
  -- backup or one of the errors of the code, and the model's bound on the walk over the fields, at any
  -- depth of nested messages, is never what stops it.
  pub decode-Ends : (input : List ℕ) → decode w gunzip input ≢ err out_of_fuel
  unfolding decode
  decode-Ends input e = (ends_of input).ends out_of_fuel e refl
    where
      ends_of : (input : List ℕ) → Ends (decode w gunzip input)
      ends_of input =
          Ends-if _ _ _ (Ends-decode_plain (gunzip (max_decoded_bytes + 1) input))
            (Ends-if _ _ _ (Ends-err _ (λ q. cc)) (Ends-decode_backup w input))
