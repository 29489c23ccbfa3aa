-- ===== src/Tachibackup/Model.antt =====
-- The backup document (internal/tachibackup/model.go): a record for each message, and the value that
-- Go gives a variable of it. A text is its bytes, and a `float32` its bit pattern.
use makidoku.Common.{ℕ, Bool, false, Option, none, List, []}
use makidoku.Common.Int.{ℤ, pos}

abbrev pub Text : Type 0
Text = List ℕ

pub record Chapter : Type 0 where
  pub url : Text
  pub name : Text
  pub scanlator : Text
  pub read : Bool
  pub bookmark : Bool
  pub last_page_read : ℤ
  pub date_fetch : ℤ
  pub date_upload : ℤ
  pub chapter_number : ℕ
  pub source_order : ℤ
  pub last_modified_at : ℤ
  pub version : ℤ
  pub memo : Text

abbrev pub empty_chapter : Chapter
empty_chapter = record {
  url = [];
  name = [];
  scanlator = [];
  read = false;
  bookmark = false;
  last_page_read = pos 0;
  date_fetch = pos 0;
  date_upload = pos 0;
  chapter_number = 0;
  source_order = pos 0;
  last_modified_at = pos 0;
  version = pos 0;
  memo = [];
}

pub record History : Type 0 where
  pub url : Text
  pub last_read : ℤ
  pub read_duration : ℤ

abbrev pub empty_history : History
empty_history = record { url = []; last_read = pos 0; read_duration = pos 0 }

pub record Category : Type 0 where
  pub name : Text
  pub order : ℤ
  pub id : ℤ
  pub flags : ℤ
  pub hidden : Bool

abbrev pub empty_category : Category
empty_category = record { name = []; order = pos 0; id = pos 0; flags = pos 0; hidden = false }

pub record SavedSearch : Type 0 where
  pub name : Text
  pub query : Text
  pub filter_list : Text
  pub source : ℤ

abbrev pub empty_saved_search : SavedSearch
empty_saved_search = record { name = []; query = []; filter_list = []; source = pos 0 }

pub record Feed : Type 0 where
  pub source : ℤ
  pub global : Bool
  pub saved_search : Option SavedSearch

abbrev pub empty_feed : Feed
empty_feed = record { source = pos 0; global = false; saved_search = none }

pub record MergedReference : Type 0 where
  pub is_info_manga : Bool
  pub get_chapter_updates : Bool
  pub chapter_sort_mode : ℤ
  pub chapter_priority : ℤ
  pub download_chapters : Bool
  pub merge_url : Text
  pub manga_url : Text
  pub manga_source_id : ℤ

abbrev pub empty_merged_reference : MergedReference
empty_merged_reference = record {
  is_info_manga = false;
  get_chapter_updates = false;
  chapter_sort_mode = pos 0;
  chapter_priority = pos 0;
  download_chapters = false;
  merge_url = [];
  manga_url = [];
  manga_source_id = pos 0;
}

pub record FlatMetadataTag : Type 0 where
  pub namespace : Text
  pub name : Text
  pub type : ℤ

abbrev pub empty_flat_metadata_tag : FlatMetadataTag
empty_flat_metadata_tag = record { namespace = []; name = []; type = pos 0 }

pub record FlatMetadataTitle : Type 0 where
  pub title : Text
  pub type : ℤ

abbrev pub empty_flat_metadata_title : FlatMetadataTitle
empty_flat_metadata_title = record { title = []; type = pos 0 }

pub record FlatMetadata : Type 0 where
  pub uploader : Text
  pub extra : Text
  pub indexed_extra : Text
  pub extra_version : ℤ
  pub tags : List FlatMetadataTag
  pub titles : List FlatMetadataTitle

abbrev pub empty_flat_metadata : FlatMetadata
empty_flat_metadata = record {
  uploader = [];
  extra = [];
  indexed_extra = [];
  extra_version = pos 0;
  tags = [];
  titles = [];
}

pub record Tracking : Type 0 where
  pub sync_id : ℤ
  pub library_id : ℤ
  pub media_id_int : ℤ
  pub tracking_url : Text
  pub title : Text
  pub last_chapter_read : ℕ
  pub total_chapters : ℤ
  pub score : ℕ
  pub status : ℤ
  pub started_reading_date : ℤ
  pub finished_reading_date : ℤ
  pub private : Bool
  pub media_id : ℤ

abbrev pub empty_tracking : Tracking
empty_tracking = record {
  sync_id = pos 0;
  library_id = pos 0;
  media_id_int = pos 0;
  tracking_url = [];
  title = [];
  last_chapter_read = 0;
  total_chapters = pos 0;
  score = 0;
  status = pos 0;
  started_reading_date = pos 0;
  finished_reading_date = pos 0;
  private = false;
  media_id = pos 0;
}

pub record Source : Type 0 where
  pub name : Text
  pub source_id : ℤ

abbrev pub empty_source : Source
empty_source = record { name = []; source_id = pos 0 }

pub record Manga : Type 0 where
  pub source : ℤ
  pub url : Text
  pub title : Text
  pub artist : Text
  pub author : Text
  pub description : Text
  pub genre : List Text
  pub status : ℤ
  pub thumbnail_url : Text
  pub date_added : ℤ
  pub viewer : ℤ
  pub chapters : List Chapter
  pub categories : List ℤ
  pub tracking : List Tracking
  pub favorite : Bool
  pub chapter_flags : ℤ
  pub viewer_flags : Option ℤ
  pub history : List History
  pub update_strategy : ℤ
  pub last_modified_at : ℤ
  pub favorite_modified_at : Option ℤ
  pub excluded_scanlators : List Text
  pub version : ℤ
  pub notes : Text
  pub initialized : Bool
  pub memo : Text
  pub custom_status : ℤ
  pub custom_thumbnail_url : Text
  pub custom_title : Text
  pub custom_artist : Text
  pub custom_author : Text
  pub custom_description : Text
  pub custom_genre : List Text
  pub merged_references : List MergedReference
  pub flat_metadata : Option FlatMetadata

abbrev pub empty_manga : Manga
empty_manga = record {
  source = pos 0;
  url = [];
  title = [];
  artist = [];
  author = [];
  description = [];
  genre = [];
  status = pos 0;
  thumbnail_url = [];
  date_added = pos 0;
  viewer = pos 0;
  chapters = [];
  categories = [];
  tracking = [];
  favorite = false;
  chapter_flags = pos 0;
  viewer_flags = none;
  history = [];
  update_strategy = pos 0;
  last_modified_at = pos 0;
  favorite_modified_at = none;
  excluded_scanlators = [];
  version = pos 0;
  notes = [];
  initialized = false;
  memo = [];
  custom_status = pos 0;
  custom_thumbnail_url = [];
  custom_title = [];
  custom_artist = [];
  custom_author = [];
  custom_description = [];
  custom_genre = [];
  merged_references = [];
  flat_metadata = none;
}

pub record Backup : Type 0 where
  pub manga : List Manga
  pub categories : List Category
  pub sources : List Source
  pub saved_searches : List SavedSearch
  pub feeds : List Feed
  pub preferences : ℕ
  pub source_preferences : ℕ
  pub extension_stores : ℕ

abbrev pub empty_backup : Backup
empty_backup = record {
  manga = [];
  categories = [];
  sources = [];
  saved_searches = [];
  feeds = [];
  preferences = 0;
  source_preferences = 0;
  extension_stores = 0;
}
