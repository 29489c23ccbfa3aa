-- ===== src/PageRows.antt =====
-- The table `pages` and its replacement (UpsertPages of internal/db/repository.go), with the pages
-- that a source lists (PageItem of internal/engine/types.go). The ids of the rows are left out.
use makidoku.Common.{
  String, Bool, true, false, not, ◌&&◌, List, [], ◌∷◌, ltb, ◌==◌, if◌then◌else◌, str_eq, filter,
  any, suc, length, ◌≡◌, ◌∙◌, refl, ap, inl, inr, Bool-cases,
}
use makidoku.Common.Int.{ℤ, pos, negsuc}

-- `headers_json` is the map of headers as the code writes it: empty for no headers.
pub record PageItem : Type 0 where
  pub index : ℤ
  pub url : String
  pub headers_json : String
  pub is_scrambled : Bool

pub record PageRow : Type 0 where
  pub chapter_id : String
  pub page_index : ℤ
  pub remote_url : String
  pub headers_json : String
  pub is_scrambled : Bool

abbrev same_index : ℤ → ℤ → Bool
same_index (pos a) (pos b) = a == b
same_index (negsuc a) (negsuc b) = a == b
same_index _ _ = false

abbrev index_before : ℤ → ℤ → Bool
index_before (pos a) (pos b) = ltb a b
index_before (pos a) (negsuc b) = false
index_before (negsuc a) (pos b) = true
index_before (negsuc a) (negsuc b) = ltb b a

insert_page : PageItem → List PageItem → List PageItem
insert_page p [] = p ∷ []
insert_page p (q ∷ qs) =
    let rest = insert_page p qs in if index_before q.index p.index then q ∷ rest else p ∷ q ∷ qs

-- sort.SliceStable by index.
unfoldable pub sorted_pages : List PageItem → List PageItem
unfolding insert_page
sorted_pages [] = []
sorted_pages (p ∷ ps) = insert_page p (sorted_pages ps)

length-insert_page :
    (p : PageItem) (ps : List PageItem) → length (insert_page p ps) ≡ suc (length ps)
unfolding insert_page
length-insert_page p [] = refl
length-insert_page p (q ∷ qs) = elim (Bool-cases (index_before q.index p.index)) [
  | inl e ↦ rw e (ap suc (length-insert_page p qs))
  | inr e ↦ rw e refl
]

pub length-sorted_pages : (ps : List PageItem) → length (sorted_pages ps) ≡ length ps
unfolding sorted_pages
length-sorted_pages [] = refl
length-sorted_pages (p ∷ ps) =
    length-insert_page p (sorted_pages ps) ∙ ap suc (length-sorted_pages ps)

abbrev pub page_rows : String → List PageItem → List PageRow
page_rows c [] = []
page_rows c (p ∷ ps) =
    record {
      chapter_id = c;
      page_index = p.index;
      remote_url = p.url;
      headers_json = p.headers_json;
      is_scrambled = p.is_scrambled;
    }
    ∷ page_rows c ps

abbrev same_page : PageRow → PageRow → Bool
same_page a b = str_eq a.chapter_id b.chapter_id && same_index a.page_index b.page_index

-- INSERT … ON CONFLICT(chapter_id, page_index) DO UPDATE
abbrev upsert_page : PageRow → List PageRow → List PageRow
upsert_page p [] = p ∷ []
upsert_page p (q ∷ qs) = let rest = upsert_page p qs in if same_page p q then p ∷ qs else q ∷ rest

abbrev upsert_each : List PageRow → List PageRow → List PageRow
upsert_each [] table = table
upsert_each (p ∷ ps) table = upsert_each ps (upsert_page p table)

-- A row of the chapter at an index that the new list does not have.
abbrev is_dropped : String → List PageRow → PageRow → Bool
is_dropped c pages q =
    str_eq q.chapter_id c && not (any (λ p. same_index p.page_index q.page_index) pages)

unfoldable pub upsert_pages : String → List PageRow → List PageRow → List PageRow
upsert_pages c pages table = filter (λ q. not (is_dropped c pages q)) (upsert_each pages table)
