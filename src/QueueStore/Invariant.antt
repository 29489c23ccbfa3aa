-- ===== src/QueueStore/Invariant.antt =====
-- What a method of internal/db/repository.go may do to the tables, and when they are well formed.
use makidoku.Common.{
  ℕ, ◌+◌, ◌<◌, ◌≤◌, ◌≡◌, ◌≢◌, refl, sym, subst, ◌∙◌, String, Bool, true, false, not, List, [], ◌∷◌,
  ◌++◌, arith, All, All-imp, All-append, All-filter, any, str_eq, eq_iff,
}
use makidoku.Rows.{
  Status, pending, downloading, paused, failed, same_status, Row, Chapter, Store, has_chapter,
  is_live, update_where, delete_where,
}
use makidoku.Rows.Table.{
  All-update_where, Unique, Unique-filter, Unique-update_where, Unique-append_one,
}
use makidoku.QueueStore.{new_row}

-- The row's chapter is in the table.
abbrev pub has_parent : List Chapter → Row → Bool
has_parent cs r = any (λ c. str_eq c.id r.chapter_id) cs

-- Ids and chapters are distinct, an id is below the counter, a row's chapter exists, and only live
-- statuses are stored.
pub record IsWellFormed (st : Store) : Type 0 where
  pub ids : Unique (λ r. r.id) st.rows
  pub chapter_ids : Unique (λ r. r.chapter_id) st.rows
  pub issued : All (λ r. r.id < st.next_id) st.rows
  pub parents : All (λ r. has_parent st.chapters r ≡ true) st.rows
  pub live : All (λ r. is_live r ≡ true) st.rows

-- The diagram of the statuses: what one call may turn a stored status into.
abbrev pub can_become : Status → Status → Bool
can_become pending downloading = true
can_become pending paused = true
can_become downloading pending = true
can_become downloading paused = true
can_become downloading failed = true
can_become paused pending = true
can_become failed pending = true
can_become s t = same_status s t

-- An update that leaves the keys alone and follows the diagram.
pub record IsHarmless (p : Row → Bool) (f : Row → Row) : Type 0 where
  pub id : (r : Row) → (f r).id ≡ r.id
  pub chapter : (r : Row) → (f r).chapter_id ≡ r.chapter_id
  pub moves : (r : Row) → p r ≡ true → can_become r.status (f r).status ≡ true

abbrev pub SameChapters : List Chapter → List Chapter → Type 0
SameChapters cs cs' = (c : String) → any (λ x. str_eq x.id c) cs' ≡ any (λ x. str_eq x.id c) cs

pub data Effect (st : Store) : Store → Type 0 where
  updated :
      (cs : List Chapter) (p : Row → Bool) (f : Row → Row) (next_id : ℕ)
      → SameChapters st.chapters cs
      → IsHarmless p f
      → st.next_id ≤ next_id
      → Effect st (record st { rows = update_where p f st.rows; chapters = cs; next_id = next_id })
  deleted :
      (cs : List Chapter) (p : Row → Bool)
      → SameChapters st.chapters cs
      → Effect st (record st { rows = delete_where p st.rows; chapters = cs })
  inserted :
      (c : String) (now position : ℕ)
      → any (λ x. str_eq x.id c) st.chapters ≡ true
      → any (has_chapter c) st.rows ≡ false
      → Effect st (record st {
        rows = st.rows ++ new_row st.next_id c now position ∷ [];
        next_id = st.next_id + 1;
      })

become-live :
    (r : Row) (s : Status)
    → can_become r.status s ≡ true
    → is_live r ≡ true
    → is_live (record r { status = s }) ≡ true
become-live r s h k = ground arith

updated-IsWellFormed :
    {st : Store} (cs : List Chapter) (p : Row → Bool) (f : Row → Row) (next_id : ℕ)
    → SameChapters st.chapters cs
    → IsHarmless p f
    → st.next_id ≤ next_id
    → IsWellFormed st
    → IsWellFormed (record st { rows = update_where p f st.rows; chapters = cs; next_id = next_id })
updated-IsWellFormed {st} cs p f next_id same h more w = record {
  ids = Unique-update_where (λ r. r.id) p f st.rows h.id w.ids;
  chapter_ids = Unique-update_where (λ r. r.chapter_id) p f st.rows h.chapter w.chapter_ids;
  issued =
      All-update_where p f st.rows
        (λ r k _. subst (λ i. i < next_id) (sym (h.id r)) (omega (arith, k, more)))
        (λ r k _. omega (arith, k, more)) w.issued;
  parents =
      All-update_where p f st.rows
        (λ r k _.
          subst (λ c. any (λ x. str_eq x.id c) cs ≡ true) (sym (h.chapter r))
            (same r.chapter_id ∙ k))
        (λ r k _. same r.chapter_id ∙ k) w.parents;
  live =
      All-update_where p f st.rows (λ r k e. become-live r (f r).status (h.moves r e) k)
        (λ r k _. k) w.live;
}

deleted-IsWellFormed :
    {st : Store} (cs : List Chapter) (p : Row → Bool)
    → SameChapters st.chapters cs
    → IsWellFormed st
    → IsWellFormed (record st { rows = delete_where p st.rows; chapters = cs })
deleted-IsWellFormed {st} cs p same w = record {
  ids = Unique-filter (λ r. r.id) (λ r. not (p r)) st.rows w.ids;
  chapter_ids = Unique-filter (λ r. r.chapter_id) (λ r. not (p r)) st.rows w.chapter_ids;
  issued = All-filter (λ r. r.id < st.next_id) (λ r. not (p r)) st.rows w.issued;
  parents =
      All-filter (λ r. has_parent cs r ≡ true) (λ r. not (p r)) st.rows
        (All-imp st.rows (λ r k. same r.chapter_id ∙ k) w.parents);
  live = All-filter (λ r. is_live r ≡ true) (λ r. not (p r)) st.rows w.live;
}

no-has_chapter :
    (c : String) (rows : List Row)
    → any (has_chapter c) rows ≡ false
    → All (λ r. c ≢ r.chapter_id) rows
no-has_chapter c [] h = tt
no-has_chapter c (r ∷ rows) h =
    (λ e. grind (arith, eq_iff r.chapter_id c, sym e), no-has_chapter c rows (ground arith))

inserted-IsWellFormed :
    {st : Store} (c : String) (now position : ℕ)
    → any (λ x. str_eq x.id c) st.chapters ≡ true
    → any (has_chapter c) st.rows ≡ false
    → IsWellFormed st
    → IsWellFormed (record st {
      rows = st.rows ++ new_row st.next_id c now position ∷ [];
      next_id = st.next_id + 1;
    })
inserted-IsWellFormed {st} c now position parent new w =
    let row = new_row st.next_id c now position in
    record {
      ids =
          Unique-append_one (λ r. r.id) st.rows row w.ids
            (All-imp st.rows (λ r k e. omega (arith, e)) w.issued);
      chapter_ids =
          Unique-append_one (λ r. r.chapter_id) st.rows row w.chapter_ids
            (no-has_chapter c st.rows new);
      issued =
          All-append (λ r. r.id < st.next_id + 1) st.rows (row ∷ [])
            (All-imp st.rows (λ r k. omega arith) w.issued) (omega arith, tt);
      parents =
          All-append (λ r. has_parent st.chapters r ≡ true) st.rows (row ∷ []) w.parents
            (parent, tt);
      live = All-append (λ r. is_live r ≡ true) st.rows (row ∷ []) w.live (refl, tt);
    }

pub Effect-IsWellFormed : {st st' : Store} → Effect st st' → IsWellFormed st → IsWellFormed st'
Effect-IsWellFormed (updated cs p f next_id same h more) w =
    updated-IsWellFormed cs p f next_id same h more w
Effect-IsWellFormed (deleted cs p same) w = deleted-IsWellFormed cs p same w
Effect-IsWellFormed (inserted c now position parent new) w =
    inserted-IsWellFormed c now position parent new w
