-- ===== src/QueueStore/Claim/Shape.antt =====
-- About what ClaimNextQueueItem (internal/db/repository.go) returns.
use makidoku.Common.{
  ◌≡◌, ◌≢◌, refl, sym, subst, inl, inr, String, true, ◌&&◌, Option, none, some, List, [], ◌∷◌,
  arith, All-filter, filter, filter-passes, find?, any, head?, Option-cases,
}
use makidoku.Rows.{
  Row, Chapter, Store, pending, is, has_id, update_where, ordered, chapter_of, source_id_of,
  source_of,
}
use makidoku.Rows.Sorted.{IsLeast, first-IsLeast, first-All}
use makidoku.Rows.Table.{In, All-In, All-self}
use makidoku.QueueStore.Claim.{
  ClaimOptions, claimable, joined_claimable, source_claimable, start, is_waiting,
}
use makidoku.QueueStore.Claim.Counts.{UniqueIds}

-- A row that a claim may take: it is in the table, passes the gates, and no other such row comes
-- before it in queue order.
pub record IsNext (options : ClaimOptions) (st : Store) (r : Row) : Type 0 where
  pub member : In r st.rows
  pub passes : claimable options st r ≡ true
  pub least : IsLeast r (filter (claimable options st) st.rows)

pub first-IsNext :
    (options : ClaimOptions) (st : Store) {r : Row}
    → head? (ordered (filter (claimable options st) st.rows)) ≡ some r
    → IsNext options st r
first-IsNext options st e = record {
  member =
      first-All (λ x. In x st.rows) (filter (claimable options st) st.rows) e
        (All-filter (λ x. In x st.rows) (claimable options st) st.rows (All-self st.rows));
  passes =
      first-All (λ x. claimable options st x ≡ true) (filter (claimable options st) st.rows) e
        (filter-passes (claimable options st) st.rows);
  least = first-IsLeast (filter (claimable options st) st.rows) e;
}

-- A row that passes waits, and its source passes.
pub claimable-parts :
    (options : ClaimOptions) (st : Store) (r : Row)
    → claimable options st r ≡ true
    → (s : String) × (is pending r ≡ true)
      × (source_of st.chapters r ≡ some s)
      × (source_claimable options st s ≡ true)
claimable-parts options st r h = go (source_of st.chapters r) refl h
  where
    go :
        (o : Option String)
        → source_of st.chapters r ≡ o
        → (is pending r && joined_claimable options st o) ≡ true
        → (s : String) × (is pending r ≡ true)
          × (source_of st.chapters r ≡ some s)
          × (source_claimable options st s ≡ true)
    go none e k = absurd (ground arith)
    go (some s) e k = (s, ground arith, e, ground arith)

-- A look-up by id after the start finds the row that started.
pub find-start :
    (r : Row) (xs : List Row)
    → is pending r ≡ true
    → UniqueIds xs
    → In r xs
    → find? (has_id r.id) (update_where (is_waiting r.id) start xs) ≡ some (start r)
find-start r [] w u m = absurd m
find-start r (x ∷ xs) w (ux, u) (inl e) =
    subst
      (λ y. find? (has_id r.id) (update_where (is_waiting r.id) start (y ∷ xs)) ≡ some (start r))
      (sym e) (ground (arith, w))
find-start r (x ∷ xs) w (ux, u) (inr m) =
    let other : r.id ≢ x.id = All-In (λ y. y.id ≢ x.id) xs ux m in
    ground (arith, find-start r xs w u m)

pub waiting-any :
    (r : Row) (xs : List Row) → is pending r ≡ true → In r xs → any (is_waiting r.id) xs ≡ true
waiting-any r [] w m = absurd m
waiting-any r (x ∷ xs) w (inl e) =
    subst (λ y. any (is_waiting r.id) (y ∷ xs) ≡ true) (sym e) (ground (arith, w))
waiting-any r (x ∷ xs) w (inr m) = ground (arith, waiting-any r xs w m)

pub has-chapter_of :
    (st : Store) (r : Row) {s : String}
    → source_of st.chapters r ≡ some s
    → (c : Chapter) × (chapter_of st.chapters r.chapter_id ≡ some c)
unfolding source_id_of
has-chapter_of st r e = elim (Option-cases (chapter_of st.chapters r.chapter_id)) [
  | inl n ↦ ground arith
  | inr (c, h) ↦ (c, h)
]
