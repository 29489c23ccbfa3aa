-- ===== src/QueueStore/Claim/Counts.antt =====
-- About the counts that the gates of ClaimNextQueueItem (internal/db/repository.go) read.
use makidoku.Common.{
  ℕ, suc, ◌≡◌, ◌≢◌, refl, sym, subst, inl, inr, String, Bool, true, false, ◌||◌, Option, none, some,
  List, [], ◌∷◌, arith, All, All-imp, if◌then◌else◌, str_eq, eq_iff,
}
use makidoku.Rows.{Row, Chapter, pending, downloading, is, update_where, source_of}
use makidoku.Rows.Table.{In, All-In, update_where_none, Unique}
use makidoku.QueueStore.Claim.{
  contains, in_flight, cons_source, busy_sources, count_distinct, start, is_waiting,
}

abbrev pub UniqueIds : List Row → Type 0
UniqueIds = Unique (λ r. r.id)

others_stay :
    (id : ℕ) (xs : List Row) → All (λ y. y.id ≢ id) xs → update_where (is_waiting id) start xs ≡ xs
others_stay id xs h =
    update_where_none (is_waiting id) start xs (All-imp xs (λ y ne. ground arith) h)

distinct_step :
    (b : Bool) (o : Option String) (t : String) (old new : List String)
    → ((u : String) → contains u new ≡ (str_eq t u || contains u old))
    → count_distinct new ≡ (if contains t old then count_distinct old else suc (count_distinct old))
    → count_distinct (if b then cons_source o new else new) ≡ (
        if contains t (if b then cons_source o old else old)
        then count_distinct (if b then cons_source o old else old)
        else suc (count_distinct (if b then cons_source o old else old)))
distinct_step false o t old new mem ih = ih
distinct_step true none t old new mem ih = ih
distinct_step true (some v) t old new mem ih = ground (arith, ih, mem v, eq_iff t v, eq_iff v t)

module _ (cs : List Chapter) (r : Row) (t : String) (waits : is pending r ≡ true)
    (of_t : source_of cs r ≡ some t) where
  waiting_self : is_waiting r.id r ≡ true
  waiting_self = ground (arith, waits)

  not_downloading : is downloading r ≡ false
  not_downloading = ground (arith, waits)

  in_flight-start_head :
      (s : String) (xs : List Row)
      → All (λ y. y.id ≢ r.id) xs
      → in_flight cs s (update_where (is_waiting r.id) start (r ∷ xs))
        ≡ (if str_eq t s then suc (in_flight cs s (r ∷ xs)) else in_flight cs s (r ∷ xs))
  in_flight-start_head s xs ne =
      rw (others_stay r.id xs ne, waiting_self, not_downloading, of_t) refl

  -- One more chapter of its source is in flight, and no other source has more.
  pub in_flight-start :
      (s : String) (xs : List Row)
      → UniqueIds xs
      → In r xs
      → in_flight cs s (update_where (is_waiting r.id) start xs)
        ≡ (if str_eq t s then suc (in_flight cs s xs) else in_flight cs s xs)
  in_flight-start s [] u m = absurd m
  in_flight-start s (x ∷ xs) (ux, u) (inl e) =
      (subst
          (λ y.
            All (λ z. z.id ≢ y.id) xs
            → in_flight cs s (update_where (is_waiting r.id) start (y ∷ xs))
              ≡ (if str_eq t s then suc (in_flight cs s (y ∷ xs)) else in_flight cs s (y ∷ xs)))
          (sym e) (in_flight-start_head s xs))
        ux
  in_flight-start s (x ∷ xs) (ux, u) (inr m) =
      let other : r.id ≢ x.id = All-In (λ y. y.id ≢ x.id) xs ux m in
      let missed : is_waiting r.id x ≡ false = ground arith in
      rw (missed, in_flight-start s xs u m) (ground arith)

  contains-start_head :
      (u : String) (xs : List Row)
      → All (λ y. y.id ≢ r.id) xs
      → contains u (busy_sources cs (update_where (is_waiting r.id) start (r ∷ xs)))
        ≡ (str_eq t u || contains u (busy_sources cs (r ∷ xs)))
  contains-start_head u xs ne =
      rw (others_stay r.id xs ne, waiting_self, not_downloading, of_t) refl

  -- The sources that are busy are those that were, and the source of the row.
  pub contains-start :
      (u : String) (xs : List Row)
      → UniqueIds xs
      → In r xs
      → contains u (busy_sources cs (update_where (is_waiting r.id) start xs))
        ≡ (str_eq t u || contains u (busy_sources cs xs))
  contains-start u [] uq m = absurd m
  contains-start u (x ∷ xs) (ux, uq) (inl e) =
      (subst
          (λ y.
            All (λ z. z.id ≢ y.id) xs
            → contains u (busy_sources cs (update_where (is_waiting r.id) start (y ∷ xs)))
              ≡ (str_eq t u || contains u (busy_sources cs (y ∷ xs))))
          (sym e) (contains-start_head u xs))
        ux
  contains-start u (x ∷ xs) (ux, uq) (inr m) =
      let other : r.id ≢ x.id = All-In (λ y. y.id ≢ x.id) xs ux m in
      let missed : is_waiting r.id x ≡ false = ground arith in
      let ih = contains-start u xs uq m in rw missed (ground (arith, ih))

  count_distinct-start_head :
      (xs : List Row)
      → All (λ y. y.id ≢ r.id) xs
      → count_distinct (busy_sources cs (update_where (is_waiting r.id) start (r ∷ xs))) ≡ (
          if contains t (busy_sources cs (r ∷ xs))
          then count_distinct (busy_sources cs (r ∷ xs))
          else suc (count_distinct (busy_sources cs (r ∷ xs))))
  count_distinct-start_head xs ne =
      rw (others_stay r.id xs ne, waiting_self, not_downloading, of_t) refl

  -- One more source is busy, unless it was.
  pub count_distinct-start :
      (xs : List Row)
      → UniqueIds xs
      → In r xs
      → count_distinct (busy_sources cs (update_where (is_waiting r.id) start xs)) ≡ (
          if contains t (busy_sources cs xs)
          then count_distinct (busy_sources cs xs)
          else suc (count_distinct (busy_sources cs xs)))
  count_distinct-start [] uq m = absurd m
  count_distinct-start (x ∷ xs) (ux, uq) (inl e) =
      (subst
          (λ y.
            All (λ z. z.id ≢ y.id) xs
            → count_distinct (busy_sources cs (update_where (is_waiting r.id) start (y ∷ xs))) ≡ (
                if contains t (busy_sources cs (y ∷ xs))
                then count_distinct (busy_sources cs (y ∷ xs))
                else suc (count_distinct (busy_sources cs (y ∷ xs)))))
          (sym e) (count_distinct-start_head xs))
        ux
  count_distinct-start (x ∷ xs) (ux, uq) (inr m) =
      let other : r.id ≢ x.id = All-In (λ y. y.id ≢ x.id) xs ux m in
      let missed : is_waiting r.id x ≡ false = ground arith in
      rw missed (
        distinct_step (is downloading x) (source_of cs x) t (busy_sources cs xs)
          (busy_sources cs (update_where (is_waiting r.id) start xs))
          (λ u. contains-start u xs uq m) (count_distinct-start xs uq m))
