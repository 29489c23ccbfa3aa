-- ===== src/QueueStore/Claim/Gates.antt =====
-- About the choice and the gates of ClaimNextQueueItem (internal/db/repository.go).
use makidoku.Common.{
  ℕ, suc, ◌≤◌, ◌<◌, ◌≡◌, refl, subst, inl, inr, String, Bool, true, false, Option, none, some, List,
  [], ◌∷◌, arith, All, filter, head?, ltb→lt, lt→ltb, Bool-cases, if◌then◌else◌, str_eq, eq_iff,
}
use makidoku.Common.Result.{ok}
use makidoku.Rows.{Row, Chapter, Store, Item, pending, is, ordered, chapter_of, update_where}
use makidoku.Rows.Sorted.{ordered-nil}
use makidoku.Rows.Table.{In}
use makidoku.QueueStore.{get_queue_item}
use makidoku.QueueStore.Claim.{
  ClaimOptions, in_flight, cap_for, busy_sources, count_distinct, claimable, start, is_waiting,
  start_row, claim_next_queue_item,
}
use makidoku.QueueStore.Claim.Counts.{UniqueIds, in_flight-start, count_distinct-start}
use makidoku.QueueStore.Claim.Shape.{
  IsNext, first-IsNext, claimable-parts, find-start, waiting-any, has-chapter_of,
}

filter-nil : (p : Row → Bool) (xs : List Row) → filter p xs ≡ [] → All (λ x. p x ≡ false) xs
filter-nil p [] e = tt
filter-nil p (x ∷ xs) e = elim (Bool-cases (p x)) [
  | inl t ↦ absurd (ground arith)
  | inr f ↦ (f, filter-nil p xs (ground arith))
]

head-none : (xs : List Row) → head? xs ≡ none → xs ≡ []
head-none [] e = refl
head-none (x ∷ xs) e = cc

-- The item that a claim of `r` returns.
claimed-item :
    (st : Store) (r : Row) (c : Chapter)
    → is pending r ≡ true
    → UniqueIds st.rows
    → In r st.rows
    → chapter_of st.chapters r.chapter_id ≡ some c
    → get_queue_item r.id (start_row r.id st) ≡ ok (record { row = start r; chapter = c })
unfolding get_queue_item
claimed-item st r c w u m k = rw (find-start r st.rows w u m, k) refl

-- What a claim did: nothing, when no row passes the gates, or the start of the next row.
pub data Claimed (options : ClaimOptions) (st : Store) : Option Item → Store → Type 0 where
  idle : All (λ r. claimable options st r ≡ false) st.rows → Claimed options st none st
  took :
      (r : Row) (c : Chapter)
      → IsNext options st r
      → chapter_of st.chapters r.chapter_id ≡ some c
      → Claimed options st (some (record { row = start r; chapter = c })) (start_row r.id st)

-- On a queue with distinct ids a claim never fails: if no pending row passes the gates it returns
-- nothing and changes nothing; otherwise it starts a pending row that passes them and that no other
-- such row precedes by position, queueing time and id, and returns that row, now downloading and
-- with its error cleared, joined to its chapter.
pub claim-next :
    (options : ClaimOptions) (st : Store)
    → UniqueIds st.rows
    → (o : Option Item) × (st' : Store) × (claim_next_queue_item options st ≡ ok (o, st'))
      × Claimed options st o st'
unfolding claim_next_queue_item
claim-next options st u = go (head? (ordered (filter (claimable options st) st.rows))) refl
  where
    go :
        (h : Option Row)
        → head? (ordered (filter (claimable options st) st.rows)) ≡ h
        → (o : Option Item) × (st' : Store) × (claim_next_queue_item options st ≡ ok (o, st'))
          × Claimed options st o st'
    go none e = (
      none,
      st,
      rw e refl,
      idle (
          filter-nil (claimable options st) st.rows (
            ordered-nil (filter (claimable options st) st.rows)
              (head-none (ordered (filter (claimable options st) st.rows)) e))),
    )
    go (some r) e =
        let next = first-IsNext options st e in
        let (s, w, of_s, _) = claimable-parts options st r next.passes in
        let (c, k) = has-chapter_of st r of_s in
        (
          some (record { row = start r; chapter = c }),
          start_row r.id st,
          rw (e, waiting-any r st.rows w next.member, claimed-item st r c w u next.member k) refl,
          took r c next k,
        )

-- No source has more chapters in flight than its cap, and no more sources are busy than allowed;
-- each bound only where its gate is on.
pub record IsGated (options : ClaimOptions) (st : Store) : Type 0 where
  pub caps :
      0 < options.default_cap → (s : String) → in_flight st.chapters s st.rows ≤ cap_for options s
  pub sources :
      0 < options.max_active_sources
      → count_distinct (busy_sources st.chapters st.rows) ≤ options.max_active_sources

within :
    (t s : String) (cap used : String → ℕ)
    → used t < cap t
    → used s ≤ cap s
    → (if str_eq t s then suc (used s) else used s) ≤ cap s
within t s cap used room fits = elim (Bool-cases (str_eq t s)) [
  | inl e ↦ rw e (subst (λ x. used x < cap x) ((eq_iff t s).0 e) room)
  | inr e ↦ rw e fits
]

module _ (options : ClaimOptions) (st : Store) (r : Row) (u : UniqueIds st.rows)
    (next : IsNext options st r) (g : IsGated options st) where
  start-caps :
      0 < options.default_cap
      → (s : String)
      → in_flight st.chapters s (update_where (is_waiting r.id) start st.rows) ≤ cap_for options s
  start-caps on s =
      let (t, w, of_t, pass) = claimable-parts options st r next.passes in
      let room : in_flight st.chapters t st.rows < cap_for options t =
        ltb→lt _ _ (ground (arith, pass, lt→ltb 0 options.default_cap)) in
      rw (in_flight-start st.chapters r t w of_t s st.rows u next.member) (
        within t s (cap_for options) (λ (x : String). in_flight st.chapters x st.rows) room
          (g.caps on s))

  start-sources :
      0 < options.max_active_sources
      → count_distinct (busy_sources st.chapters (update_where (is_waiting r.id) start st.rows))
        ≤ options.max_active_sources
  start-sources on =
      let (t, w, of_t, pass) = claimable-parts options st r next.passes in
      rw (count_distinct-start st.chapters r t w of_t st.rows u next.member)
        (ground (arith, pass, lt→ltb 0 options.max_active_sources, g.sources on))

-- A claim keeps the gates it was made with: if no source was over its cap, and no more sources were
-- busy than allowed, before the claim, this holds after it, for every source.
pub claim-IsGated :
    (options : ClaimOptions) (st : Store) {o : Option Item} {st' : Store}
    → UniqueIds st.rows
    → IsGated options st
    → claim_next_queue_item options st ≡ ok (o, st')
    → IsGated options st'
claim-IsGated options st {o} {st'} u g e =
    let (o₁, st₁, e₁, c) = claim-next options st u in
    let same : st₁ ≡ st' = cc (e, e₁) in subst (IsGated options) same (go c)
  where
    go : {o₁ : Option Item} {st₁ : Store} → Claimed options st o₁ st₁ → IsGated options st₁
    go (idle _) = g
    go (took r c next _) = record {
      caps = start-caps options st r u next g;
      sources = start-sources options st r u next g;
    }
