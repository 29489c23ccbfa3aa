-- ===== src/QueueStore/Yield.antt =====
-- About YieldSupersededDownloads (internal/db/repository.go).
use makidoku.Common.{
  ℕ, ◌≤◌, ◌≡◌, ◌≢◌, refl, sym, subst, ◌∙◌, inl, inr, Bool, true, false, ◌&&◌, Option, none, some,
  List, [], ◌∷◌, arith, All, All-imp, filter, is_empty, any, ltb, ap, ◌||◌, ◌==◌, Bool-cases,
  if◌then◌else◌,
}
use makidoku.Rows.{Row, Store, pending, downloading, is, before, ordered, update_where}
use makidoku.Rows.Table.{In, All-In, All-self, All-update_where, Unique, update_where_none}
use makidoku.Rows.Sorted.{any_id-ordered}
use makidoku.QueueStore.{set_status}
use makidoku.QueueStore.Control.{
  min_with, min_pending, is_superseded, ids, id_in, yield_superseded_downloads,
}

abbrev AtLeast : Option ℕ → ℕ → Type 0
AtLeast none n = ⊥
AtLeast (some m) n = m ≤ n

abbrev AtMost : Option ℕ → ℕ → Type 0
AtMost none n = Unit
AtMost (some m) n = n ≤ m

within : (m : Option ℕ) (a b : ℕ) → AtMost m a → AtLeast m b → a ≤ b
within none a b h k = absurd k
within (some m) a b h k = omega arith

min_with-AtLeast :
    (b : Bool) (p n : ℕ) (m : Option ℕ) → AtLeast m n → AtLeast (if b then min_with p m else m) n
min_with-AtLeast true p n (some m) h = omega arith
min_with-AtLeast true p n none h = absurd h
min_with-AtLeast false p n m h = h

min_with-AtLeast_self : (p : ℕ) (m : Option ℕ) → AtLeast (min_with p m) p
min_with-AtLeast_self p none = omega arith
min_with-AtLeast_self p (some m) = omega arith

-- No pending row stands before the least position of a pending row.
min_pending-AtLeast :
    (xs : List Row) → All (λ p. is pending p ≡ true → AtLeast (min_pending xs) p.position) xs
min_pending-AtLeast [] = tt
min_pending-AtLeast (r ∷ xs) = (
  λ w. rw w (min_with-AtLeast_self r.position (min_pending xs)),
  All-imp xs (λ p h w. min_with-AtLeast (is pending r) r.position p.position (min_pending xs) (h w))
      (min_pending-AtLeast xs),
)

not_superseded :
    (m : Option ℕ) (r : Row)
    → is_superseded m r ≡ false
    → is downloading r ≡ true
    → AtMost m r.position
not_superseded none r h d = tt
not_superseded (some m) r h d = ground arith

superseded : (m : Option ℕ) (r : Row) → is_superseded m r ≡ true → AtLeast m r.position
superseded none r h = cc
superseded (some m) r h = ground arith

superseded-downloading :
    (m : Option ℕ) (r : Row) → is_superseded m r ≡ true → is downloading r ≡ true
superseded-downloading none r h = cc
superseded-downloading (some m) r h = ground arith

-- A row that passes the test has its id among those of the rows that pass.
id_in-filter :
    (p : Row → Bool) (xs : List Row) {r : Row}
    → In r xs
    → p r ≡ true
    → id_in (ids (filter p xs)) r ≡ true
id_in-filter p [] m h = absurd m
id_in-filter p (x ∷ xs) {r} (inl e) h =
    subst (λ y. id_in (ids (filter p (x ∷ xs))) y ≡ true) e
      (rw (subst (λ y. p y ≡ true) (sym e) h) (ground arith))
id_in-filter p (x ∷ xs) {r} (inr m) h = ground (arith, id_in-filter p xs m h)

id_in-absent :
    (p : Row → Bool) (xs : List Row) (r : Row)
    → All (λ y. y.id ≢ r.id) xs
    → id_in (ids (filter p xs)) r ≡ false
id_in-absent p [] r h = refl
id_in-absent p (x ∷ xs) r (hx, h) = ground (arith, id_in-absent p xs r h)

-- With distinct ids only such a row has.
filter-id_in :
    (p : Row → Bool) (xs : List Row) {r : Row}
    → Unique (λ y. y.id) xs
    → In r xs
    → id_in (ids (filter p xs)) r ≡ true
    → p r ≡ true
filter-id_in p [] u m h = absurd m
filter-id_in p (x ∷ xs) {r} (ux, u) (inl e) h =
    subst (λ y. p y ≡ true) e
      (subst (λ y. id_in (ids (filter p (x ∷ xs))) y ≡ true → p x ≡ true) e
        (λ k. ground (arith, id_in-absent p xs x ux)) h)
filter-id_in p (x ∷ xs) {r} (ux, u) (inr m) h =
    let other : r.id ≢ x.id = All-In (λ y. y.id ≢ x.id) xs ux m in
    filter-id_in p xs u m (ground arith)

-- The row comes no later than any pending row if it downloads, and no earlier than any row that
-- downloads if it is pending: `m` stands between.
record IsParted (m : Option ℕ) (r : Row) : Type 0 where
  ahead : is downloading r ≡ true → AtMost m r.position
  behind : is pending r ≡ true → AtLeast m r.position

-- No pending row stands before one in flight in queue order, unless their positions are equal.
abbrev pub Ahead : List Row → Type 0
Ahead rows =
    All
      (λ d.
        All
          (λ p.
            is downloading d ≡ true
            → is pending p ≡ true
            → before p d ≡ true
            → p.position ≡ d.position)
          rows)
      rows

before-le : (p d : Row) → before p d ≡ true → p.position ≤ d.position
before-le p d h = ground arith

parted-Ahead : (m : Option ℕ) (xs : List Row) → All (IsParted m) xs → Ahead xs
parted-Ahead m xs h =
    All-imp xs
      (λ d hd.
        All-imp xs
          (λ p hp w v b.
            omega
              (arith, within m d.position p.position (hd.ahead w) (hp.behind v), before-le p d b))
          h)
      h

yielded : Store → List ℕ
yielded st = ids (ordered (filter (is_superseded (min_pending st.rows)) st.rows))

empty-id_in : (js : List ℕ) → is_empty js ≡ true → (x : Row) → id_in js x ≡ false
empty-id_in [] e x = refl
empty-id_in (j ∷ js) e x = cc

module _ (st : Store) (u : Unique (λ r. r.id) st.rows) where
  least : Option ℕ
  least = min_pending st.rows

  passes : Row → Bool
  passes = is_superseded (min_pending st.rows)

  in_yielded : (x : Row) → id_in (yielded st) x ≡ id_in (ids (filter passes st.rows)) x
  unfolding yielded passes
  in_yielded x =
      any_id-ordered (λ i. x.id == i) (filter (is_superseded (min_pending st.rows)) st.rows)

  hit :
      (x : Row)
      → In x st.rows
      → (id_in (yielded st) x && is downloading x) ≡ true
      → IsParted least (set_status pending x)
  unfolding least passes
  hit x m h = record {
    ahead = λ e. cc;
    behind = λ _. superseded (min_pending st.rows) x (
        filter-id_in (is_superseded (min_pending st.rows)) st.rows u m
          (sym (in_yielded x) ∙ ground (arith, h)));
  }

  miss :
      (x : Row)
      → In x st.rows
      → (id_in (yielded st) x && is downloading x) ≡ false
      → IsParted least x
  unfolding least passes
  miss x m h = record {
    ahead = λ d. elim (Bool-cases (is_superseded (min_pending st.rows) x)) [
      | inl t ↦ absurd (
          ground (
            arith,
            in_yielded x,
            id_in-filter (is_superseded (min_pending st.rows)) st.rows m t,
            h,
            d,
          ))
      | inr f ↦ not_superseded (min_pending st.rows) x f d
    ];
    behind = λ w.
        All-In (λ p. is pending p ≡ true → AtLeast (min_pending st.rows) p.position) st.rows
          (min_pending-AtLeast st.rows) m w;
  }

  All-IsParted :
      All
        (IsParted least)
        (update_where (λ r. id_in (yielded st) r && is downloading r) (set_status pending) st.rows)
  All-IsParted =
      All-update_where (λ r. id_in (yielded st) r && is downloading r) (set_status pending) st.rows
        (λ x m e. hit x m e) (λ x m e. miss x m e) (All-self st.rows)

  none_yielded : is_empty (yielded st) ≡ true → All (IsParted least) st.rows
  none_yielded e =
      All-imp st.rows (λ x m. miss x m (rw (empty-id_in (yielded st) e x) refl)) (All-self st.rows)

  -- The update is of the rows that pass.
  yields_passing : (x : Row) → In x st.rows → (id_in (yielded st) x && is downloading x) ≡ passes x
  unfolding passes
  yields_passing x m = elim (Bool-cases (is_superseded (min_pending st.rows) x)) [
    | inl t ↦
        let named : id_in (yielded st) x ≡ true =
          in_yielded x ∙ id_in-filter (is_superseded (min_pending st.rows)) st.rows m t in
        let busy = superseded-downloading (min_pending st.rows) x t in rw (named, busy, t) refl
    | inr f ↦ elim (Bool-cases (id_in (yielded st) x)) [
      | inl named ↦
          let t =
            filter-id_in (is_superseded (min_pending st.rows)) st.rows u m
              (sym (in_yielded x) ∙ named) in
          absurd cc
      | inr unnamed ↦ rw (unnamed, f) refl
    ]
  ]

-- A pending row has a smaller position.
abbrev pub is_passed : List Row → Row → Bool
is_passed rows r = is downloading r && any (λ p. is pending p && ltb p.position r.position) rows

update_where-same :
    (p q : Row → Bool) (f : Row → Row) (xs : List Row)
    → All (λ x. p x ≡ q x) xs
    → update_where p f xs ≡ update_where q f xs
update_where-same p q f [] h = refl
update_where-same p q f (x ∷ xs) (hx, h) = rw (hx, update_where-same p q f xs h) refl

filter-same :
    (p q : Row → Bool) (xs : List Row) → ((x : Row) → p x ≡ q x) → filter p xs ≡ filter q xs
filter-same p q [] h = refl
filter-same p q (x ∷ xs) h = rw (h x, filter-same p q xs h) refl

min_with-passed :
    (p n : ℕ) (m : Option ℕ) (d b : Bool)
    → elim m [ none ↦ false | some k ↦ d && ltb k n ] ≡ (d && b)
    → elim (min_with p m) [ none ↦ false | some k ↦ d && ltb k n ] ≡ (d && (ltb p n || b))
min_with-passed p n none d b h = ground (arith, h)
min_with-passed p n (some k) d b h = ground (arith, h)

is_superseded-passed : (r : Row) (xs : List Row) → is_superseded (min_pending xs) r ≡ is_passed xs r
is_superseded-passed r [] = ground arith
is_superseded-passed r (x ∷ xs) = elim (Bool-cases (is pending x)) [
  | inl w ↦ rw w (
      min_with-passed x.position r.position (min_pending xs) (is downloading r) _
        (is_superseded-passed r xs))
  | inr o ↦ rw o (is_superseded-passed r xs)
]

-- The result in full: the ids, in queue order, of the rows in flight with a pending row of a smaller
-- position, and the table with those rows pending.
abbrev pub taken_back : Store → List ℕ × Store
taken_back st = (
  ids (ordered (filter (is_passed st.rows) st.rows)),
  record st { rows = update_where (is_passed st.rows) (set_status pending) st.rows },
)

either :
    (st : Store) (ys : List ℕ) (rows : List Row)
    → (is_empty ys ≡ true → rows ≡ st.rows)
    → ◌≡◌ {A = List ℕ × Store}
        (if is_empty ys then ([], st) else (ys, record st { rows = rows }))
        (ys, record st { rows = rows })
either st [] rows h = rw (h refl) refl
either st (y ∷ ys) rows h = refl

pub yield_superseded-taken_back :
    (st : Store) → Unique (λ r. r.id) st.rows → yield_superseded_downloads st ≡ taken_back st
unfolding yield_superseded_downloads yielded passes
yield_superseded-taken_back st u =
    let busy = λ (r : Row). id_in (yielded st) r && is downloading r in
    let out = update_where busy (set_status pending) st.rows in
    let nothing : is_empty (yielded st) ≡ true → out ≡ st.rows = λ e.
      update_where_none busy (set_status pending) st.rows
        (All-imp st.rows (λ x _. rw (empty-id_in (yielded st) e x) refl) (All-self st.rows)) in
    let same : yielded st ≡ ids (ordered (filter (is_passed st.rows) st.rows)) =
      ap (λ xs. ids (ordered xs))
        (filter-same (is_superseded (min_pending st.rows)) (is_passed st.rows) st.rows
          (λ x. is_superseded-passed x st.rows)) in
    let rows : out ≡ update_where (is_passed st.rows) (set_status pending) st.rows =
      update_where-same busy (is_passed st.rows) (set_status pending) st.rows (
        All-imp st.rows (λ x m. yields_passing st u x m ∙ is_superseded-passed x st.rows)
          (All-self st.rows)) in
    either st (yielded st) out nothing
    ∙ ap (λ js. (js, record st { rows = out })) same
    ∙ ap (λ xs. (ids (ordered (filter (is_passed st.rows) st.rows)), record st { rows = xs })) rows

-- YieldSupersededDownloads, on a table with distinct ids, makes pending exactly the rows in flight
-- for which a pending row has a smaller position, changes nothing else, and gives their ids in queue
-- order. After it a pending row that stands before one in flight in queue order has the same
-- position: only the time of queueing or the id sets it before.
pub yield_superseded-Ahead :
    (st : Store)
    → Unique (λ r. r.id) st.rows
    → (yield_superseded_downloads st ≡ taken_back st) × Ahead (yield_superseded_downloads st).1.rows
unfolding yield_superseded_downloads yielded least
yield_superseded-Ahead st u =
    let out =
      update_where (λ r. id_in (yielded st) r && is downloading r) (set_status pending) st.rows in
    (
      yield_superseded-taken_back st u,
      elim (Bool-cases (is_empty (yielded st))) [
        | inl e ↦ rw e (parted-Ahead (min_pending st.rows) st.rows (none_yielded st u e))
        | inr e ↦ rw e (parted-Ahead (min_pending st.rows) out (All-IsParted st u))
      ],
    )
