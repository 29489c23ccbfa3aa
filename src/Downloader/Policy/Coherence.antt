-- ===== src/Downloader/Policy/Coherence.antt =====
-- About policyFor, its cache and claimOptions (internal/downloader/queue.go).
use makidoku.Common.{
  ℕ, ◌≡◌, refl, sym, ap, ◌∙◌, subst, String, Option, none, some, List, [], ◌∷◌, All, All-imp,
  All-find?, find?, str_eq, eq_iff, Bool-cases, inl, inr, arith, ◌==◌, ==_iff,
}
use makidoku.QueueStore.Claim.{SourceConcurrency, cap_for}
use makidoku.Downloader.Policy.{
  Options, SourcePolicy, Hints, SourceDownloadPrefs, Cached, caches, fresh_policy, policy_for,
  answer, cap_entry, caps_of, claim_options, bound, remember,
}

found-source :
    (s : String) (cache : List Cached) {c : Cached}
    → find? (caches s) cache ≡ some c
    → c.source_id ≡ s
found-source s [] e = absurd cc
found-source s (x ∷ xs) {c} e = elim (Bool-cases (caches s x)) [
  | inl hit ↦
      let same : x ≡ c = ground arith in
      subst (λ y. y.source_id ≡ s) same ((eq_iff x.source_id s).0 hit)
  | inr miss ↦ found-source s xs {c = c} (ground arith)
]

module _ (o : Options) (hints_of : String → Option Hints) (table : List SourceDownloadPrefs) where
  -- Each cached policy is the one that would be worked out now.
  abbrev pub IsCoherent : List Cached → Type 0
  IsCoherent cache = All (λ c. c.policy ≡ fresh_policy o hints_of table c.source_id) cache

  remember-IsCoherent :
      (h : Option Hints) (c : Cached) (cache : List Cached)
      → c.policy ≡ fresh_policy o hints_of table c.source_id
      → IsCoherent cache
      → IsCoherent (remember h c cache)
  remember-IsCoherent none c cache e k = k
  remember-IsCoherent (some h) c cache e k = (e, k)

  answer-IsCoherent :
      (found : Option Cached) (s : String) (cache : List Cached)
      → find? (caches s) cache ≡ found
      → IsCoherent cache
      → ((answer o hints_of table found s cache).0 ≡ fresh_policy o hints_of table s)
        × IsCoherent ((answer o hints_of table found s cache).1)
  answer-IsCoherent none s cache e k = (refl, remember-IsCoherent (hints_of s) _ cache refl k)
  answer-IsCoherent (some c) s cache e k = (
    All-find? (λ x. x.policy ≡ fresh_policy o hints_of table x.source_id) (caches s) cache k e
        ∙ ap (fresh_policy o hints_of table) (found-source s cache e),
    k,
  )

  -- From a cache that agrees with the hints and the overrides, the policy of a source is the one
  -- worked out without the cache, and the cache agrees still.
  pub policy_for-IsCoherent :
      (s : String) (cache : List Cached)
      → IsCoherent cache
      → ((policy_for o hints_of table s cache).0 ≡ fresh_policy o hints_of table s)
        × IsCoherent ((policy_for o hints_of table s cache).1)
  unfolding policy_for
  policy_for-IsCoherent s cache k = answer-IsCoherent (find? (caches s) cache) s cache refl k

  caps_of-IsCoherent :
      (live : List String) (cache : List Cached)
      → IsCoherent cache
      → IsCoherent ((caps_of o hints_of table live cache).1)
  unfolding caps_of
  caps_of-IsCoherent [] cache k = k
  caps_of-IsCoherent (s ∷ ss) cache k =
      caps_of-IsCoherent ss ((policy_for o hints_of table s cache).1)
        (policy_for-IsCoherent s cache k).1

  -- The cap of a source by a list of caps, with the global default for the others.
  abbrev looked_up : String → List SourceConcurrency → ℕ
  looked_up s caps = elim (find? (λ c. str_eq c.source_id s) caps) [
    | none ↦ bound o.chapters_per_source
    | some c ↦ c.max
  ]

  abbrev wanted : String → ℕ
  wanted s = bound (fresh_policy o hints_of table s).concurrent

  IsWanted : SourceConcurrency → Type 0
  IsWanted c = c.max ≡ wanted c.source_id

  entry-IsWanted :
      (t : String) (p : SourcePolicy) (rest : List SourceConcurrency)
      → bound p.concurrent ≡ wanted t
      → All IsWanted rest
      → All IsWanted (cap_entry o hints_of table t p rest)
  unfolding IsWanted
  entry-IsWanted t p rest e k =
      elim (Bool-cases (bound p.concurrent == bound o.chapters_per_source)) [
        | inl same ↦ rw same k
        | inr other ↦ rw other (e, k)
      ]

  -- What the other sources see does not change.
  entry-looked_up :
      (s t : String) (p : SourcePolicy) (rest : List SourceConcurrency)
      → bound p.concurrent ≡ wanted t
      → looked_up s rest ≡ wanted s
      → looked_up s (cap_entry o hints_of table t p rest) ≡ wanted s
  entry-looked_up s t p rest e k =
      elim (Bool-cases (bound p.concurrent == bound o.chapters_per_source)) [
        | inl same ↦ rw same k
        | inr other ↦ rw other (elim (Bool-cases (str_eq t s)) [
          | inl hit ↦ rw (hit, looked_up) (e ∙ ap wanted ((eq_iff t s).0 hit))
          | inr miss ↦ rw (miss, looked_up) k
        ])
      ]

  rest-looked_up :
      (t : String) (rest : List SourceConcurrency)
      → bound o.chapters_per_source ≡ wanted t
      → All IsWanted rest
      → looked_up t rest ≡ wanted t
  unfolding IsWanted
  rest-looked_up t [] e k = e
  rest-looked_up t (c ∷ rest) e (h, k) = elim (Bool-cases (str_eq c.source_id t)) [
    | inl hit ↦ rw (hit, looked_up) (h ∙ ap wanted ((eq_iff c.source_id t).0 hit))
    | inr miss ↦ rw (miss, looked_up) (rest-looked_up t rest e k)
  ]

  own-looked_up :
      (t : String) (p : SourcePolicy) (rest : List SourceConcurrency)
      → bound p.concurrent ≡ wanted t
      → All IsWanted rest
      → looked_up t (cap_entry o hints_of table t p rest) ≡ wanted t
  own-looked_up t p rest e k =
      elim (Bool-cases (bound p.concurrent == bound o.chapters_per_source)) [
        | inl same ↦ rw same (
            rest-looked_up t rest
              (sym ((==_iff (bound p.concurrent) (bound o.chapters_per_source)).0 same) ∙ e) k)
        | inr other ↦ rw (other, (eq_iff t t).1 refl, looked_up) e
      ]

  caps_of-IsWanted :
      (live : List String) (cache : List Cached)
      → IsCoherent cache
      → All IsWanted ((caps_of o hints_of table live cache).0)
  unfolding caps_of
  caps_of-IsWanted [] cache k = tt
  caps_of-IsWanted (t ∷ ts) cache k =
      let (e, k') = policy_for-IsCoherent t cache k in
      entry-IsWanted t ((policy_for o hints_of table t cache).0) _ (ap (λ p. bound p.concurrent) e)
        (caps_of-IsWanted ts ((policy_for o hints_of table t cache).1) k')

  caps_of-looked_up :
      (live : List String) (cache : List Cached)
      → IsCoherent cache
      → All (λ s. looked_up s ((caps_of o hints_of table live cache).0) ≡ wanted s) live
  unfolding caps_of
  caps_of-looked_up [] cache k = tt
  caps_of-looked_up (t ∷ ts) cache k =
      let (e, k') = policy_for-IsCoherent t cache k in
      let q = ap (λ (p : SourcePolicy). bound p.concurrent) e in
      let next = (policy_for o hints_of table t cache).1 in
      (
        own-looked_up t ((policy_for o hints_of table t cache).0) _ q (caps_of-IsWanted ts next k'),
        All-imp ts (λ s h. entry-looked_up s t ((policy_for o hints_of table t cache).0) _ q h)
            (caps_of-looked_up ts next k'),
      )

  -- With a cache that agrees with the hints and the overrides, the cap that a claim applies to a
  -- source with live rows is the number of chapters at once of the source's policy, whether the
  -- options name the source or leave it to the global default.
  pub claim_options-caps :
      (paused live : List String) (cache : List Cached)
      → IsCoherent cache
      → All
          (λ s.
            cap_for ((claim_options o hints_of table paused (some live) cache).0) s
            ≡ bound (fresh_policy o hints_of table s).concurrent)
          live
  unfolding claim_options
  claim_options-caps paused live cache k = caps_of-looked_up live cache k
