-- ===== src/MigrationJob/Order.antt =====
-- About the order of matches (betterChapter of internal/api/migration_jobs.go).
use makidoku.Common.{
  ℕ, suc, ◌≡◌, refl, sym, ◌∙◌, Bool, true, false, not, Option, none, some, ltb, ◌==◌, if◌then◌else◌,
  arith,
}
use makidoku.Common.Int.{ℤ, pos, negsuc, less}
use makidoku.Migration.Match.{lower}
use makidoku.Migration.Ranking.{IsPositive, AtMost-Below, AtMost-trans}
use makidoku.MigrationJob.{TitleEvent}
use makidoku.MigrationJob.Search.{chapter_number, same_chapter_number, better_chapter}

abbrev pub IsNatural : Option ℤ → Type 0
IsNatural none = Unit
IsNatural (some (pos n)) = Unit
IsNatural (some (negsuc n)) = ⊥

-- The number of the latest chapter is not negative, and the score is a fraction.
abbrev pub IsRanked : TitleEvent → Type 0
IsRanked e = IsNatural e.latest_chapter × IsPositive e.score

abbrev rank : Option ℤ → ℕ
rank none = 0
rank (some (pos n)) = suc n
rank (some (negsuc n)) = 0

same-rank :
    (a b : Option ℤ) → IsNatural a → IsNatural b → same_chapter_number a b ≡ (rank a == rank b)
same-rank none none h k = refl
same-rank none (some (pos m)) h k = ground arith
same-rank (some (pos n)) none h k = ground arith
same-rank (some (pos n)) (some (pos m)) h k = ground arith
same-rank none (some (negsuc m)) h k = absurd k
same-rank (some (pos n)) (some (negsuc m)) h k = absurd k
same-rank (some (negsuc n)) b h k = absurd h

less-rank :
    (a b : Option ℤ)
    → IsNatural a
    → IsNatural b
    → less (chapter_number a) (chapter_number b) ≡ ltb (rank a) (rank b)
less-rank none none h k = refl
less-rank none (some (pos m)) h k = ground arith
less-rank (some (pos n)) none h k = ground arith
less-rank (some (pos n)) (some (pos m)) h k = ground arith
less-rank none (some (negsuc m)) h k = absurd k
less-rank (some (pos n)) (some (negsuc m)) h k = absurd k
less-rank (some (negsuc n)) b h k = absurd h

-- By rank, then by count, then by score.
abbrev ahead : ℕ → ℕ → ℕ → ℕ → Bool → Bool
ahead r c r' c' higher =
    if not (r == r') then ltb r' r else if not (c == c') then ltb c' c else higher

ahead_trans :
    (r c r' c' r'' c'' : ℕ) (x y z : Bool)
    → (x ≡ false → y ≡ false → z ≡ false)
    → ahead r c r' c' x ≡ false
    → ahead r' c' r'' c'' y ≡ false
    → ahead r c r'' c'' z ≡ false
ahead_trans r c r' c' r'' c'' x y z t h k = ground arith

better-ahead :
    (a b : TitleEvent)
    → IsRanked a
    → IsRanked b
    → better_chapter a b
      ≡ ahead
          (rank a.latest_chapter)
          a.chapter_count
          (rank b.latest_chapter)
          b.chapter_count
          (lower b.score a.score)
unfolding better_chapter
better-ahead a b (h, p) (k, q) =
    rw
      (
        same-rank a.latest_chapter b.latest_chapter h k,
        less-rank b.latest_chapter a.latest_chapter k h,
      )
      refl

-- A match that is no better than another that is no better than a third is no better than the third.
pub better_chapter_trans :
    (a b c : TitleEvent)
    → IsRanked a
    → IsRanked b
    → IsRanked c
    → better_chapter a b ≡ false
    → better_chapter b c ≡ false
    → better_chapter a c ≡ false
better_chapter_trans a b c ha hb hc h k =
    let ab = sym (better-ahead a b ha hb) ∙ h in
    let bc = sym (better-ahead b c hb hc) ∙ k in
    better-ahead a c ha hc
    ∙ ahead_trans (rank a.latest_chapter) a.chapter_count (rank b.latest_chapter) b.chapter_count
        (rank c.latest_chapter) c.chapter_count (lower b.score a.score) (lower c.score b.score)
        (lower c.score a.score) (AtMost-trans a.score b.score c.score hb.1) ab bc

ahead_asymm :
    (r c r' c' : ℕ) (x y : Bool)
    → (x ≡ true → y ≡ false)
    → ahead r c r' c' x ≡ true
    → ahead r' c' r c y ≡ false
ahead_asymm r c r' c' x y t h = ground arith

pub better_chapter_asymm :
    (a b : TitleEvent)
    → IsRanked a
    → IsRanked b
    → better_chapter a b ≡ true
    → better_chapter b a ≡ false
better_chapter_asymm a b ha hb h =
    better-ahead b a hb ha
    ∙ ahead_asymm (rank a.latest_chapter) a.chapter_count (rank b.latest_chapter) b.chapter_count
        (lower b.score a.score) (lower a.score b.score) (AtMost-Below b.score a.score)
        (sym (better-ahead a b ha hb) ∙ h)

same_refl : (o : Option ℤ) → same_chapter_number o o ≡ true
same_refl none = refl
same_refl (some (pos n)) = ground arith
same_refl (some (negsuc n)) = ground arith

pub better_chapter_irrefl : (a : TitleEvent) → better_chapter a a ≡ false
unfolding better_chapter
better_chapter_irrefl a = let equal = same_refl a.latest_chapter in ground arith
