-- ===== src/MigrationJob/Life/Shape.antt =====
-- About the parts that the steps of a job change (internal/api/migration_jobs.go).
use makidoku.Common.{
  ℕ, zero, suc, ◌+◌, ◌≤◌, ◌≡◌, refl, ap, inl, inr, Bool, some, List, [], ◌∷◌, length, ltb, drop,
  count_if, get_elem?, if◌then◌else◌, All, Bool-cases, arith, length-append, length-drop, map,
}
use makidoku.Common.Tables.{update_rows}
use makidoku.MigrationJob.Life.{Title, Frame, Subscriber, modify, send}

abbrev pub weight : Bool → ℕ
weight b = if b then 1 else 0

pub count-modify :
    (p : Title → Bool) (f : Title → Title) (i : ℕ) (ts : List Title) {t : Title}
    → get_elem? ts i ≡ some t
    → count_if p (modify i f ts) + weight (p t) ≡ count_if p ts + weight (p (f t))
count-modify p f i [] found = absurd cc
count-modify p f zero (x ∷ xs) {t} found =
    let same : x ≡ t = ground arith in rw (← same) (ground arith)
count-modify p f (suc i) (x ∷ xs) {t} found =
    let rest = count-modify p f i xs {t = t} found in ground arith

pub All-modify {ℓ} :
    (P : Title → Type ℓ) (f : Title → Title) (i : ℕ) (ts : List Title)
    → ((t : Title) → P t → P (f t))
    → All P ts
    → All P (modify i f ts)
All-modify P f i [] keeps h = tt
All-modify P f zero (x ∷ xs) keeps (hx, h) = (keeps x hx, h)
All-modify P f (suc i) (x ∷ xs) keeps (hx, h) = (hx, All-modify P f i xs keeps h)

pub All-get_elem? {ℓ} :
    (P : Title → Type ℓ) (i : ℕ) (ts : List Title) {t : Title}
    → All P ts
    → get_elem? ts i ≡ some t
    → P t
All-get_elem? P i [] h found = absurd cc
All-get_elem? P zero (x ∷ xs) {t} (hx, h) found = let same : x ≡ t = ground arith in rw (← same) hx
All-get_elem? P (suc i) (x ∷ xs) (hx, h) found = All-get_elem? P i xs h found

pub length-modify :
    (f : Title → Title) (i : ℕ) (ts : List Title) → length (modify i f ts) ≡ length ts
length-modify f i [] = refl
length-modify f zero (x ∷ xs) = refl
length-modify f (suc i) (x ∷ xs) = ap suc (length-modify f i xs)

pub count-length : (p : Title → Bool) (ts : List Title) → count_if p ts ≤ length ts
count-length p [] = omega arith
count-length p (t ∷ ts) = let rest = count-length p ts in ground arith

-- No buffer holds more frames than `n`.
abbrev pub AtMost : ℕ → List Subscriber → Type 0
AtMost n = All (λ s. length s.channel ≤ n)

send-length :
    (cap : ℕ) (frame : Frame) (s : Subscriber)
    → length (send cap frame s).channel ≤ length s.channel + 1
send-length cap frame s = elim (Bool-cases (ltb (length s.channel) cap)) [
  | inl e ↦ rw e (omega (arith, length-append s.channel (frame ∷ [])))
  | inr e ↦ rw e (omega arith)
]

pub AtMost-send :
    (cap : ℕ) (frame : Frame) (n : ℕ) (ss : List Subscriber)
    → AtMost n ss
    → AtMost (n + 1) (map (send cap frame) ss)
AtMost-send cap frame n [] h = tt
AtMost-send cap frame n (s ∷ ss) (hs, h) =
    (omega (arith, send-length cap frame s), AtMost-send cap frame n ss h)

pub AtMost-drop :
    (n : ℕ) (p : Subscriber → Bool) (ss : List Subscriber)
    → AtMost n ss
    → AtMost n (update_rows p (λ s. record s { channel = drop 1 s.channel }) ss)
AtMost-drop n p [] h = tt
AtMost-drop n p (s ∷ ss) (hs, h) = elim (Bool-cases (p s)) [
  | inl e ↦ rw e (omega (arith, length-drop 1 s.channel), AtMost-drop n p ss h)
  | inr e ↦ rw e (hs, AtMost-drop n p ss h)
]
