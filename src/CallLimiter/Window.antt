-- ===== src/CallLimiter/Window.antt =====
-- What a sliding window knows of the calls it let through.
use liop.Common.{
  ℕ, ◌+◌, ◌≤◌, ◌<◌, ◌≡◌, refl, ◌&&◌, List, [], ◌∷◌, ◌++◌, arith, length, filter, ltb, leb,
  Bool-cases, inl, inr,
}
use liop.CallLimiter.{evict}

-- The number of times that are still active at `now`.
abbrev pub recent : ℕ → ℕ → List ℕ → ℕ
recent w now ts = length (evict w now ts)

-- The number of times in the window that starts at `a`.
abbrev pub within : ℕ → ℕ → List ℕ → ℕ
within w a ts = length (filter (λ t. leb a t && ltb t (a + w)) ts)

recent-evict :
    (w now later : ℕ) (ts : List ℕ)
    → now ≤ later
    → recent w later (evict w now ts) ≡ recent w later ts
unfolding filter
recent-evict w now later [] h = refl
recent-evict w now later (t ∷ ts) h = ground (arith, recent-evict w now later ts h)

recent-push : (w now t : ℕ) (ts : List ℕ) → recent w now (ts ++ t ∷ []) ≡ recent w now (t ∷ ts)
unfolding filter
recent-push w now t [] = refl
recent-push w now t (u ∷ ts) = ground (arith, recent-push w now t ts)

within-le : (w a t : ℕ) (ts : List ℕ) → t < a + w → within w a ts ≤ recent w t ts
unfolding filter
within-le w a t [] h = omega arith
within-le w a t (u ∷ ts) h = ground (arith, within-le w a t ts h)

-- The calls `history`, the last at `last` at the latest, are those of which the window keeps the active
-- ones, and no window of time holds more than `most` of them.
pub record Tracks (w most last : ℕ) (history window : List ℕ) : Type 0 where
  pub keeps : (now : ℕ) → last ≤ now → recent w now history ≡ recent w now window
  pub sparse : (a : ℕ) → within w a history ≤ most

pub Tracks-empty : (w most : ℕ) → Tracks w most 0 [] []
unfolding filter
Tracks-empty w most = record { keeps = λ now h. refl; sparse = λ a. omega arith }

module _ {w most last : ℕ} {history window : List ℕ} (t : Tracks w most last history window) where
  pub Tracks-later : (now : ℕ) → last ≤ now → Tracks w most now history window
  Tracks-later now h = record { keeps = λ n k. t.keeps n (omega arith); sparse = t.sparse }

  pub Tracks-evict : (now : ℕ) → last ≤ now → Tracks w most now history (evict w now window)
  Tracks-evict now h = record {
    keeps = λ n k. omega (arith, t.keeps n (omega arith), recent-evict w now n window k);
    sparse = t.sparse;
  }

  sparse-push :
      (now a : ℕ) → last ≤ now → recent w now window < most → within w a (now ∷ history) ≤ most
  unfolding filter
  sparse-push now a h k = elim (Bool-cases (ltb now (a + w))) [
    | inl e ↦ ground (arith, t.sparse a, t.keeps now h, within-le w a now history)
    | inr e ↦ ground (arith, t.sparse a)
  ]

  keeps-push :
      (now later : ℕ)
      → last ≤ later
      → recent w later (now ∷ history) ≡ recent w later (now ∷ window)
  unfolding filter
  keeps-push now later h = ground (arith, t.keeps later h)

pub Tracks-push :
    {w most last : ℕ} {history window : List ℕ} (t : Tracks w most last history window) (now : ℕ)
    → last ≤ now
    → length (evict w now window) < most
    → Tracks w most now (now ∷ history) (evict w now window ++ now ∷ [])
Tracks-push {w = w} {history = history} {window = window} t now h k =
    let kept = evict w now window in
    record {
      keeps =
          λ n j. omega (arith, keeps-push (Tracks-evict t now h) now n j, recent-push w n now kept);
      sparse = λ a. sparse-push t now a h k;
    }
