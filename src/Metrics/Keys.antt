-- ===== src/Metrics/Keys.antt =====
-- Label sets that share a key.
use text.Mathlib.TextLemmas.{append_assoc}
use liop.Common.{String, ◌≡◌, some, [], ◌∷◌}
use liop.Common.Text.{◌+++◌, join}
use liop.Metrics.{Engine, Counter, labels_to_key, get}

module _ (g : Engine) where
  -- A label set of two entries, and one of a single entry whose value spells the second entry out,
  -- read the same sample of every counter, where the engine's sort keeps their order.
  pub get_collision :
      (k v k' v' : String) (c : Counter)
      → g.sort_entries ((k, v) ∷ (k', v') ∷ []) ≡ (k, v) ∷ (k', v') ∷ []
      → g.sort_entries ((k, v +++ "|" +++ k' +++ ":" +++ v') ∷ [])
        ≡ (k, v +++ "|" +++ k' +++ ":" +++ v') ∷ []
      → get g (some ((k, v) ∷ (k', v') ∷ [])) c
        ≡ get g (some ((k, v +++ "|" +++ k' +++ ":" +++ v') ∷ [])) c
  unfolding get labels_to_key join
  get_collision k v k' v' c p q = rw (p, q) (simp append_assoc)
