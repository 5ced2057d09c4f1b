-- ===== src/AuditLogger/Tamper.antt =====
-- What it takes to change a log and keep the hash of its last entry.
use mathlib.Core.List.{reverse, reverse_aux, reverse-reverse}
use native.Mathlib.Decide.{ℕ_discrete}
use liop.Common.{
  String, length, ◌≡◌, refl, ◌≢◌, ◌⊎◌, inl, inr, sym, ap, ◌∙◌, List, [], ◌∷◌, string_discrete,
}
use liop.AuditLogger.{
  Platform, PartialEntry, AuditEntry, AuditStatus, Logger, Context, AuditRecordParams, valid,
  genesis_hash, verify_integrity,
}
use liop.AuditLogger.Chain.{
  IsChain, IsSound, last_hash, record_all, record_all-IsSound, verify_integrity_iff,
}

AuditStatus-discrete : Discrete AuditStatus
AuditStatus-discrete = hlevel

PartialEntry-discrete : Discrete PartialEntry
PartialEntry-discrete = hlevel (ℕ_discrete, string_discrete, AuditStatus-discrete)

-- Two entries with one hash, or an entry that hashes to the genesis hash.
pub data Weakness (p : Platform) : Type 0 where
  collision :
      (a b : PartialEntry) → a ≢ b → p.compute_entry_hash a ≡ p.compute_entry_hash b → Weakness p
  preimage : (a : PartialEntry) → p.compute_entry_hash a ≡ genesis_hash → Weakness p

-- The chain, newest entry first.
abbrev top : List AuditEntry → String
top [] = genesis_hash
top (e ∷ es) = e.entry_hash

module _ (p : Platform) where
  abbrev Newest : List AuditEntry → Type 0
  Newest [] = Unit
  Newest (e ∷ es) =
      (e.partial.prev_entry_hash ≡ top es)
      × (p.compute_entry_hash e.partial ≡ e.entry_hash)
      × Newest es

  turn :
      (es acc : List AuditEntry)
      → IsChain p (top acc) es
      → Newest acc
      → Newest (reverse_aux es acc) × (top (reverse_aux es acc) ≡ last_hash (top acc) es)
  turn [] acc h k = (k, refl)
  turn (e ∷ es) acc (a, b, h) k = turn es (e ∷ acc) h (a, b, k)

  entry_eq : (x y : AuditEntry) → x.partial ≡ y.partial → x.entry_hash ≡ y.entry_hash → x ≡ y
  entry_eq x y a b = λ i. record { partial = a i; entry_hash = b i }

  Newest-eq :
      (xs ys : List AuditEntry) → Newest xs → Newest ys → top xs ≡ top ys → (xs ≡ ys) ⊎ Weakness p
  Newest-eq [] [] h k e = inl refl
  Newest-eq [] (y ∷ ys) h (a, b, k) e = inr (preimage y.partial (b ∙ sym e))
  Newest-eq (x ∷ xs) [] (a, b, h) k e = inr (preimage x.partial (b ∙ e))
  Newest-eq (x ∷ xs) (y ∷ ys) (a, b, h) (c, d, k) e =
      elim (PartialEntry-discrete x.partial y.partial) [
        | yes same ↦
            let tops : top xs ≡ top ys =
              sym a ∙ ap (λ (z : PartialEntry). z.prev_entry_hash) same ∙ c in
            elim (Newest-eq xs ys h k tops) [
              | inl rest ↦ inl (λ i. entry_eq x y same e i ∷ rest i)
              | inr w ↦ inr w
            ]
        | no apart ↦ inr (collision x.partial y.partial apart (b ∙ e ∙ sym d))
      ]

  same_chain :
      (xs ys : List AuditEntry)
      → IsChain p genesis_hash xs
      → IsChain p genesis_hash ys
      → last_hash genesis_hash xs ≡ last_hash genesis_hash ys
      → (xs ≡ ys) ⊎ Weakness p
  same_chain xs ys h k e =
      let (new_x, top_x) = turn xs [] h tt in
      let (new_y, top_y) = turn ys [] k tt in
      elim (Newest-eq (reverse xs) (reverse ys) new_x new_y (top_x ∙ e ∙ sym top_y)) [
        | inl same ↦ inl (sym (reverse-reverse xs) ∙ ap reverse same ∙ reverse-reverse ys)
        | inr w ↦ inr w
      ]

  -- Let a log be what `recordExecution` made of a sound one, with the hash of its last entry kept apart,
  -- and let another pass `verifyIntegrity`. If the other ends with that hash, it is the log that was
  -- recorded, or else two entries with one hash are shown, or one that hashes to the genesis hash.
  pub tamper_evident :
      (calls : List (Context × AuditRecordParams)) (l found : Logger)
      → IsSound p l
      → verify_integrity p found ≡ valid (length found.entries)
      → last_hash genesis_hash found.entries ≡ (record_all p calls l).last_entry_hash
      → (found.entries ≡ (record_all p calls l).entries) ⊎ Weakness p
  tamper_evident calls l found sound passes e =
      let recorded = record_all-IsSound p calls l sound in
      same_chain found.entries (record_all p calls l).entries
        ((verify_integrity_iff p found).0 passes) recorded.chain (e ∙ recorded.last)
