-- ===== src/AuditLogger/Chain.antt =====
-- What `verifyIntegrity` accepts, where it stops, and that `recordExecution` keeps a log acceptable.
use liop.Common.{
  ℕ, suc, ◌+◌, String, ◌≡◌, refl, ◌≢◌, ◌⊎◌, ◌↔◌, sym, ap, ◌∙◌, List, [], ◌∷◌, ◌++◌, arith, eq_iff,
  length, ◌==◌, text_equality, if◌then◌else◌, length-append,
}
use liop.AuditLogger.{
  Platform, Context, AuditRecordParams, AuditEntry, Logger, valid, broken, broken_chain,
  hash_mismatch, genesis_hash, partial_entry, seal, record_execution, verify_from, verify_integrity,
}

module _ (p : Platform) where
  -- Each entry holds the hash of the one before it and its own.
  abbrev pub IsChain : String → List AuditEntry → Type 0
  IsChain prev [] = Unit
  IsChain prev (e ∷ es) =
      (e.partial.prev_entry_hash ≡ prev)
      × (p.compute_entry_hash e.partial ≡ e.entry_hash)
      × IsChain e.entry_hash es

abbrev pub last_hash : String → List AuditEntry → String
last_hash prev [] = prev
last_hash prev (e ∷ es) = last_hash e.entry_hash es

module _ (p : Platform) where
  verify_from-valid :
      (total i : ℕ) (prev : String) (es : List AuditEntry)
      → IsChain p prev es
      → verify_from p total i prev es ≡ valid total
  unfolding verify_from
  verify_from-valid total i prev [] h = refl
  verify_from-valid total i prev (e ∷ es) (a, b, h) = ground (
    arith,
    eq_iff e.partial.prev_entry_hash prev,
    eq_iff (p.compute_entry_hash e.partial) e.entry_hash,
    verify_from-valid total (i + 1) e.entry_hash es h,
  )

  verify_from_sound :
      (total i : ℕ) (prev : String) (es : List AuditEntry)
      → verify_from p total i prev es ≡ valid total
      → IsChain p prev es
  unfolding verify_from
  verify_from_sound total i prev [] h = tt
  verify_from_sound total i prev (e ∷ es) h = ground (
    arith,
    eq_iff e.partial.prev_entry_hash prev,
    eq_iff (p.compute_entry_hash e.partial) e.entry_hash,
    verify_from_sound total (i + 1) e.entry_hash es,
  )

  -- `verifyIntegrity` answers that a log is valid exactly when its entries form a chain from the
  -- genesis hash.
  pub verify_integrity_iff :
      (l : Logger)
      → (verify_integrity p l ≡ valid (length l.entries)) ↔ IsChain p genesis_hash l.entries
  unfolding verify_integrity
  verify_integrity_iff l = (
    verify_from_sound (length l.entries) 0 genesis_hash l.entries,
    verify_from-valid (length l.entries) 0 genesis_hash l.entries,
  )

  IsChain-snoc :
      (prev : String) (es : List AuditEntry) (e : AuditEntry)
      → IsChain p prev es
      → e.partial.prev_entry_hash ≡ last_hash prev es
      → p.compute_entry_hash e.partial ≡ e.entry_hash
      → IsChain p prev (es ++ e ∷ []) × (last_hash prev (es ++ e ∷ []) ≡ e.entry_hash)
  IsChain-snoc prev [] e h a b = ((a, b, tt), refl)
  IsChain-snoc prev (x ∷ es) e (c, d, h) a b =
      let (chain, last) = IsChain-snoc x.entry_hash es e h a b in ((c, d, chain), last)

  -- The entries form a chain, and the logger holds the hash of the last one.
  pub record IsSound (l : Logger) : Type 0 where
    pub chain : IsChain p genesis_hash l.entries
    pub last : l.last_entry_hash ≡ last_hash genesis_hash l.entries

  pub record_execution-IsSound :
      (c : Context) (params : AuditRecordParams) (l : Logger)
      → IsSound l
      → IsSound (record_execution p c params l).0
  unfolding record_execution partial_entry
  record_execution-IsSound c params l s =
      let (chain, last) =
        IsChain-snoc genesis_hash l.entries (seal p (partial_entry p c params l.last_entry_hash))
          s.chain s.last refl in
      record { chain = chain; last = sym last }

  -- A sequence of calls of `recordExecution`.
  unfoldable pub record_all : List (Context × AuditRecordParams) → Logger → Logger
  record_all [] l = l
  record_all ((c, params) ∷ calls) l = record_all calls (record_execution p c params l).0

  pub record_all-IsSound :
      (calls : List (Context × AuditRecordParams)) (l : Logger)
      → IsSound l
      → IsSound (record_all calls l)
  unfolding record_all
  record_all-IsSound [] l s = s
  record_all-IsSound ((c, params) ∷ calls) l s =
      record_all-IsSound calls _ (record_execution-IsSound c params l s)

  record_all-length :
      (calls : List (Context × AuditRecordParams)) (l : Logger)
      → length (record_all calls l).entries ≡ length l.entries + length calls
  unfolding record_all record_execution
  record_all-length [] l = omega arith
  record_all-length ((c, params) ∷ calls) l =
      let next : Logger = (record_execution p c params l).0 in
      omega (
        arith,
        record_all-length calls next,
        length-append l.entries (seal p (partial_entry p c params l.last_entry_hash) ∷ []),
      )

  -- Whatever is recorded in a sound log, `verifyIntegrity` accepts the log and counts every call.
  pub verify_integrity-record_all :
      (calls : List (Context × AuditRecordParams)) (l : Logger)
      → IsSound l
      → verify_integrity p (record_all calls l) ≡ valid (length l.entries + length calls)
  verify_integrity-record_all calls l s =
      (verify_integrity_iff (record_all calls l)).1 (record_all-IsSound calls l s).chain
      ∙ ap valid (record_all-length calls l)

  i_plus : (i n : ℕ) → i + 1 + n ≡ i + suc n
  i_plus i n = omega arith

  stops_at :
      (total i : ℕ) (prev : String) (es rest : List AuditEntry) (e : AuditEntry)
      → IsChain p prev es
      → verify_from p total i prev (es ++ e ∷ rest)
        ≡ verify_from p total (i + length es) (last_hash prev es) (e ∷ rest)
  unfolding verify_from
  stops_at total i prev [] rest e h = ap (λ j. verify_from p total j prev (e ∷ rest)) (omega arith)
  stops_at total i prev (x ∷ es) rest e (a, b, h) =
      let rest' = stops_at total (i + 1) x.entry_hash es rest e h in
      let shift =
        ap (λ j. verify_from p total j (last_hash x.entry_hash es) (e ∷ rest))
          (i_plus i (length es)) in
      ground (
        arith,
        eq_iff x.partial.prev_entry_hash prev,
        eq_iff (p.compute_entry_hash x.partial) x.entry_hash,
        rest',
        shift,
      )

  at_entry :
      (total n : ℕ) (prev : String) (rest : List AuditEntry) (e : AuditEntry)
      → (e.partial.prev_entry_hash ≢ prev) ⊎ (p.compute_entry_hash e.partial ≢ e.entry_hash)
      → verify_from p total (0 + n) prev (e ∷ rest)
        ≡ broken total n (if e.partial.prev_entry_hash == prev then hash_mismatch else broken_chain)
  unfolding verify_from
  at_entry total n prev rest e bad = ground (
    arith,
    eq_iff e.partial.prev_entry_hash prev,
    eq_iff (p.compute_entry_hash e.partial) e.entry_hash,
  )

  -- A log whose entries are in order up to one that does not hold the hash before it, or not its own,
  -- is refused at the index of that entry, with the reason.
  pub verify_integrity_broken :
      (l : Logger) (es rest : List AuditEntry) (e : AuditEntry)
      → l.entries ≡ es ++ e ∷ rest
      → IsChain p genesis_hash es
      → (e.partial.prev_entry_hash ≢ last_hash genesis_hash es)
        ⊎ (p.compute_entry_hash e.partial ≢ e.entry_hash)
      → verify_integrity p l
        ≡ broken (length l.entries) (length es) (
            if e.partial.prev_entry_hash == last_hash genesis_hash es
            then hash_mismatch
            else broken_chain)
  unfolding verify_integrity verify_from
  verify_integrity_broken l es rest e h c bad = rw h (
      stops_at (length (es ++ e ∷ rest)) 0 genesis_hash es rest e c
      ∙ at_entry (length (es ++ e ∷ rest)) (length es) (last_hash genesis_hash es) rest e bad)
