-- ===== src/AuditLogger/Restart.antt =====
-- A logger that is made anew from its file.
use liop.Common.{
  String, ◌≡◌, refl, sym, ap, ◌∙◌, true, none, some, List, [], ◌∷◌, ◌++◌, All, filter,
  text_equality,
}
use mathlib.Core.List.{append_assoc, append-nil}
use liop.AuditLogger.{
  Platform, Context, AuditRecordParams, AuditEntry, Logger, genesis_hash, init, load_lines,
  partial_entry, seal, record_execution,
}
use liop.AuditLogger.Chain.{last_hash, record_all}

-- The lines that `JSON.stringify` writes for the entries are not blank, and `JSON.parse` reads the
-- entries back.
abbrev pub ReadsBack : Platform → List AuditEntry → Type 0
ReadsBack p es = All (λ e. (p.parse (p.stringify e) ≡ e) × (p.is_line (p.stringify e) ≡ true)) es

module _ (p : Platform) where
  abbrev pub lines_of : List AuditEntry → List String
  lines_of [] = []
  lines_of (e ∷ es) = p.stringify e ∷ lines_of es

  lines_of-append :
      (xs : List AuditEntry) (e : AuditEntry)
      → lines_of (xs ++ e ∷ []) ≡ lines_of xs ++ p.stringify e ∷ []
  lines_of-append [] e = refl
  lines_of-append (x ∷ xs) e = ap (λ t. p.stringify x ∷ t) (lines_of-append xs e)

  -- The file holds a line for each entry.
  pub record IsMirrored (l : Logger) : Type 0 where
    pub file : l.file ≡ some (lines_of l.entries)
    pub last : l.last_entry_hash ≡ last_hash genesis_hash l.entries

  last_hash-snoc :
      (prev : String) (es : List AuditEntry) (e : AuditEntry)
      → last_hash prev (es ++ e ∷ []) ≡ e.entry_hash
  last_hash-snoc prev [] e = refl
  last_hash-snoc prev (x ∷ es) e = last_hash-snoc x.entry_hash es e

  record_execution-IsMirrored :
      (c : Context) (params : AuditRecordParams) (l : Logger)
      → IsMirrored l
      → IsMirrored (record_execution p c params l).0
  unfolding record_execution
  record_execution-IsMirrored c params l m =
      let e : AuditEntry = seal p (partial_entry p c params l.last_entry_hash) in
      record {
        file = rw m.file (ap some (sym (lines_of-append l.entries e)));
        last = sym (last_hash-snoc genesis_hash l.entries e);
      }

  record_all-IsMirrored :
      (calls : List (Context × AuditRecordParams)) (l : Logger)
      → IsMirrored l
      → IsMirrored (record_all p calls l)
  unfolding record_all
  record_all-IsMirrored [] l m = m
  record_all-IsMirrored ((c, params) ∷ calls) l m =
      record_all-IsMirrored calls _ (record_execution-IsMirrored c params l m)

  filter-lines_of :
      (es : List AuditEntry) → ReadsBack p es → filter p.is_line (lines_of es) ≡ lines_of es
  unfolding filter
  filter-lines_of [] h = refl
  filter-lines_of (e ∷ es) ((_, line), h) = rw (line, filter-lines_of es h)

  load_lines_of :
      (es : List AuditEntry) (l : Logger)
      → ReadsBack p es
      → load_lines p (lines_of es) l
        ≡ record l { entries = l.entries ++ es; last_entry_hash = last_hash l.last_entry_hash es }
  unfolding load_lines
  load_lines_of [] l h = λ i. record l { entries = sym (append-nil l.entries) i }
  load_lines_of (e ∷ es) l ((same, _), h) =
      let l' : AuditEntry → Logger =
        λ x. record l { entries = l.entries ++ x ∷ []; last_entry_hash = x.entry_hash } in
      ap (λ x. load_lines p (lines_of es) (l' x)) same ∙ load_lines_of es (l' e) h ∙ λ i. record l {
        entries = append_assoc l.entries (e ∷ []) es i;
        last_entry_hash = last_hash e.entry_hash es;
      }

  init-IsMirrored : (l : Logger) → IsMirrored l → ReadsBack p l.entries → init p (some l.file) ≡ l
  unfolding init
  init-IsMirrored l m h =
      let empty : Logger = record {
        entries = [];
        last_entry_hash = genesis_hash;
        file = some (lines_of l.entries);
      } in
      ap (λ f. init p (some f)) m.file
      ∙ rw (filter-lines_of l.entries h) (load_lines_of l.entries empty h)
      ∙ λ i. record { entries = l.entries; last_entry_hash = sym m.last i; file = sym m.file i }

  -- A logger that started on no file and recorded any calls, of which the platform reads the entries
  -- back, is found again from its file: the same entries, last hash and file.
  pub restart :
      (calls : List (Context × AuditRecordParams))
      → ReadsBack p (record_all p calls (init p (some none))).entries
      → init p (some (record_all p calls (init p (some none))).file)
        ≡ record_all p calls (init p (some none))
  unfolding init
  restart calls h =
      init-IsMirrored (record_all p calls (init p (some none)))
        (record_all-IsMirrored calls (init p (some none)) (record { file = refl; last = refl })) h
