-- ===== src/Sanitizer/Shared.antt =====
-- Outputs in which an object may stand twice (sdks/typescript/src/server/output-sanitizer.ts).
use liop.Common.{ℕ, ◌≡◌, refl, ap, Bool, false, List, ◌∷◌, any, eqb, if◌then◌else◌}
use liop.Value.{Value, Elements, Entries, array, object, no_elements, element, no_entries, entry}
use liop.Sanitizer.{
  Decimals, OutputSanitizerConfig, sanitize_output, sanitize_elements, sanitize_entries,
}

-- The arrays and objects of an output, each with its identity. A leaf is another value, or one of which
-- the arrays and objects stand nowhere else.
mutual
  pub data Node (F : Type 0) : Type 0 where
    leaf : Value F → Node F
    array_at : ℕ → Nodes F → Node F
    object_at : ℕ → Fields F → Node F

  pub data Nodes (F : Type 0) : Type 0 where
    no_nodes : Nodes F
    node : Node F → Nodes F → Nodes F

  pub data Fields (F : Type 0) : Type 0 where
    no_fields : Fields F
    field_at : List ℕ → Node F → Fields F → Fields F

-- `seen.has(node)`
abbrev pub has : List ℕ → ℕ → Bool
has seen l = any (λ m. eqb m l) seen

module _ {F : Type 0} where
  -- The value without the identities.
  unfoldable mutual
    pub erase : Node F → Value F
    erase (leaf v) = v
    erase (array_at l ns) = array (erase_nodes ns)
    erase (object_at l fs) = object (erase_fields fs)

    erase_nodes : Nodes F → Elements F
    erase_nodes no_nodes = no_elements
    erase_nodes (node n ns) = element (erase n) (erase_nodes ns)

    erase_fields : Fields F → Entries F
    erase_fields no_fields = no_entries
    erase_fields (field_at k n fs) = entry k (erase n) (erase_fields fs)

  -- The identities in a node, before those of some others.
  unfoldable mutual
    pub identities : List ℕ → Node F → List ℕ
    identities s (leaf v) = s
    identities s (array_at l ns) = identities_nodes (l ∷ s) ns
    identities s (object_at l fs) = identities_fields (l ∷ s) fs

    identities_nodes : List ℕ → Nodes F → List ℕ
    identities_nodes s no_nodes = s
    identities_nodes s (node n ns) = identities_nodes (identities s n) ns

    identities_fields : List ℕ → Fields F → List ℕ
    identities_fields s no_fields = s
    identities_fields s (field_at k n fs) = identities_fields (identities s n) fs

  -- No array or object of a node stands twice in it, or is one of some others.
  abbrev mutual
    pub Once : List ℕ → Node F → Type 0
    Once s (leaf v) = Unit
    Once s (array_at l ns) = (has s l ≡ false) × OnceNodes (l ∷ s) ns
    Once s (object_at l fs) = (has s l ≡ false) × OnceFields (l ∷ s) fs

    OnceNodes : List ℕ → Nodes F → Type 0
    OnceNodes s no_nodes = Unit
    OnceNodes s (node n ns) = Once s n × OnceNodes (identities s n) ns

    OnceFields : List ℕ → Fields F → Type 0
    OnceFields s no_fields = Unit
    OnceFields s (field_at k n fs) = Once s n × OnceFields (identities s n) fs

module _ {F : Type 0} (d : Decimals F) (config : OutputSanitizerConfig) where
  -- `walk`, with what it has seen: an array or an object that it has is returned as it is.
  unfoldable mutual
    unfolding sanitize_output

    pub walk : List ℕ → Node F → List ℕ × Node F
    walk seen (leaf v) = (seen, leaf (sanitize_output d config v))
    walk seen (array_at l ns) =
        let inner = walk_nodes (l ∷ seen) ns in
        if has seen l then (seen, array_at l ns) else (inner.0, array_at l inner.1)
    walk seen (object_at l fs) =
        let inner = walk_fields (l ∷ seen) fs in
        if has seen l then (seen, object_at l fs) else (inner.0, object_at l inner.1)

    walk_nodes : List ℕ → Nodes F → List ℕ × Nodes F
    walk_nodes seen no_nodes = (seen, no_nodes)
    walk_nodes seen (node n ns) =
        let first = walk seen n in let rest = walk_nodes first.0 ns in (rest.0, node first.1 rest.1)

    walk_fields : List ℕ → Fields F → List ℕ × Fields F
    walk_fields seen no_fields = (seen, no_fields)
    walk_fields seen (field_at k n fs) =
        let first = walk seen n in
        let rest = walk_fields first.0 fs in (rest.0, field_at k first.1 rest.1)

  mutual
    unfolding walk identities erase sanitize_output

    walk-identities : (s : List ℕ) (n : Node F) → Once s n → (walk s n).0 ≡ identities s n
    walk-identities s (leaf v) h = refl
    walk-identities s (array_at l ns) (new, h) = rw new (nodes-identities (l ∷ s) ns h)
    walk-identities s (object_at l fs) (new, h) = rw new (fields-identities (l ∷ s) fs h)

    nodes-identities :
        (s : List ℕ) (ns : Nodes F) → OnceNodes s ns → (walk_nodes s ns).0 ≡ identities_nodes s ns
    nodes-identities s no_nodes h = refl
    nodes-identities s (node n ns) (h, hs) =
        rw (walk-identities s n h) (nodes-identities (identities s n) ns hs)

    fields-identities :
        (s : List ℕ) (fs : Fields F)
        → OnceFields s fs
        → (walk_fields s fs).0 ≡ identities_fields s fs
    fields-identities s no_fields h = refl
    fields-identities s (field_at k n fs) (h, hs) =
        rw (walk-identities s n h) (fields-identities (identities s n) fs hs)

  mutual
    unfolding walk identities erase sanitize_output

    erase-walk :
        (s : List ℕ) (n : Node F)
        → Once s n
        → erase (walk s n).1 ≡ sanitize_output d config (erase n)
    erase-walk s (leaf v) h = refl
    erase-walk s (array_at l ns) (new, h) = rw new (ap array (erase-nodes (l ∷ s) ns h))
    erase-walk s (object_at l fs) (new, h) = rw new (ap object (erase-fields (l ∷ s) fs h))

    erase-nodes :
        (s : List ℕ) (ns : Nodes F)
        → OnceNodes s ns
        → erase_nodes (walk_nodes s ns).1 ≡ sanitize_elements d config (erase_nodes ns)
    erase-nodes s no_nodes h = refl
    erase-nodes s (node n ns) (h, hs) =
        rw (walk-identities s n h) (cc (erase-walk s n h, erase-nodes (identities s n) ns hs))

    erase-fields :
        (s : List ℕ) (fs : Fields F)
        → OnceFields s fs
        → erase_fields (walk_fields s fs).1 ≡ sanitize_entries d config (erase_fields fs)
    erase-fields s no_fields h = refl
    erase-fields s (field_at k n fs) (h, hs) =
        rw (walk-identities s n h) (cc (erase-walk s n h, erase-fields (identities s n) fs hs))
