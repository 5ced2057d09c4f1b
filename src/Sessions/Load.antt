-- ===== src/Sessions/Load.antt =====
-- A hash that the list holds stays in it through loads and revocations.
use liop.Common.{
  ℕ, ◌≤◌, ◌≡◌, ◌≢◌, ◌⊎◌, inl, inr, refl, sym, Bool, true, false, ◌||◌, Option, none, some, List, [],
  ◌∷◌, ◌++◌, if◌then◌else◌, leb, leb→le, arith, includes,
}
use mathlib.Core.Path.{subst}
use liop.Common.Bytes.{bytes_eq, bytes_eq_iff, bytes_equality}
use liop.Validators.{lower}
use liop.Sessions.{
  File, Store, no_path, absent, present, Server, Config, add, add_items, write_file, reread,
  load_from, load_revocation_list, persist, revoke_token_hash, revoke_token, token_hash, lowered,
}

includes-snoc :
    (xs : List (List ℕ)) (x h : List ℕ)
    → includes (xs ++ x ∷ []) h ≡ (includes xs h || bytes_eq x h)
includes-snoc [] x h = ground arith
includes-snoc (y ∷ ys) x h = ground (arith, includes-snoc ys x h)

add_keeps :
    (x h : List ℕ) (xs : List (List ℕ)) → includes xs h ≡ true → includes (add x xs) h ≡ true
add_keeps x h xs e = ground (arith, includes-snoc xs x h)

add_holds : (x : List ℕ) (xs : List (List ℕ)) → includes (add x xs) x ≡ true
add_holds x xs = ground (arith, includes-snoc xs x x, bytes_eq_iff x x)

-- The list that a file has, if it is read, holds the hash.
abbrev pub Lists : List ℕ → Option (List (Option (List ℕ))) → Type 0
Lists h none = Unit
Lists h (some items) = includes (add_items items []) h ≡ true

abbrev pub KeptFile : List ℕ → ℕ → Store → Type 0
KeptFile h last no_path = Unit
KeptFile h last absent = Unit
KeptFile h last (present f) = (f.mtime ≤ last) ⊎ Lists h f.items

-- The hash is revoked, and the file is not read again or holds it.
abbrev pub Kept : List ℕ → Server → Type 0
Kept h s = (includes s.revoked h ≡ true) × KeptFile h s.last_load s.store

module _ (h : List ℕ) (writable : Bool) (now : ℕ) where
  reread-Kept :
      (s : Server) (f : File) (o : Option (List (Option (List ℕ))))
      → f.items ≡ o
      → s.store ≡ present f
      → includes s.revoked h ≡ true
      → Lists h o
      → Kept h (reread s f o)
  reread-Kept s f none e p held listed =
      (held, subst (KeptFile h s.last_load) (sym p) (inr (subst (Lists h) (sym e) tt)))
  reread-Kept s f (some items) e p held listed =
      (listed, subst (KeptFile h f.mtime) (sym p) (inl (omega arith)))

  present-Kept :
      (b : Bool) (s : Server) (f : File)
      → leb f.mtime s.last_load ≡ b
      → s.store ≡ present f
      → Kept h s
      → Kept h (if b then s else reread s f f.items)
  present-Kept true s f e p kept = kept
  present-Kept false s f e p (held, file) = elim (subst (KeptFile h s.last_load) p file) [
    | inl old ↦ absurd (ground arith)
    | inr listed ↦ reread-Kept s f f.items refl p held listed
  ]

  abbrev created : Bool → Server → Server
  created b s = if b then record s { store = write_file true now [] absent; last_load = now } else s

  absent-Kept : (b : Bool) (s : Server) → Kept h s → Kept h (created b s)
  absent-Kept true s (held, file) = (held, inl (omega arith))
  absent-Kept false s kept = kept

  from-Kept :
      (s : Server) (store : Store)
      → s.store ≡ store
      → Kept h s
      → Kept h (load_from writable now s store)
  from-Kept s no_path p kept = kept
  from-Kept s absent p kept = absent-Kept writable s kept
  from-Kept s (present f) p kept = present-Kept (leb f.mtime s.last_load) s f refl p kept

  pub load-Kept : (s : Server) → Kept h s → Kept h (load_revocation_list writable now s)
  unfolding load_revocation_list
  load-Kept s kept = from-Kept s s.store refl kept

  -- After a load the file is not read again, or cannot be.
  abbrev Settled : Server → Type 0
  Settled s = KeptFile h s.last_load s.store

  reread-Settled :
      (s : Server) (f : File) (o : Option (List (Option (List ℕ))))
      → f.items ≡ o
      → s.store ≡ present f
      → Settled (reread s f o)
  reread-Settled s f none e p =
      subst (KeptFile h s.last_load) (sym p) (inr (subst (Lists h) (sym e) tt))
  reread-Settled s f (some items) e p = subst (KeptFile h f.mtime) (sym p) (inl (omega arith))

  present-Settled :
      (b : Bool) (s : Server) (f : File)
      → leb f.mtime s.last_load ≡ b
      → s.store ≡ present f
      → Settled (if b then s else reread s f f.items)
  present-Settled true s f e p =
      subst (KeptFile h s.last_load) (sym p) (inl (leb→le f.mtime s.last_load e))
  present-Settled false s f e p = reread-Settled s f f.items refl p

  absent-Settled : (b : Bool) (s : Server) → s.store ≡ absent → Settled (created b s)
  absent-Settled true s p = inl (omega arith)
  absent-Settled false s p = subst (KeptFile h s.last_load) (sym p) tt

  from-Settled :
      (s : Server) (store : Store) → s.store ≡ store → Settled (load_from writable now s store)
  from-Settled s no_path p = subst (KeptFile h s.last_load) (sym p) tt
  from-Settled s absent p = absent-Settled writable s p
  from-Settled s (present f) p = present-Settled (leb f.mtime s.last_load) s f refl p

  persist-Kept :
      (b : Bool) (s : Server) (store : Store)
      → s.store ≡ store
      → Kept h s
      → Kept h (persist b now s store)
  persist-Kept b s no_path p kept = kept
  persist-Kept true s absent p (held, file) = (held, inl (omega arith))
  persist-Kept true s (present f) p (held, file) = (held, inl (omega arith))
  persist-Kept false s absent p kept = kept
  persist-Kept false s (present f) p kept = kept

  abbrev added : List ℕ → Server → Server
  added x s = record s { revoked = add x s.revoked }

  pub revoke_token_hash-Kept :
      (x : List ℕ) (s : Server) → Kept h s → Kept h (revoke_token_hash writable now x s)
  unfolding revoke_token_hash
  revoke_token_hash-Kept [] s kept = kept
  revoke_token_hash-Kept (c ∷ cs) s kept =
      let loaded = load_revocation_list writable now s in
      let still = load-Kept s kept in
      persist-Kept writable (added (lowered (c ∷ cs)) loaded) loaded.store refl
        (add_keeps (lowered (c ∷ cs)) h loaded.revoked still.0, still.1)

  -- The hash that is revoked, in lower case.
  revoked-Kept :
      (c : ℕ) (cs : List ℕ) (s : Server)
      → lowered (c ∷ cs) ≡ h
      → Kept h (revoke_token_hash writable now (c ∷ cs) s)
  unfolding revoke_token_hash load_revocation_list
  revoked-Kept c cs s e =
      let loaded = load_revocation_list writable now s in
      persist-Kept writable (added (lowered (c ∷ cs)) loaded) loaded.store refl (
        subst (λ x. includes (add (lowered (c ∷ cs)) loaded.revoked) x ≡ true) e
            (add_holds (lowered (c ∷ cs)) loaded.revoked),
        from-Settled s s.store refl,
      )

lower_twice : (c : ℕ) → lower (lower c) ≡ lower c
lower_twice c = ground arith

lowered_twice : (h : List ℕ) → lowered (lowered h) ≡ lowered h
lowered_twice [] = refl
lowered_twice (c ∷ cs) = cc (lower_twice c, lowered_twice cs)

module _ (c : Config) (writable : Bool) (now : ℕ) where
  hash-Kept :
      (h x : List ℕ) (s : Server)
      → x ≢ []
      → lowered x ≡ h
      → Kept h (revoke_token_hash writable now x s)
  hash-Kept h [] s some_hash e = absurd (some_hash refl)
  hash-Kept h (y ∷ ys) s some_hash e = revoked-Kept h writable now y ys s e

  -- Whatever the disk does, the hash of a token that is revoked is in the list, to stay.
  pub revoke_token-Kept :
      (token : List ℕ) (s : Server)
      → token ≢ []
      → token_hash c token ≢ []
      → Kept (token_hash c token) (revoke_token c writable now token s)
  unfolding revoke_token
  revoke_token-Kept [] s some_token some_hash = absurd (some_token refl)
  revoke_token-Kept (x ∷ xs) s some_token some_hash =
      hash-Kept (token_hash c (x ∷ xs)) (token_hash c (x ∷ xs)) s some_hash
        (lowered_twice (c.digest (x ∷ xs)))
