-- ===== src/Sessions/Gate.antt =====
-- When a call of `executeLogic` comes to the policies of its tool.
use liop.Common.{
  ℕ, ◌+◌, ◌≤◌, ◌≡◌, ◌↔◌, ◌⊎◌, refl, sym, ap, Bool, true, false, not, Option, none, some, List, [],
  ◌∷◌, if◌then◌else◌, arith, includes, String, text_equality,
}
use mathlib.Core.Path.{subst}
use liop.Common.Attempt.{Attempt, ok, fail, ◌>>◌, guard}
use liop.Common.Bytes.{bytes_equality}
use liop.Common.Dict
use liop.Sessions.{
  Config, Server, Session, Refusal, token_revoked, session_expired, is_expired,
  load_revocation_list, check_hash, proceed_with, proceed, proceed_if, authenticate, execute_logic,
}

-- The hash of a session is not in the list that is loaded for it.
abbrev pub NotRevoked : Bool → ℕ → Server → Option (List ℕ) → Type 0
NotRevoked writable now s none = Unit
NotRevoked writable now s (some []) = Unit
NotRevoked writable now s (some (x ∷ xs)) =
    includes (load_revocation_list writable now s).revoked (x ∷ xs) ≡ false

module _ (writable : Bool) (now : ℕ) (id : String) where
  expired_iff :
      (session : Session)
      → (is_expired now session ≡ false)
        ↔ ((session.created_at ≡ 0) ⊎ (now ≤ session.created_at + 3600000))
  expired_iff session = ground arith

  revoked_iff :
      (b : Bool) (k x : Session)
      → ((guard (not b) token_revoked >> ok k) ≡ ok x) ↔ ((b ≡ false) × (k ≡ x))
  revoked_iff true k x = ground arith
  revoked_iff false k x = ground arith

  hash_iff :
      (s : Server) (k x : Session) (hash : Option (List ℕ))
      → ((check_hash writable now k hash s).1 ≡ ok x) ↔ (NotRevoked writable now s hash × (k ≡ x))
  hash_iff s k x none = ground arith
  hash_iff s k x (some []) = ground arith
  hash_iff s k x (some (y ∷ ys)) =
      revoked_iff (includes (load_revocation_list writable now s).revoked (y ∷ ys)) k x

  -- What lets a session through.
  abbrev pub Admits : Server → Session → Type 0
  Admits s session =
      (Dict.get id s.sessions ≡ some session)
      × ((session.created_at ≡ 0) ⊎ (now ≤ session.created_at + 3600000))
      × NotRevoked writable now s session.token_hash

  lifetime_iff :
      (b : Bool) (s : Server) (k x : Session)
      → ((if b
            then (record s { sessions = Dict.delete id s.sessions }, fail session_expired)
            else check_hash writable now k k.token_hash s).1
          ≡ ok x)
        ↔ ((b ≡ false) × NotRevoked writable now s k.token_hash × (k ≡ x))
  lifetime_iff true s k x = ground arith
  lifetime_iff false s k x = ground (arith, hash_iff s k x k.token_hash)

  abbrev Lives : Session → Type 0
  Lives x = (x.created_at ≡ 0) ⊎ (now ≤ x.created_at + 3600000)

  with_iff :
      (s : Server) (x : Session) (o : Option Session)
      → ((proceed_with writable now id o s).1 ≡ ok x)
        ↔ ((o ≡ some x) × Lives x × NotRevoked writable now s x.token_hash)
  with_iff s x none = (λ h. cc, λ (e, l, n). cc)
  with_iff s x (some k) =
      let live = expired_iff k in
      let whole = lifetime_iff (is_expired now k) s k x in
      (
        λ h. (
          ap (λ y. some y) (whole.0 h).2,
          subst Lives (whole.0 h).2 (live.0 (whole.0 h).0),
          subst (λ y. NotRevoked writable now s y.token_hash) (whole.0 h).2 (whole.0 h).1,
        ),
        λ (e, l, n).
            let same : k ≡ x = cc e in
            whole.1 (
              live.1 (subst Lives (sym same) l),
              subst (λ y. NotRevoked writable now s y.token_hash) (sym same) n,
              same,
            ),
      )

  pub proceed_iff : (s : Server) (x : Session) → ((proceed writable now id s).1 ≡ ok x) ↔ Admits s x
  unfolding proceed
  proceed_iff s x = with_iff s x (Dict.get id s.sessions)

  gate_iff :
      (s : Server) (x : Session) (a : Attempt Refusal (Option (List ℕ)))
      → ((proceed_if writable now id s a).1 ≡ ok x)
        ↔ (((hash : Option (List ℕ)) × (a ≡ ok hash)) × Admits s x)
  gate_iff s x (ok hash) =
      (λ h. ((hash, refl), (proceed_iff s x).0 h), λ (found, admits). (proceed_iff s x).1 admits)
  gate_iff s x (fail e) = (λ h. cc, λ (found, admits). cc (found.1))

  -- A call goes on with a session if and only if its header is let through and the session is open under
  -- the id, at most an hour old, unless it has no time, and of no token whose hash is revoked by then.
  pub execute_logic_iff :
      (c : Config) (header : Option (List ℕ)) (s : Server) (x : Session)
      → ((execute_logic c writable now header id s).1 ≡ ok x) ↔ (
          ((hash : Option (List ℕ)) × ((authenticate c writable now header s).1 ≡ ok hash))
          × Admits (authenticate c writable now header s).0 x)
  unfolding execute_logic
  execute_logic_iff c header s x =
      let checked = authenticate c writable now header s in gate_iff checked.0 x checked.1
