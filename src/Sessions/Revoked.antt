-- ===== src/Sessions/Revoked.antt =====
-- A token that is revoked is refused, whatever the server does after.
use liop.Common.{ℕ, ◌≢◌, Bool, String, Option, List, text_equality}
use liop.Common.Attempt.{Attempt}
use liop.Common.Bytes.{bytes_equality}
use liop.Common.Dict
use liop.Sessions.{
  File, no_path, absent, present, Server, Config, load_revocation_list, revoke_token_hash,
  authenticate, open_session, execute_logic,
}
use liop.Sessions.Load.{Lists}

-- What happens to a server, with edits of the file that keep a hash or cannot be read.
pub data Step (c : Config) (h : List ℕ) : Server → Server → Type 0 where
  loads : {s : Server} (w : Bool) (now : ℕ) → Step c h s (load_revocation_list w now s)
  revokes :
      {s : Server} (w : Bool) (now : ℕ) (x : List ℕ) → Step c h s (revoke_token_hash w now x s)
  negotiates :
      {s : Server} (w : Bool) (now : ℕ) (header : Option (List ℕ))
      → Step c h s (authenticate c w now header s).0
  opens :
      {s : Server} (now : ℕ) (id capability : String) (agent : Option String)
      (hash : Option (List ℕ))
      → Step c h s (open_session now id capability agent hash s)
  executes :
      {s : Server} (w : Bool) (now : ℕ) (header : Option (List ℕ)) (id : String)
      → Step c h s (execute_logic c w now header id s).0
  edits :
      {s : Server} (f : File)
      → s.store ≢ no_path
      → Lists h f.items
      → Step c h s (record s { store = present f })
  removes : {s : Server} → s.store ≢ no_path → Step c h s (record s { store = absent })

pub data Steps (c : Config) (h : List ℕ) (s : Server) : Server → Type 0 where
  none_yet : Steps c h s s
  then_step : {t u : Server} → Steps c h s t → Step c h t u → Steps c h s u
