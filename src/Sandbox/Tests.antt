-- ===== src/Sandbox/Tests.antt =====
-- A process with a secret and a function of the shell.
use liop.Common.{
  ℕ, ◌≡◌, refl, String, false, Option, none, some, List, [], ◌∷◌, if◌then◌else◌, text_equality,
  ◌==◌,
}
use liop.Common.Bytes.{is_prefix}
use liop.Common.Text.{codes}
use liop.Common.Dict
use liop.Sandbox.{
  get_default_environment, copy_all, AstNode, identifier, call_expression, for_statement,
}

abbrev process : String → Option (List ℕ)
process key =
    if key == "HOME"
    then some (codes "/home/node")
    else if key == "SHELL"
    then some (codes "() { :; }")
    else if key == "JWT_SECRET"
    then some (codes "hunter2")
    else none

home : Dict.get "HOME" (get_default_environment false process) ≡ some (codes "/home/node")
unfolding get_default_environment copy_all is_prefix Dict.get Dict.set
home = refl

shell : Dict.get "SHELL" (get_default_environment false process) ≡ none
unfolding get_default_environment copy_all is_prefix Dict.get Dict.set
shell = refl

abbrev nodes : List AstNode
nodes = identifier ∷ call_expression 3 ∷ for_statement ∷ []
