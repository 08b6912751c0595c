-- ===== src/Linter.antt =====
-- cmd/linter/exitcheck/exitcheck.go: the analyzer `exitcheck`. go/ast and go/types give the calls in
-- preorder, and what the names in them stand for.
pub mod Listed
pub mod Reports
mod Tests
use go_metrics_stas.Prelude.{
  ℕ, String, Option, none, some, Bool, true, false, not, ◌&&◌, ◌||◌, List, [], ◌∷◌, ◌++◌, ◌==◌, leb,
  if◌then◌else◌, starts_with,
}

-- What `TypesInfo.Uses` says of a name: a builtin, an imported package with its path, a function with
-- the type of its receiver, or something else.
pub data Object : Type 0 where
  builtin : Object
  pkg_name : String → Object
  function : Option String → Object
  other : Object

-- The operand of a selector: an identifier with what it stands for, or another expression.
pub data Operand : Type 0 where
  identifier : Option Object → Operand
  expression : Operand

-- `call.Fun`
pub data Fun : Type 0 where
  ident : String → Option Object → Fun
  selector : Operand → String → Option Object → Fun
  other_fun : Fun

pub record CallExpr : Type 0 where
  pub pos : ℕ
  pub fun : Fun

-- A declaration of a file. The body of a function is where it starts and ends.
pub data Decl : Type 0 where
  func_decl : String → Bool → Option (ℕ × ℕ) → Decl
  other_decl : Decl

pub record Pass : Type 0 where
  pub package_name : String
  pub files : List (List Decl)
  pub calls : List CallExpr

pub data Message : Type 0 where
  uses_panic : Message
  calls_log : String → Message
  calls_exit : Message
  calls_zap_fatal : Message

abbrev pub inside : ℕ → Option (ℕ × ℕ) → Bool
inside pos none = false
inside pos (some (start, end)) = leb start pos && leb pos end

-- The test on one declaration.
abbrev pub main_holds : ℕ → Decl → Bool
main_holds pos other_decl = false
main_holds pos (func_decl name has_recv body) =
    if name == "main" && not has_recv then inside pos body else false

unfoldable pub main_of_decls : ℕ → List Decl → Bool
main_of_decls pos [] = false
main_of_decls pos (d ∷ decls) =
    let rest = main_of_decls pos decls in if main_holds pos d then true else rest

unfoldable pub is_inside_main_func : List (List Decl) → ℕ → Bool
unfolding main_of_decls
is_inside_main_func [] pos = false
is_inside_main_func (f ∷ files) pos =
    let rest = is_inside_main_func files pos in if main_of_decls pos f then true else rest

-- `strings.Contains`
module _ (contains : String → String → Bool) where
  abbrev pub is_zap : String → Bool
  is_zap recv =
      contains recv "go.uber.org/zap.Logger" || contains recv "go.uber.org/zap.SugaredLogger"

  -- The last test of a selector, on what its name stands for.
  abbrev pub check_method : Bool → String → Option Object → List Message
  check_method in_main sel (some (function (some recv))) =
      if is_zap recv && sel == "Fatal" then if in_main then [] else calls_zap_fatal ∷ [] else []
  check_method in_main sel o = []

  abbrev pub check_exit : Bool → String → String → Option Object → List Message
  check_exit in_main path sel o =
      if path == "os" && sel == "Exit"
      then if in_main then [] else calls_exit ∷ check_method in_main sel o
      else check_method in_main sel o

  abbrev pub check_package : Bool → String → String → Option Object → List Message
  check_package in_main path sel o =
      if path == "log" && starts_with sel "Fatal"
      then if in_main then [] else calls_log sel ∷ check_exit in_main path sel o
      else check_exit in_main path sel o

  unfoldable pub check_selector : Bool → Operand → String → Option Object → List Message
  check_selector in_main (identifier (some (pkg_name path))) sel o =
      check_package in_main path sel o
  check_selector in_main (identifier x) sel o = []
  check_selector in_main expression sel o = check_method in_main sel o

  unfoldable pub check_ident : String → Option Object → List Message
  check_ident name (some builtin) = if name == "panic" then uses_panic ∷ [] else []
  check_ident name o = []

  unfoldable pub check_fun : Bool → Fun → List Message
  unfolding check_selector check_ident
  check_fun in_main (ident name o) = check_ident name o
  check_fun in_main (selector x sel o) = check_selector in_main x sel o
  check_fun in_main other_fun = []

  abbrev pub is_main : Pass → CallExpr → Bool
  is_main pass call = pass.package_name == "main" && is_inside_main_func pass.files call.pos

  abbrev pub report_all : ℕ → List Message → List (ℕ × Message)
  report_all pos [] = []
  report_all pos (m ∷ ms) = (pos, m) ∷ report_all pos ms

  abbrev pub run_calls : Pass → List CallExpr → List (ℕ × Message)
  run_calls pass [] = []
  run_calls pass (c ∷ calls) =
      report_all c.pos (check_fun (is_main pass c) c.fun) ++ run_calls pass calls

  unfoldable pub run : Pass → List (ℕ × Message)
  run pass = run_calls pass pass.calls
