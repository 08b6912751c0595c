-- ===== src/Linter/Reports.antt =====
-- Which calls the analyzer reports.
use mathlib.Core.Path.{subst}
use go_metrics_stas.Prelude.{
  ℕ, String, ◌≡◌, refl, sym, ap, ◌↔◌, inl, inr, Option, none, some, Bool, true, false, ◌&&◌, List,
  [], ◌∷◌, ◌==◌, starts_with, Bool-cases,
}
use go_metrics_stas.Linter.Listed.{In, In-append, append-In, In-if, In-alarm}
use go_metrics_stas.Linter.{
  Object, builtin, pkg_name, function, other, Operand, identifier, expression, Fun, ident, selector,
  other_fun, CallExpr, Pass, Message, uses_panic, calls_log, calls_exit, calls_zap_fatal, is_zap,
  check_method, check_exit, check_package, check_fun, is_main, report_all, run_calls, run,
}

module _ (contains : String → String → Bool) where
  -- An operand behind which a method is looked at: no name of a variable, a type or a function.
  abbrev pub Opaque : Operand → Type 0
  Opaque expression = Unit
  Opaque (identifier (some (pkg_name path))) = Unit
  Opaque x = ⊥

  -- The calls that are to be reported, where the call stands in main of the main package or not.
  pub data Reported (in_main : Bool) : Fun → Message → Type 0 where
    panic_call :
        {name : String}
        → (name == "panic") ≡ true
        → Reported in_main (ident name (some builtin)) uses_panic
    log_call :
        {path sel : String} {o : Option Object}
        → in_main ≡ false
        → (path == "log" && starts_with sel "Fatal") ≡ true
        → Reported in_main (selector (identifier (some (pkg_name path))) sel o) (calls_log sel)
    exit_call :
        {path sel : String} {o : Option Object}
        → in_main ≡ false
        → (path == "os" && sel == "Exit") ≡ true
        → Reported in_main (selector (identifier (some (pkg_name path))) sel o) calls_exit
    zap_call :
        {x : Operand} {sel recv : String}
        → in_main ≡ false
        → Opaque x
        → (is_zap contains recv && sel == "Fatal") ≡ true
        → Reported in_main (selector x sel (some (function (some recv)))) calls_zap_fatal

  method-Reported :
      (in_main : Bool) (x : Operand) (sel : String) (o : Option Object) (m : Message)
      → Opaque x
      → In m (check_method contains in_main sel o)
      → Reported in_main (selector x sel o) m
  method-Reported in_main x sel none m p h = absurd h
  method-Reported in_main x sel (some builtin) m p h = absurd h
  method-Reported in_main x sel (some (pkg_name path)) m p h = absurd h
  method-Reported in_main x sel (some other) m p h = absurd h
  method-Reported in_main x sel (some (function none)) m p h = absurd h
  method-Reported in_main x sel (some (function (some recv))) m p h =
      elim (In-if m (is_zap contains recv && sel == "Fatal") _ _ h) [
        | inr (a, i) ↦ absurd i
        | inl (a, i) ↦
            let (b, c) = In-alarm m calls_zap_fatal in_main [] i in
            elim c [
              | inl e ↦
                  subst (Reported in_main (selector x sel (some (function (some recv))))) (sym e)
                    (zap_call b p a)
              | inr j ↦ absurd j
            ]
      ]

  exit-Reported :
      (in_main : Bool) (path sel : String) (o : Option Object) (m : Message)
      → In m (check_exit contains in_main path sel o)
      → Reported in_main (selector (identifier (some (pkg_name path))) sel o) m
  exit-Reported in_main path sel o m h =
      let x = identifier (some (pkg_name path)) in
      elim (In-if m (path == "os" && sel == "Exit") _ _ h) [
        | inr (a, i) ↦ method-Reported in_main x sel o m tt i
        | inl (a, i) ↦
            let (b, c) = In-alarm m calls_exit in_main (check_method contains in_main sel o) i in
            elim c [
              | inl e ↦ subst (Reported in_main (selector x sel o)) (sym e) (exit_call b a)
              | inr j ↦ method-Reported in_main x sel o m tt j
            ]
      ]

  package-Reported :
      (in_main : Bool) (path sel : String) (o : Option Object) (m : Message)
      → In m (check_package contains in_main path sel o)
      → Reported in_main (selector (identifier (some (pkg_name path))) sel o) m
  package-Reported in_main path sel o m h =
      let x = identifier (some (pkg_name path)) in
      elim (In-if m (path == "log" && starts_with sel "Fatal") _ _ h) [
        | inr (a, i) ↦ exit-Reported in_main path sel o m i
        | inl (a, i) ↦
            let (b, c) =
              In-alarm m (calls_log sel) in_main (check_exit contains in_main path sel o) i in
            elim c [
              | inl e ↦ subst (Reported in_main (selector x sel o)) (sym e) (log_call b a)
              | inr j ↦ exit-Reported in_main path sel o m j
            ]
      ]

  check_fun-Reported :
      (in_main : Bool) (f : Fun) (m : Message)
      → In m (check_fun contains in_main f)
      → Reported in_main f m
  unfolding check_fun
  check_fun-Reported in_main (ident name (some builtin)) m h =
      elim (In-if m (name == "panic") _ _ h) [
        | inl (a, inl e) ↦
            subst (Reported in_main (ident name (some builtin))) (sym e) (panic_call a)
        | inl (a, inr i) ↦ absurd i
        | inr (a, i) ↦ absurd i
      ]
  check_fun-Reported in_main (ident name none) m h = absurd h
  check_fun-Reported in_main (ident name (some (pkg_name path))) m h = absurd h
  check_fun-Reported in_main (ident name (some (function r))) m h = absurd h
  check_fun-Reported in_main (ident name (some other)) m h = absurd h
  check_fun-Reported in_main (selector (identifier (some (pkg_name path))) sel o) m h =
      package-Reported in_main path sel o m h
  check_fun-Reported in_main (selector (identifier none) sel o) m h = absurd h
  check_fun-Reported in_main (selector (identifier (some builtin)) sel o) m h = absurd h
  check_fun-Reported in_main (selector (identifier (some (function r))) sel o) m h = absurd h
  check_fun-Reported in_main (selector (identifier (some other)) sel o) m h = absurd h
  check_fun-Reported in_main (selector expression sel o) m h =
      method-Reported in_main expression sel o m tt h
  check_fun-Reported in_main other_fun m h = absurd h

  method-exit :
      (path sel : String) (o : Option Object) (m : Message)
      → In m (check_method contains false sel o)
      → In m (check_exit contains false path sel o)
  method-exit path sel o m h = elim (Bool-cases (path == "os" && sel == "Exit")) [
    | inl a ↦ rw a (inr h)
    | inr a ↦ rw a h
  ]

  exit-package :
      (path sel : String) (o : Option Object) (m : Message)
      → In m (check_exit contains false path sel o)
      → In m (check_package contains false path sel o)
  exit-package path sel o m h = elim (Bool-cases (path == "log" && starts_with sel "Fatal")) [
    | inl a ↦ rw a (inr h)
    | inr a ↦ rw a h
  ]

  Reported-In :
      (in_main : Bool) (f : Fun) (m : Message)
      → Reported in_main f m
      → In m (check_fun contains in_main f)
  unfolding check_fun
  Reported-In in_main f m (panic_call a) = rw a (inl refl)
  Reported-In true f m (log_call b a) = absurd (cc)
  Reported-In true f m (exit_call b a) = absurd (cc)
  Reported-In true f m (zap_call b p a) = absurd (cc)
  Reported-In false f m (log_call b a) = rw a (inl refl)
  Reported-In false f m (exit_call {path = path} {sel = sel} {o = o} b a) =
      exit-package path sel o m (rw a (inl refl))
  Reported-In false f m (zap_call {x = expression} b p a) = rw a (inl refl)
  Reported-In false f m (zap_call {x = identifier none} b p a) = absurd p
  Reported-In false f m (zap_call {x = identifier (some builtin)} b p a) = absurd p
  Reported-In false f m (zap_call {x = identifier (some (function r))} b p a) = absurd p
  Reported-In false f m (zap_call {x = identifier (some other)} b p a) = absurd p
  Reported-In false f m
        (zap_call {x = identifier (some (pkg_name path))} {sel = sel} {recv = recv} b p a) =
      exit-package path sel (some (function (some recv))) m
        (method-exit path sel (some (function (some recv))) m (rw a (inl refl)))

  -- A report of a message at a position is that of a call in the package.
  abbrev pub Origin : Pass → List CallExpr → ℕ → Message → Type 0
  Origin pass calls pos m =
      (c : CallExpr) × In c calls × (c.pos ≡ pos) × Reported (is_main contains pass c) c.fun m

  report_all-In :
      (pos p : ℕ) (m : Message) (ms : List Message)
      → In (p, m) (report_all contains pos ms)
      → (pos ≡ p) × In m ms
  report_all-In pos p m [] h = absurd h
  report_all-In pos p m (x ∷ ms) (inl e) =
      (ap (λ (y : ℕ × Message). y.0) (sym e), inl (ap (λ (y : ℕ × Message). y.1) e))
  report_all-In pos p m (x ∷ ms) (inr h) = let (e, i) = report_all-In pos p m ms h in (e, inr i)

  In-report_all :
      (pos : ℕ) (m : Message) (ms : List Message)
      → In m ms
      → In (pos, m) (report_all contains pos ms)
  In-report_all pos m [] h = absurd h
  In-report_all pos m (x ∷ ms) (inl e) = inl (ap (λ y. (pos, y)) e)
  In-report_all pos m (x ∷ ms) (inr h) = inr (In-report_all pos m ms h)

  run_calls-Origin :
      (pass : Pass) (calls : List CallExpr) (pos : ℕ) (m : Message)
      → In (pos, m) (run_calls contains pass calls)
      → Origin pass calls pos m
  run_calls-Origin pass [] pos m h = absurd h
  run_calls-Origin pass (c ∷ calls) pos m h =
      elim (In-append (pos, m)
        (report_all contains c.pos (check_fun contains (is_main contains pass c) c.fun))
        (run_calls contains pass calls) h) [
          | inl i ↦
              let (e, j) =
                report_all-In c.pos pos m (check_fun contains (is_main contains pass c) c.fun) i in
              (c, inl refl, e, check_fun-Reported (is_main contains pass c) c.fun m j)
          | inr i ↦ let (d, j, e, r) = run_calls-Origin pass calls pos m i in (d, inr j, e, r)
        ]

  Origin-run_calls :
      (pass : Pass) (calls : List CallExpr) (pos : ℕ) (m : Message)
      → Origin pass calls pos m
      → In (pos, m) (run_calls contains pass calls)
  Origin-run_calls pass [] pos m (d, j, e, r) = absurd j
  Origin-run_calls pass (c ∷ calls) pos m (d, inl j, e, r) =
      let ms = check_fun contains (is_main contains pass d) d.fun in
      let here : In (pos, m) (report_all contains d.pos ms) =
        subst (λ n. In (n, m) (report_all contains d.pos ms)) e
          (In-report_all d.pos m ms (Reported-In (is_main contains pass d) d.fun m r)) in
      append-In (pos, m)
        (report_all contains c.pos (check_fun contains (is_main contains pass c) c.fun))
        (run_calls contains pass calls)
        (inl (
          subst
            (λ (x : CallExpr).
              In (pos, m)
                (report_all contains x.pos (check_fun contains (is_main contains pass x) x.fun)))
            j here))
  Origin-run_calls pass (c ∷ calls) pos m (d, inr j, e, r) =
      append-In (pos, m)
        (report_all contains c.pos (check_fun contains (is_main contains pass c) c.fun))
        (run_calls contains pass calls) (inr (Origin-run_calls pass calls pos m (d, j, e, r)))

  -- The analyzer reports a message at a position just when some call of the package stands there that
  -- is to be reported: each call of the builtin panic; and, unless the call stands in main of package
  -- main, each log.Fatal..., each os.Exit, and each Fatal of a zap logger whose operand is an
  -- expression other than an identifier, or an imported package. A Fatal of a logger in a variable
  -- is not reported.
  pub run-In :
      (pass : Pass) (pos : ℕ) (m : Message)
      → In (pos, m) (run contains pass) ↔ Origin pass pass.calls pos m
  unfolding run
  run-In pass pos m =
      (run_calls-Origin pass pass.calls pos m, Origin-run_calls pass pass.calls pos m)
