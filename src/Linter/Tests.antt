-- ===== src/Linter/Tests.antt =====
-- A package with calls that are reported and calls that are not.
use go_metrics_stas.Prelude.{String, ◌≡◌, refl, ◌↔◌, none, some, Bool, false, [], ◌∷◌, ◌==◌}
use go_metrics_stas.Linter.{
  builtin, pkg_name, function, other, identifier, expression, ident, selector, func_decl,
  other_decl, Pass, uses_panic, calls_zap_fatal, calls_exit, run, check_fun, is_inside_main_func,
}
use go_metrics_stas.Linter.Listed.{In}
use go_metrics_stas.Linter.Reports.{Origin, run-In}

abbrev contains : String → String → Bool
contains s t = s == "*go.uber.org/zap.Logger"

-- In main at 5: os.Exit. Outside: a panic at 20, log.Fatal of a field at 30, Fatal of a logger in a
-- variable at 40, os.Exit at 50.
abbrev pass : Pass
pass = record {
  package_name = "main";
  files = (other_decl ∷ func_decl "main" false (some (1, 10)) ∷ []) ∷ [];
  calls =
      record {
        pos = 5;
        fun = selector (identifier (some (pkg_name "os"))) "Exit" (some (function none));
      }
      ∷ record { pos = 20; fun = ident "panic" (some builtin) }
      ∷ record {
        pos = 30;
        fun = selector expression "Fatal" (some (function (some "*go.uber.org/zap.Logger")));
      }
      ∷ record {
        pos = 40;
        fun =
            selector (identifier (some other)) "Fatal"
              (some (function (some "*go.uber.org/zap.Logger")));
      }
      ∷ record {
        pos = 50;
        fun = selector (identifier (some (pkg_name "os"))) "Exit" (some (function none));
      }
      ∷ [];
}

reports : run contains pass ≡ (20, uses_panic) ∷ (30, calls_zap_fatal) ∷ (50, calls_exit) ∷ []
unfolding run check_fun is_inside_main_func
reports = refl

run-In_example :
    In (30, calls_zap_fatal) (run contains pass)
    ↔ Origin contains pass pass.calls 30 calls_zap_fatal
run-In_example = run-In contains pass 30 calls_zap_fatal
