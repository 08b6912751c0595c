-- ===== src/Audit/Sinks.antt =====
-- internal/audit/file_auditor.go, http_auditor.go and module.go: where audit events go. encoding/json,
-- and what the disk and the network do, are arguments.
pub mod Log
pub mod Wiring
mod Tests
use Prim.Native.String
use go_metrics_stas.Prelude.{
  ℕ, String, Option, none, some, Bool, true, false, not, ◌&&◌, ◌||◌, List, [], ◌∷◌, ◌++◌, ◌==◌, leb,
  ltb, if◌then◌else◌, take,
}
use go_metrics_stas.Dict.{Dict, get, put}
use go_metrics_stas.Http.{Bytes}
use go_metrics_stas.Outcome.{Result, ok, err, failure}
use go_metrics_stas.Audit.{AuditEvent, subscribe}
use go_metrics_stas.Agent.Client.{Answer, broken, answered}

-- What the disk does with one update: it cannot open the file, it writes only some of the bytes, or
-- all of them.
pub data Disk : Type 0 where
  no_open : Disk
  short : ℕ → Disk
  whole : Disk

abbrev pub content : String → Dict Bytes → Bytes
content path files = or_empty (get path files)
  where
    or_empty : Option Bytes → Bytes
    or_empty none = []
    or_empty (some b) = b

-- A write to a file that was opened with O_CREATE and O_APPEND.
abbrev pub append : String → Bytes → Dict Bytes → Dict Bytes
append path b files = put path (content path files ++ b) files

module _ (encode : AuditEvent → Option Bytes) where
  abbrev pub write_line : String → Disk → Option Bytes → Dict Bytes → Result (Unit {0}) × Dict Bytes
  write_line path no_open line files = (err (failure "open"), files)
  write_line path d none files = (err (failure "marshal"), append path [] files)
  write_line path (short n) (some b) files =
      (err (failure "write"), append path (take n (b ++ 10 ∷ [])) files)
  write_line path whole (some b) files = (ok tt, append path (b ++ 10 ∷ []) files)

  -- `FileAuditor.Update`.
  unfoldable pub file_update :
      String → Disk → AuditEvent → Dict Bytes → Result (Unit {0}) × Dict Bytes
  file_update path d event files = write_line path d (encode event) files

  abbrev pub answer_result : Answer → Result (Unit {0})
  answer_result broken = err (failure "transport")
  answer_result (answered code) =
      if ltb code 200 || leb 300 code then err (failure "status") else ok tt

  -- `HTTPAuditor.Update`: its error, and the body that is posted, if any.
  unfoldable pub http_update : Bool → Answer → AuditEvent → Result (Unit {0}) × Option Bytes
  http_update url_parses answer event = elim (encode event) [
    | none ↦ (err (failure "marshal"), none)
    | some b ↦
        if url_parses then (answer_result answer, some b) else (err (failure "request"), none)
  ]

-- The two observers.
pub data Auditor : Type 0 where
  file_auditor : String → Auditor
  http_auditor : String → Auditor

abbrev pub get_id : Auditor → String
get_id (file_auditor path) = String.◌++◌ "file_auditor_" path
get_id (http_auditor url) = String.◌++◌ "http_auditor_" url

abbrev pub with_file : String → Dict Auditor → Dict Auditor
with_file path observers =
    if not (path == "") then subscribe get_id (file_auditor path) observers else observers

abbrev pub with_http : String → Dict Auditor → Dict Auditor
with_http url observers =
    if not (url == "") then subscribe get_id (http_auditor url) observers else observers

-- `NewPublisherWithConfig`, from AuditFile and AuditURL.
unfoldable pub new_publisher_with_config : String → String → Option (Dict Auditor)
new_publisher_with_config path url =
    if path == "" && url == "" then none else some (with_http url (with_file path []))
