-- ===== src/Handler/Tests.antt =====
-- Requests to the handlers over `MemStorage`, and the theorems at them.
use go_metrics_stas.Prelude.{
  ◌≡◌, ◌≢◌, refl, none, some, true, List, [], ◌∷◌, ◌==◌, if◌then◌else◌, eqb, arith, eq_iff, String,
  map, Bool, is_some, ◌||◌, each-All,
}
use mathlib.Core.List.Perm
use go_metrics_stas.Dict.{Dict, get, put, put_all}
use go_metrics_stas.Outcome.{ok}
use go_metrics_stas.Handler.Page.{list_all_metrics_html}
use go_metrics_stas.Handler.Page.Laws.{page_of}
use go_metrics_stas.Handler.Page.Shown.{Ordered, times, one_if, shown, list_all_metrics_html-shown}
use go_metrics_stas.Repository.Mem.Laws.{IsValid}
use go_metrics_stas.Http.{Request, new_writer, set_header, write, url_param, status}
use go_metrics_stas.Model.{Metrics, add_int64}
use go_metrics_stas.Repository.Mem
use go_metrics_stas.Repository.Mem.{MemStorage, of_gauge, of_counter, or_zero}
use go_metrics_stas.Repository.Mem.Lawfulness.{mem_storage, mem_storage-Lawful}
use go_metrics_stas.Service
use go_metrics_stas.Handler.{Std, Server, decode_body, publish}
use go_metrics_stas.Handler.Takes.{Takes, wanted, wanted_update}
use go_metrics_stas.Handler.Text.{update_metric, get_metric_value}
use go_metrics_stas.Handler.Text.Laws.{update_metric-Takes}
use go_metrics_stas.Handler.Text.Reads.{
  get_metric_value_lem, get_metric_value-update_metric, ok_body, readable, read_status, read_body,
}
use go_metrics_stas.Handler.Json.{update_metric_json, update_batch_json}
use go_metrics_stas.Handler.Json.Laws.{update_metric_json-Takes}
use go_metrics_stas.Handler.Json.Batch.{TakesBatch, update_batch_json_lem}

-- The third item has no delta.
abbrev items : List Metrics
items =
    of_counter "a" 2
    ∷ of_gauge "b" 3
    ∷ record (of_counter "c" 1) { delta = none }
    ∷ of_counter "a" 7
    ∷ []

abbrev std : Std
std = record {
  parse_float = λ t. if t == "5" then some 5 else none;
  format_float = λ x. if eqb x 9 then "9" else "?";
  parse_int = λ t. if t == "5" then some 5 else none;
  format_int = λ n. if eqb n 45 then "45" else "?";
  split_host_port = λ t. none;
  encode = λ x. some "{}";
  decode_update = λ b. some (record { id = "a"; mtype = "counter"; delta = some 5; value = none });
  decode_query = λ b. none;
  decode_batch = λ b. some items;
  now = λ r. 7;
}

abbrev request : Request
request = record {
  method = "POST";
  path = "/update/counter/a/5";
  url_params = ("type", "counter") ∷ ("name", "a") ∷ ("value", "5") ∷ [];
  headers = [];
  remote_addr = "10.0.0.1";
  body = some [];
}

abbrev server : Server MemStorage
server = record {
  storage = record { gauges = ("b", 9) ∷ []; counters = ("a", 40) ∷ [] };
  publisher = true;
  events = [];
}

update_metric-Takes_example :
    Takes std mem_storage mem_storage-Lawful
      (wanted
        (url_param "type" request)
        (url_param "name" request)
        (std.parse_float (url_param "value" request))
        (std.parse_int (url_param "value" request)))
      request
      server
      (update_metric std mem_storage request new_writer server)
      "a"
update_metric-Takes_example =
    update_metric-Takes std mem_storage mem_storage-Lawful request server "a"

is_wanted :
    wanted
      (url_param "type" request)
      (url_param "name" request)
      (std.parse_float (url_param "value" request))
      (std.parse_int (url_param "value" request))
    ≡ some (of_counter "a" 5)
unfolding get
is_wanted = refl

update_metric_json-Takes_example :
    Takes std mem_storage mem_storage-Lawful
      (wanted_update (decode_body std.decode_update request.body))
      request
      server
      (update_metric_json std mem_storage request new_writer server)
      "a"
update_metric_json-Takes_example =
    update_metric_json-Takes std mem_storage mem_storage-Lawful request server "a"

get_metric_value_lem_example :
    (status (get_metric_value std mem_storage request new_writer server).0
      ≡ some (
          read_status (
            readable std mem_storage mem_storage-Lawful
              (url_param "type" request)
              (url_param "name" request)
              server.storage)))
    × (ok_body (get_metric_value std mem_storage request new_writer server).0
        ≡ read_body (
            readable std mem_storage mem_storage-Lawful
              (url_param "type" request)
              (url_param "name" request)
              server.storage))
    × ((get_metric_value std mem_storage request new_writer server).1 ≡ server)
get_metric_value_lem_example =
    get_metric_value_lem std mem_storage mem_storage-Lawful request server

is_counter : url_param "type" request ≡ "counter"
unfolding get
is_counter = refl

is_named : url_param "name" request ≢ ""
unfolding get
is_named = ground (arith, eq_iff "a" "")

is_number : std.parse_int (url_param "value" request) ≡ some 5
unfolding get
is_number = refl

get_metric_value-update_metric_example :
    (status (update_metric std mem_storage request new_writer server).0 ≡ some 200)
    × (ok_body
          (get_metric_value std mem_storage request new_writer
            (update_metric std mem_storage request new_writer server).1).0
        ≡ std.format_int (
            add_int64
              (or_zero (mem_storage-Lawful.counter_at server.storage (url_param "name" request)))
              5)
          ∷ [])
get_metric_value-update_metric_example =
    get_metric_value-update_metric std mem_storage mem_storage-Lawful request request server 5
      is_counter is_counter refl is_named is_number

reads_back :
    ok_body
      (get_metric_value std mem_storage request new_writer
        (update_metric std mem_storage request new_writer server).1).0
    ≡ "45" ∷ []
unfolding get put get_metric_value update_metric Service.update_counter Service.get_counter
    Mem.get_counter Mem.update_counter publish
reads_back = refl

update_batch_json_lem_example :
    TakesBatch std mem_storage mem_storage-Lawful
      (decode_body std.decode_batch request.body)
      request
      server
      (update_batch_json std mem_storage request new_writer server)
      "a"
update_batch_json_lem_example =
    update_batch_json_lem std mem_storage mem_storage-Lawful request server "a"

-- A batch that is refused has changed the counter all the same.
changed :
    get "a" (update_batch_json std mem_storage request new_writer server).1.storage.counters
    ≡ some 42
unfolding update_batch_json Service.update_batch Service.update_item Mem.update_counter
    Mem.update_gauge get put
changed = refl

abbrev all : Dict Metrics
all = ("b", of_gauge "b" 9) ∷ ("a", of_counter "a" 40) ∷ []

lists_all : Service.get_all_metrics mem_storage server.storage ≡ (ok all, server.storage)
unfolding Service.get_all_metrics Mem.get_all_metrics put put_all
lists_all = refl

-- Any order of names will do here.
abbrev le : String → String → Bool
le a b = true

all-Ordered : (names : List String) → Ordered le names
all-Ordered [] = tt
all-Ordered (n ∷ names) = (each-All (λ m. le n m ≡ true) (λ m. refl) names, all-Ordered names)

server-IsValid : IsValid server.storage
server-IsValid = record { counters = (tt, tt); gauges = (tt, tt) }

list_all_metrics_html-shown_example :
    (names : List String) × Ordered le names
    × ((n : String)
        → times n names
          ≡ one_if
              (is_some (get n server.storage.counters) || is_some (get n server.storage.gauges)))
    × (list_all_metrics_html std (λ ns. ns) (λ t. t) mem_storage request new_writer server ≡ (
      write
          (page_of (
            map
              (λ n.
                shown std (λ t. t) n (get n server.storage.counters) (get n server.storage.gauges))
              names))
          (set_header "Content-Type" "text/html; charset=utf-8" new_writer),
      server,
    ))
list_all_metrics_html-shown_example =
    list_all_metrics_html-shown std (λ t. t) (λ ns. ns) le request new_writer server
      (λ ns. (Perm.refl ns, all-Ordered ns)) server-IsValid
