-- ===== src/Router/Tests.antt =====
-- A router whose mux takes the route that matches literally, and the theorems at it.
use go_metrics_stas.Prelude.{
  ℕ, ◌≤◌, ◌≡◌, ◌≢◌, refl, ap, sym, inr, none, some, true, false, List, [], ◌∷◌, ◌++◌, arith, eq_iff,
  or_else,
}
use go_metrics_stas.Dict.{get, put}
use go_metrics_stas.Http.{Request, Writer, new_writer, http_error}
use go_metrics_stas.Model.{Metrics}
use go_metrics_stas.Outcome.{ok}
use go_metrics_stas.Outcome.Results.{◌>>=◌}
use go_metrics_stas.Crypto.Sample.{plain, steady, out, encrypts}
use go_metrics_stas.Crypto.Keys.{Loader, rsa, load_key, load_optional_key}
use go_metrics_stas.Repository.Mem.{MemStorage, of_counter}
use go_metrics_stas.Repository.Mem.Lawfulness.{mem_storage, mem_storage-Lawful}
use go_metrics_stas.Repository.Batch.{deltas, last_value, counted}
use go_metrics_stas.Service.Batch.{applied}
use go_metrics_stas.Handler.{Std, Server, Handler}
use go_metrics_stas.Agent.Client.{Wire, broken, send_batch, post_for}
use go_metrics_stas.Agent.Client.Tries.{repeat}
use go_metrics_stas.Middleware.{check_trusted_subnet, check_subnet}
use go_metrics_stas.Middleware.Guard.{trusted, why_untrusted}
use go_metrics_stas.Middleware.Compression.Arrives.{arrived}
use go_metrics_stas.Middleware.Compression.Sample.{net, gz, tools, client}
use go_metrics_stas.Router.{Chi, Handlers, handlers, RouterConfig, wrapped, new_router}
use go_metrics_stas.Router.Passes.{Kept, HandsOn, new_router-untrusted}
use go_metrics_stas.Router.Dispatch.{matching, Dispatches}
use go_metrics_stas.Router.Served.{serve_posts, copies}
use go_metrics_stas.Router.Delivery.{Agrees, send_batch-serve_posts}

abbrev Mem : Type 0
Mem = Server MemStorage

abbrev first_of : List (Handler MemStorage) → Handler MemStorage
first_of [] r w s = (http_error "404 page not found" 404 w, s)
first_of (h ∷ more) r w s = h r w s

abbrev chi : Chi MemStorage
chi = record {
  request_id = λ next. next;
  real_ip = λ next. next;
  strip_slashes = λ next. next;
  recoverer = λ next. next;
  redirect_slashes = λ next. next;
  mux = λ all r. first_of (matching all r.method r.path) r;
  pprof = λ path r w s. (w, s);
}

same : (r : Request) → Kept r r
same r = record { method = refl; headers = refl; body = refl; path = refl }

hands_on : HandsOn chi
hands_on = record {
  request_id = λ next r. (r, same r, λ w s. refl);
  real_ip = λ next r. (r, same r, λ w s. refl);
  strip_slashes = λ next r. (r, same r, λ w s. refl);
}

picks_first :
    (all : List (Handler MemStorage)) (h : Handler MemStorage) (r : Request) (w : Writer) (s : Mem)
    → all ≡ h ∷ []
    → first_of all r w s ≡ h r w s
picks_first all h r w s e = rw e refl

dispatches : Dispatches chi
dispatches = record {
  recoverer = λ next r. (r, same r, λ w s. refl);
  redirect_slashes = λ next r path. (r, same r, λ w s. refl);
  mux = λ all r h e. (r, same r, λ w s. picks_first (matching all r.method r.path) h r w s e);
}

-- The second item has no name; the third is not applied.
abbrev metrics : List Metrics
metrics = of_counter "" 1 ∷ of_counter "a" 7 ∷ []

abbrev std : Std
std = record {
  parse_float = λ t. none;
  format_float = λ x. "";
  parse_int = λ t. none;
  format_int = λ n. "";
  split_host_port = λ t. none;
  encode = λ x. some "{}";
  decode_update = λ b. none;
  decode_query = λ b. none;
  decode_batch = λ b. some (of_counter "a" 2 ∷ metrics);
  now = λ r. 7;
}

abbrev all_handlers : Handlers MemStorage
all_handlers = handlers std (λ names. names) (λ t. t) mem_storage none

abbrev loader : Loader ℕ
loader = record {
  read_file = λ path. some [];
  pem_block = λ b. some b;
  parse = λ b. some (rsa 32);
  parse_pkcs1 = λ b. none;
}

abbrev cfg : RouterConfig
cfg = record { crypto_key = "key.pem"; trusted_subnet = "10.0.0.1"; key = "secret" }

abbrev router : Handler MemStorage
router = wrapped chi net gz plain (some 32) (check_subnet net "10.0.0.1") "secret" all_handlers

loads : load_optional_key loader "key.pem" ≡ ok (some 32)
unfolding load_optional_key load_key
loads = refl

made : new_router chi net gz plain loader cfg all_handlers ≡ ok router
unfolding new_router load_optional_key load_key check_trusted_subnet ◌>>=◌
made = refl

a_subnet : cfg.trusted_subnet ≢ ""
a_subnet = ground (arith, eq_iff "10.0.0.1" "")

abbrev server : Mem
server = record {
  storage = record { gauges = []; counters = ("a", 40) ∷ [] };
  publisher = false;
  events = [];
}

abbrev stranger : Request
stranger = record {
  method = "POST";
  path = "/update/counter/a/5";
  url_params = [];
  headers = ("X-Real-IP", "10.0.0.9") ∷ [];
  remote_addr = "10.0.0.1:8080";
  body = none;
}

untrusted : trusted net "10.0.0.1" stranger ≡ false
unfolding get
untrusted = refl

new_router-untrusted_example :
    router stranger new_writer server
    ≡ (http_error (why_untrusted net stranger) 403 new_writer, server)
new_router-untrusted_example =
    new_router-untrusted chi net gz plain loader cfg all_handlers router "10.0.0.1" stranger
      new_writer server hands_on made a_subnet refl untrusted

agrees : Agrees plain tools client net gz 32
agrees = record {
  public_key = 32;
  configured = refl;
  pair = refl;
  small = omega arith;
  same_mac = λ json. refl;
  mac_long = λ json. refl;
  fold = refl;
  opens = λ json zipped h. refl;
  expands = λ json zipped h. ap gz.expand (sym h);
}

-- Every answer is lost.
abbrev wire : Wire
wire = record { sent = []; answer = λ n. broken; cancelled = λ n. false }

trusted_post :
    trusted net "10.0.0.1"
      (arrived "/updates" "10.0.0.1" (post_for plain tools client "/updates" (8 ∷ []) out))
    ≡ true
unfolding post_for get put
trusted_post = refl

send_batch-serve_posts_example :
    (k : ℕ) × (1 ≤ k)
    × (k ≤ 4)
    × (let posts = repeat k (post_for plain tools client "/updates" (8 ∷ []) out) in
        let after = serve_posts router "10.0.0.1" posts server in
        ((send_batch plain tools client steady [] steady (of_counter "a" 2 ∷ metrics) wire).1.sent
          ≡ wire.sent ++ posts)
        × (mem_storage-Lawful.counter_at after.storage "a"
            ≡ counted
                (mem_storage-Lawful.counter_at server.storage "a")
                (copies k (deltas "a" (applied (of_counter "a" 2 ∷ metrics)))))
        × (mem_storage-Lawful.gauge_at after.storage "a"
            ≡ or_else
                (last_value "a" (applied (of_counter "a" 2 ∷ metrics)))
                (mem_storage-Lawful.gauge_at server.storage "a")))
send_batch-serve_posts_example =
    send_batch-serve_posts std mem_storage mem_storage-Lawful (λ names. names) (λ t. t) none chi net
      gz plain tools client loader cfg router 32 steady [] steady (of_counter "a" 2) metrics
      (8 ∷ []) (7 ∷ 8 ∷ []) out "10.0.0.1" wire server "a" hands_on dispatches agrees made loads
      refl (inr ("10.0.0.1", a_subnet, refl, trusted_post)) refl refl refl encrypts
