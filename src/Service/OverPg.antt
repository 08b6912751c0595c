-- ===== src/Service/OverPg.antt =====
-- The service over `postgresStorage`, and what its clients are answered.
use go_metrics_stas.Prelude.{◌≡◌, refl, ap, List, [], ◌∷◌, All}
use go_metrics_stas.Model.{Int64, Float64}
use go_metrics_stas.Outcome.{Result}
use go_metrics_stas.Repository.{Storage}
use go_metrics_stas.Repository.Mem.{MemStorage}
use go_metrics_stas.Repository.Pg.{Db}
use go_metrics_stas.Repository.Pg.Refines.{
  Call, gauge_set, counter_add, gauge_of, counter_of, batch, Answer, gauge_is, counter_is, batch_is,
  answer, tell, CallFits, pg_storage, checked_storage, Simulates, answer-Alike,
}
use go_metrics_stas.Service
use go_metrics_stas.Service.Alike

gauge_is-inj : (r q : Result Float64) → gauge_is r ≡ gauge_is q → r ≡ q
gauge_is-inj r q h = cc

counter_is-inj : (r q : Result Int64) → counter_is r ≡ counter_is q → r ≡ q
counter_is-inj r q h = cc

-- A database that is calm and shows the metrics in memory matches them.
pub pg_matching : Alike.Matching pg_storage checked_storage
unfolding answer tell
pg_matching = record {
  Matches = Simulates;
  update_gauge = λ id v db ms h. (answer-Alike (gauge_set id v) db ms tt h).1;
  update_counter = λ id d db ms f h. (answer-Alike (counter_add id d) db ms f h).1;
  get_gauge = λ id db ms h.
      let (same, next) = answer-Alike (gauge_of id) db ms tt h in (gauge_is-inj _ _ same, next);
  get_counter = λ id db ms h.
      let (same, next) = answer-Alike (counter_of id) db ms tt h in (counter_is-inj _ _ same, next);
}

module _ {S : Type 0} (repo : Storage S) where
  -- What the service answers to a call, and to some calls, one after the other.
  unfoldable pub serve : Call → S → Answer × S
  unfolding tell
  serve (gauge_set id v) s = tell batch_is (Service.update_gauge repo id v s)
  serve (counter_add id d) s = tell counter_is (Service.update_counter repo id d s)
  serve (gauge_of id) s = tell gauge_is (Service.get_gauge repo id s)
  serve (counter_of id) s = tell counter_is (Service.get_counter repo id s)
  serve (batch items) s = tell batch_is (Service.update_batch repo items s)

  unfoldable pub serve_all : List Call → S → List Answer
  serve_all [] s = []
  serve_all (c ∷ calls) s = let (a, s') = serve c s in a ∷ serve_all calls s'

module _ {S T : Type 0} (st : Storage S) (other : Storage T) (m : Alike.Matching st other) where
  tell-Alike :
      {A : Type 0} (f : Result A → Answer) (x : Result A × S) (y : Result A × T)
      → Alike.Alike st other m x y
      → ((tell f x).0 ≡ (tell f y).0) × m.Matches (tell f x).1 (tell f y).1
  unfolding tell
  tell-Alike f x y h = (ap f h.0, h.1)

  serve-Alike :
      (c : Call) (s : S) (t : T)
      → CallFits c
      → m.Matches s t
      → ((serve st c s).0 ≡ (serve other c t).0) × m.Matches (serve st c s).1 (serve other c t).1
  unfolding serve
  serve-Alike (gauge_set id v) s t f h =
      tell-Alike batch_is _ _ (Alike.update_gauge-Alike st other m id v s t h)
  serve-Alike (counter_add id d) s t f h =
      tell-Alike counter_is _ _ (Alike.update_counter-Alike st other m id d s t f h)
  serve-Alike (gauge_of id) s t f h =
      tell-Alike gauge_is _ _ (Alike.get_gauge-Alike st other m id s t h)
  serve-Alike (counter_of id) s t f h =
      tell-Alike counter_is _ _ (Alike.get_counter-Alike st other m id s t h)
  serve-Alike (batch items) s t f h =
      tell-Alike batch_is _ _ (Alike.update_batch-Alike st other m items s t f h)

  serve_all-Alike :
      (calls : List Call) (s : S) (t : T)
      → All CallFits calls
      → m.Matches s t
      → serve_all st calls s ≡ serve_all other calls t
  unfolding serve_all
  serve_all-Alike [] s t f h = refl
  serve_all-Alike (c ∷ calls) s t (f, fs) h =
      let (same, next) = serve-Alike c s t f h in rw (same, serve_all-Alike calls _ _ fs next) refl

-- From a table that shows the metrics in memory, and while no call of the database fails, the service
-- answers any updates, batches and reads of single metrics whose deltas are int64s over PostgreSQL as
-- over the storage in memory that adds up within a BIGINT: with the same values and the same errors.
pub serve_all-Simulates :
    (calls : List Call) (db : Db) (ms : MemStorage)
    → All CallFits calls
    → Simulates db ms
    → serve_all pg_storage calls db ≡ serve_all checked_storage calls ms
unfolding pg_matching
serve_all-Simulates = serve_all-Alike pg_storage checked_storage pg_matching
