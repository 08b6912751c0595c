-- ===== src/Repository/File/Sample.antt =====
-- A codec, a weather and a run of the storage in a file, for the tests. The codec writes only metrics
-- named "a": a tag for the kind, and the number.
use mathlib.Core.List.Perm
use go_metrics_stas.Prelude.{
  ℕ, zero, suc, ◌≡◌, Option, none, some, true, false, ◌&&◌, List, [], ◌∷◌, ◌==◌, arith, eq_iff,
  Option-cases, inl, inr, eqb, if◌then◌else◌,
}
use go_metrics_stas.Model.{Metrics, gauge, counter}
use go_metrics_stas.Repository.Mem.{of_gauge, of_counter}
use go_metrics_stas.Repository.File.{Bytes, Codec, Weather, Mkdir}
use go_metrics_stas.Repository.File.Start.{FileConfig, Event}

abbrev only : ℕ → Option ℕ → Option ℕ → Option (ℕ × ℕ)
only tag (some n) none = some (tag, n)
only tag _ _ = none

abbrev encode_item : Metrics → Option (ℕ × ℕ)
encode_item m =
    if m.id == "a" && m.hash == ""
    then (if m.mtype == gauge
        then only 0 m.value m.delta
        else if m.mtype == counter
        then only 1 m.delta m.value
        else none)
    else none

abbrev decode_item : ℕ → ℕ → Metrics
decode_item zero n = of_gauge "a" n
decode_item (suc t) n = of_counter "a" n

decode_item-encode_item :
    (m : Metrics) (t n : ℕ) → encode_item m ≡ some (t, n) → decode_item t n ≡ m
decode_item-encode_item m t n h =
    ground (arith, eq_iff m.id "a", eq_iff m.hash "", eq_iff m.mtype gauge, eq_iff m.mtype counter)

abbrev join : Option (ℕ × ℕ) → Option Bytes → Option Bytes
join (some (t, n)) (some b) = some (t ∷ n ∷ b)
join _ _ = none

abbrev pub encode : List Metrics → Option Bytes
encode [] = some []
encode (m ∷ items) = join (encode_item m) (encode items)

abbrev cons_item : Metrics → Option (List Metrics) → Option (List Metrics)
cons_item m none = none
cons_item m (some items) = some (m ∷ items)

abbrev pub decode : Bytes → Option (List Metrics)
decode [] = some []
decode (t ∷ []) = none
decode (t ∷ n ∷ b) = cons_item (decode_item t n) (decode b)

joined :
    (m : Metrics) (items : List Metrics) (b : Bytes) (t n : ℕ) (r : Bytes)
    → encode (m ∷ items) ≡ some b
    → encode_item m ≡ some (t, n)
    → encode items ≡ some r
    → decode r ≡ some items
    → decode b ≡ some (m ∷ items)
joined m items b t n r h e f d =
    let w : t ∷ n ∷ r ≡ b = cc in rw (← w, d, decode_item-encode_item m t n e)

pub decode-encode :
    (items : List Metrics) (b : Bytes) → encode items ≡ some b → decode b ≡ some items
decode-encode [] b h = ground arith
decode-encode (m ∷ items) b h = elim (Option-cases (encode_item m)) [
  | inl e ↦ absurd (cc)
  | inr (p, e) ↦ elim (Option-cases (encode items)) [
    | inl f ↦ absurd (cc)
    | inr (r, f) ↦ joined m items b p.0 p.1 r h e f (decode-encode items r f)
  ]
]

abbrev pub sample_codec : Codec
sample_codec = record { encode = encode; decode = decode; decode-encode = decode-encode }

abbrev fair : Weather
fair = record {
  order = λ items. items;
  order-perm = λ items. Perm.refl items;
  mkdir = Mkdir.exists;
  create_fails = false;
  write_fails = none;
  close_fails = false;
  rename_fails = false;
}

-- The third save cannot rename its file.
abbrev pub changing : ℕ → Weather
changing n = if eqb n 2 then record fair { rename_fails = true } else fair

abbrev pub sample_config : FileConfig
sample_config = record { file_storage_path = "/tmp/m.json"; store_interval = 0; restore = true }

abbrev pub sample_events : List Event
sample_events =
    Event.set "a" 5
    ∷ Event.add "a" 7
    ∷ Event.add "a" 8
    ∷ Event.tick
    ∷ Event.batch (of_counter "a" 2 ∷ of_counter "a" 3 ∷ [])
    ∷ []
