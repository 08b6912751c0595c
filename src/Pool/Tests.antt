-- ===== src/Pool/Tests.antt =====
-- Two users of the pool of buffers, one of whose buffers has grown too large.
use go_metrics_stas.Prelude.{refl, [], ◌∷◌, All}
use go_metrics_stas.Pool
use go_metrics_stas.Pool.{Buffer, State, buffers, Run, Step}
use go_metrics_stas.Pool.Sole.{IsSole, IsClean, buffers-IsSole}

abbrev small : Buffer
small = record { bytes = 1 ∷ 2 ∷ []; cap = 64 }

abbrev large : Buffer
large = record { bytes = 1 ∷ []; cap = 100000 }

abbrev last : State Buffer
last = record { pooled = (0, record { bytes = []; cap = 64 }) ∷ []; held = []; made = 2 }

Run-last : Run buffers last
unfolding buffers
Run-last =
    let a0 : Run buffers Pool.empty_pool = Pool.start in
    let a1 = Pool.next a0 (Pool.makes tt refl) in
    let a2 = Pool.next a1 (Pool.uses [] [] 0 (record { bytes = []; cap = 0 }) small refl) in
    let a3 = Pool.next a2 (Pool.makes tt refl) in
    let a4 =
      Pool.next a3 (Pool.uses [] ((0, small) ∷ []) 1 (record { bytes = []; cap = 0 }) large refl) in
    let a5 = Pool.next a4 (Pool.puts [] ((0, small) ∷ []) 1 large refl) in
    Pool.next a5 (Pool.puts [] [] 0 small refl)

buffers-IsSole_example : IsSole 0 last × All IsClean ((0, record { bytes = []; cap = 64 }) ∷ [])
buffers-IsSole_example = buffers-IsSole last Run-last 0
