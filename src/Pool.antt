-- ===== src/Pool.antt =====
-- internal/pool/pool.go: objects that are used again. A `sync.Pool` gives any object that it holds or a
-- new one, and may forget what it holds.
pub mod Sole
mod Tests
use go_metrics_stas.Prelude.{
  ℕ, suc, ◌+◌, ◌≡◌, String, Option, none, some, Bool, true, false, not, List, [], ◌∷◌, ◌++◌, ltb,
  if◌then◌else◌,
}
use go_metrics_stas.Http.{Bytes}

-- How a pool treats its objects: what it makes, whether an object can be set up for what a user brings,
-- what is done to it when it is handed out to a user and when it comes back, and whether it is then
-- kept.
pub record Policy (X A : Type 0) : Type 0 where
  pub new : A
  pub opens : X → Bool
  pub on_get : X → A → A
  pub on_put : A → A
  pub keeps : A → Bool

-- `bytes.Buffer`
pub record Buffer : Type 0 where
  pub bytes : Bytes
  pub cap : ℕ

abbrev pub reset : Buffer → Buffer
reset b = record b { bytes = [] }

-- `GetBuffer` and `PutBuffer`
unfoldable pub buffers : Policy (Unit {0}) Buffer
buffers = record {
  new = record { bytes = []; cap = 0 };
  opens = λ x. true;
  on_get = λ x b. reset b;
  on_put = reset;
  keeps = λ b. not (ltb 65536 b.cap);
}

-- A `gzip.Writer`: where it writes to, by a number, and whether it is closed.
pub record GzipWriter : Type 0 where
  pub target : Option ℕ
  pub closed : Bool

-- `GetGzipWriter` and `PutGzipWriter`
unfoldable pub gzip_writers : Policy ℕ GzipWriter
gzip_writers = record {
  new = record { target = none; closed = false };
  opens = λ w. true;
  on_get = λ w zw. record { target = some w; closed = false };
  on_put = λ zw. record zw { closed = true };
  keeps = λ zw. true;
}

-- A `gzip.Reader`: where it reads from, and whether it is closed.
pub record GzipReader : Type 0 where
  pub source : Option ℕ
  pub closed : Bool

-- `GetGzipReader` and `PutGzipReader`. A user brings a reader, with whether a gzip header can be read
-- from it; the New of this pool is `gzip.NewReader`.
unfoldable pub gzip_readers : Policy (ℕ × Bool) GzipReader
gzip_readers = record {
  new = record { source = none; closed = false };
  opens = λ (r : ℕ × Bool). r.1;
  on_get = λ (r : ℕ × Bool) zr. record { source = some r.0; closed = false };
  on_put = λ zr. record zr { closed = true };
  keeps = λ zr. true;
}

-- The methods of `Pool[T]`, for a type with a method Reset.
abbrev pub resetters : {T : Type 0} → T → (T → T) → Policy (Unit {0}) T
resetters new reset = record {
  new = new;
  opens = λ x. true;
  on_get = λ x t. t;
  on_put = reset;
  keeps = λ t. true;
}

-- The objects in the pool, those that users hold, with their identities, and how many were made.
pub record State (A : Type 0) : Type 0 where
  pub pooled : List (ℕ × A)
  pub held : List (ℕ × A)
  pub made : ℕ

abbrev pub empty_pool : {A : Type 0} → State A
empty_pool = record { pooled = []; held = []; made = 0 }

module _ {X A : Type 0} (p : Policy X A) where
  abbrev pub put : ℕ → A → List (ℕ × A) → List (ℕ × A)
  put i a pooled = if p.keeps a then (i, p.on_put a) ∷ pooled else pooled

  -- Any interleaving of users. A user puts back what it holds, and then holds it no more.
  pub data Step : State A → State A → Type 0 where
    gets :
        {s : State A} (x : X) (us vs : List (ℕ × A)) (i : ℕ) (a : A)
        → s.pooled ≡ us ++ (i, a) ∷ vs
        → p.opens x ≡ true
        → Step s (record s { pooled = us ++ vs; held = (i, p.on_get x a) ∷ s.held })
    -- An object that cannot be set up is dropped.
    loses :
        {s : State A} (x : X) (us vs : List (ℕ × A)) (i : ℕ) (a : A)
        → s.pooled ≡ us ++ (i, a) ∷ vs
        → p.opens x ≡ false
        → Step s (record s { pooled = us ++ vs })
    makes :
        {s : State A} (x : X)
        → p.opens x ≡ true
        → Step s (record s { held = (s.made, p.on_get x p.new) ∷ s.held; made = suc s.made })
    uses :
        {s : State A} (us vs : List (ℕ × A)) (i : ℕ) (a b : A)
        → s.held ≡ us ++ (i, a) ∷ vs
        → Step s (record s { held = us ++ (i, b) ∷ vs })
    puts :
        {s : State A} (us vs : List (ℕ × A)) (i : ℕ) (a : A)
        → s.held ≡ us ++ (i, a) ∷ vs
        → Step s (record s { pooled = put i a s.pooled; held = us ++ vs })
    forgets :
        {s : State A} (us vs : List (ℕ × A)) (i : ℕ) (a : A)
        → s.pooled ≡ us ++ (i, a) ∷ vs
        → Step s (record s { pooled = us ++ vs })

  pub data Run : State A → Type 0 where
    start : Run empty_pool
    next : {s t : State A} → Run s → Step s t → Run t
