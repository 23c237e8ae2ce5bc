-- ===== src/ByteIo/Trip.antt =====
-- What a writer appends, a reader takes back and leaves what follows: the statement that each
-- field of a datagram satisfies, and the rules by which the fields of a datagram compose.
use ntied.Common.{◌≡◌, refl, sym, ap, ◌∙◌, [], ◌++◌, ok, append_assoc, append-nil}
use ntied.ByteIo.{Bytes, Reader, Writer, ◌>>=◌, ◌>>◌, return, skip}

-- The writer appends `bytes`, and the reader reads `value` from them.
pub record Trip {A : Type 0} (w : Writer) (r : Reader A) (value : A) : Type 0 where
  pub bytes : Bytes
  pub writes : (out : Bytes) → w out ≡ out ++ bytes
  pub reads : (rest : Bytes) → r (bytes ++ rest) ≡ ok (value, rest)

pub Trip-return : {A : Type 0} (value : A) → Trip skip (return value) value
unfolding skip return
Trip-return value = record {
  bytes = [];
  writes = λ out. sym (append-nil out);
  reads = λ rest. refl;
}

-- One field, and then the fields after it.
pub Trip-bind :
    {A B : Type 0} {w v : Writer} {r : Reader A} (f : A → Reader B) {a : A} {b : B}
    → Trip w r a
    → Trip v (f a) b
    → Trip (w >> v) (r >>= f) b
unfolding ◌>>=◌ ◌>>◌
Trip-bind {v} f t u = record {
  bytes = t.bytes ++ u.bytes;
  writes =
      λ out. ap v (t.writes out) ∙ u.writes (out ++ t.bytes) ∙ append_assoc out t.bytes u.bytes;
  reads = λ rest.
      rw (append_assoc t.bytes u.bytes rest, t.reads (u.bytes ++ rest), ◌>>=◌) (u.reads rest);
}

-- The last field: what is left of the reader returns.
pub Trip-last :
    {A B : Type 0} {w : Writer} {r : Reader A} (f : A → Reader B) {a : A} {b : B}
    → Trip w r a
    → ((rest : Bytes) → f a rest ≡ ok (b, rest))
    → Trip w (r >>= f) b
unfolding ◌>>=◌
Trip-last f t done = record {
  bytes = t.bytes;
  writes = t.writes;
  reads = λ rest. rw (t.reads rest, ◌>>=◌) (done rest);
}

-- A value that was written alone is read back, with whatever follows left.
pub Trip-whole :
    {A : Type 0} {w : Writer} {r : Reader A} {a : A}
    → Trip w r a
    → (rest : Bytes) → r (w [] ++ rest) ≡ ok (a, rest)
Trip-whole {r} t rest = rw (t.writes []) (t.reads rest)
