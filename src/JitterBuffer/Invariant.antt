-- ===== src/JitterBuffer/Invariant.antt =====
-- The buffer stays sorted, and its numbers stay 32-bit, through every operation.
use ntied.Common.{◌*◌, ℕ, ◌^◌, ◌<◌, ◌≡◌, List, [], ◌∷◌, some, All, arith}
use ntied.Common.Map.{lookup, IsSorted, insert-IsSorted, remove-IsSorted, insert-All, remove-All}
use ntied.JitterBuffer.{
  Float32, BufferedFrame, Buffer, with_config, push, cleanup_old_packets, old_sequences, discard,
}

module _ (fl : Float32) (Frame : Type 0) where
  abbrev pub IsKey : ℕ × BufferedFrame Frame → Type 0
  IsKey (k, b) = k < 2 ^ 32

  -- Sequence numbers rise strictly along the buffer, and all of them are `u32`.
  pub record IsValid (jb : Buffer fl Frame) : Type 0 where
    pub sorted : IsSorted 0 jb.buffer
    pub keys : All IsKey jb.buffer
    pub next : jb.next_sequence < 2 ^ 32

  pub with_config-IsValid : (target delay : ℕ) → IsValid (with_config fl Frame target delay)
  unfolding with_config
  with_config-IsValid target delay = record { sorted = tt; keys = tt; next = omega arith }

  -- A push of a frame with a `u32` sequence number keeps a valid buffer valid.
  pub push-IsValid :
      (now sequence : ℕ) (frame : Frame) (jb : Buffer fl Frame)
      → sequence < 2 ^ 32
      → IsValid jb
      → IsValid (push fl Frame now sequence frame jb).0
  unfolding push
  push-IsValid now sequence frame jb h v = ground (
    arith,
    insert-IsSorted sequence 0 (record { frame = frame; received_at = now }) jb.buffer,
    insert-All IsKey sequence (record { frame = frame; received_at = now }) jb.buffer,
  )

  pub lookup-IsKey :
      (k : ℕ) (b : BufferedFrame Frame) (m : List (ℕ × BufferedFrame Frame))
      → All IsKey m
      → lookup k m ≡ some b
      → k < 2 ^ 32
  unfolding lookup
  lookup-IsKey k b [] h e = cc
  lookup-IsKey k b ((j, w) ∷ rest) h e = ground (arith, lookup-IsKey k b rest h.1)

  discard-IsValid :
      (seqs : List ℕ) (jb : Buffer fl Frame) → IsValid jb → IsValid (discard fl Frame seqs jb)
  unfolding discard
  discard-IsValid [] jb v = v
  discard-IsValid (seq ∷ rest) jb v = discard-IsValid rest _ (
      ground
        (arith, remove-IsSorted seq 0 jb.buffer v.sorted, remove-All IsKey seq jb.buffer v.keys))

  -- The cleanup of old packets keeps a valid buffer valid.
  pub cleanup-IsValid :
      (now : ℕ) (jb : Buffer fl Frame) → IsValid jb → IsValid (cleanup_old_packets fl Frame now jb)
  unfolding cleanup_old_packets
  cleanup-IsValid now jb v =
      discard-IsValid (old_sequences fl Frame (jb.max_delay * 2) now jb.buffer) jb v
