-- ===== src/Connection/Nonces.antt =====
-- No two packets of a connection are sealed with one nonce.
use ntied.Common.{
  ℕ, ◌+◌, ◌^◌, ◌<◌, ◌≡◌, List, [], ◌∷◌, some, arith, subst, length, Option-cases, inl, inr,
}
use ntied.ByteIo.{SocketAddr}
use ntied.Crypto.{Primitives}
use ntied.Connection.State.{Identity, Entropy, Link}
use ntied.Connection.Loop.{
  on_packet, recv, Event, heartbeat_tick, rotate_tick, received, sends, takes, step, run,
}
use ntied.Packet.{Packet, handshake, handshake_ack, encrypted}
use ntied.Connection.Numbering.{Numbered-NoncesDiffer, NoncesDiffer}
use mathlib.Core.Option.{some-injective}
use ntied.Connection.Fresh.{
  Fresh, StaysFresh, encrypted-Fresh, relax, heartbeat_tick-Fresh, rotate_tick-Fresh, send-Fresh,
}

module _ (p : Primitives) where
  packet-Fresh :
      (id : Identity p) (en : Entropy p) (n : ℕ)
      → n + 1 < 2 ^ 64
      → (now : ℕ) (addr : SocketAddr) (packet : Packet) (link : Link p) → Fresh p n link
      → StaysFresh p (n + 1) (on_packet p id en now addr packet link)
  unfolding on_packet
  packet-Fresh id en n bound now addr (handshake v) link h = relax p id en n bound link h
  packet-Fresh id en n bound now addr (handshake_ack v) link h = relax p id en n bound link h
  packet-Fresh id en n bound now addr (encrypted v) link h =
      encrypted-Fresh p id en n bound now addr v link h

  step-Fresh :
      (id : Identity p) (n : ℕ)
      → n + 1 < 2 ^ 64
      → (link : Link p) (e : Event p) → Fresh p n link
      → StaysFresh p (n + 1) (step p id link e)
  unfolding step
  step-Fresh id n bound link (heartbeat_tick en) h = heartbeat_tick-Fresh p id en n bound link h
  step-Fresh id n bound link (rotate_tick en) h = rotate_tick-Fresh p id en n bound link h
  step-Fresh id n bound link (received en now addr packet) h =
      packet-Fresh id en n bound now addr packet link h
  step-Fresh id n bound link (sends en bytes) h = send-Fresh p id en n bound bytes link h
  step-Fresh id n bound link takes h = unfold recv in ground arith

  run-Fresh :
      (id : Identity p) (n : ℕ) (es : List (Event p)) (link link' : Link p)
      → n + length es < 2 ^ 64
      → Fresh p n link
      → run p id link es ≡ some link'
      → Fresh p (n + length es) link'
  unfolding run
  run-Fresh id n [] link link' bound h e =
      subst (Fresh p (n + 0)) (some-injective _ _ e) (h.0, omega arith)
  run-Fresh id n (x ∷ es) link link' bound h e =
      let once = step-Fresh id n (omega arith) link x h in
      elim (Option-cases (step p id link x)) [
        | inl panic ↦ cc (rw (panic, run) at e)
        | inr (mid, after) ↦
            let (fresh, le) =
              run-Fresh id (n + 1) es mid link' (omega arith) (rw after at once)
                (rw (after, run) at e) in
            (fresh, omega arith)
      ]

  -- If a connection that sent nothing yet has its nonce counter and the number of the events that
  -- follow together below 2 ^ 64, then no two packets that it hands to the socket carry the same
  -- nonce: not across key rotations either, which keep the counter, and whatever the random part
  -- of the nonces is.
  pub run-NoncesDiffer :
      (id : Identity p) (es : List (Event p)) (link link' : Link p)
      → link.sent ≡ []
      → link.crypto.nonce_counter + length es < 2 ^ 64
      → run p id link es ≡ some link'
      → NoncesDiffer link'.sent
  run-NoncesDiffer id es link link' empty bound e =
      let start : Fresh p link.crypto.nonce_counter link = (rw empty (omega arith), omega arith) in
      let (numbered, le) = run-Fresh id link.crypto.nonce_counter es link link' bound start e in
      Numbered-NoncesDiffer 0 link'.crypto.nonce_counter link'.sent (omega arith) numbered
