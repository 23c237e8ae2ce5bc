-- ===== src/Adpcm/Recovery.antt =====
-- A packet of the ADPCM encoder is heard as it was spoken, whatever was heard before it.
use ntied.Common.{
  ℕ, ◌+◌, ◌*◌, ◌/◌, ◌%◌, ◌<◌, ◌≡◌, refl, ap, Bool-cases, inl, inr, true, false, List, [], ◌∷◌, ◌++◌,
  map, ok, All, ◌==◌, arith, subst,
}
use ntied.Adpcm.{Channel, at_most, decode_nibble}
use ntied.Adpcm.Lockstep.{IsChannel}
use ntied.Adpcm.Nibbles.{AreChannels, Heard, decode_from-Heard, encode_from-AreChannels}
use ntied.Adpcm.Frame.{
  SampleFloat, Voices, Encoder, Decoder, channel_of, decode_on, header_of, read_header, headers,
  encode_from, decode_from, encode, decode, decode_data, decode_mono, decode_stereo,
}

-- With one channel, the right one does not matter.
decode_from_left :
    (channels n : ℕ) (bytes : List ℕ) (l r r' : Channel)
    → (channels == 2) ≡ false
    → (decode_from channels n bytes (record { left = l; right = r })).1
      ≡ (decode_from channels n bytes (record { left = l; right = r' })).1
unfolding decode_from channel_of decode_on
decode_from_left channels n [] l r r' mono = refl
decode_from_left channels n (b ∷ rest) l r r' mono =
    let (first, low) = decode_nibble (b % 16) l in
    let (second, high) = decode_nibble (b / 16) first in
    rw mono
      (ap (λ xs. low ∷ high ∷ xs) (decode_from_left channels (n + 1 + 1) rest second r r' mono))

read_header-header_of :
    (c : Channel)
    → IsChannel c
    → read_header
        ((c.predictor + 32768) % 65536 % 256)
        ((c.predictor + 32768) % 65536 / 256)
        (c.step_index % 256)
      ≡ c
unfolding read_header
read_header-header_of c (p, i) =
    let predictor : ((c.predictor + 32768) % 65536 % 256
            + 256 * ((c.predictor + 32768) % 65536 / 256)
            + 32768)
          % 65536
        ≡ c.predictor =
      omega (arith, p) in
    let index : at_most 88 (c.step_index % 256) ≡ c.step_index = ground (arith, i) in
    rw (predictor, index) refl

module _ (float : SampleFloat) (d : Decoder float) where
  decode_one :
      (l : Channel) (bytes : List ℕ)
      → (d.channels == 2) ≡ false
      → IsChannel l
      → decode float (header_of l ++ bytes) d
        ≡ ok (decode_data float (record d.voices { left = l }) bytes d)
  unfolding decode decode_mono header_of
  decode_one l bytes mono valid = rw (mono, read_header-header_of l valid) refl

  decode_two :
      (v : Voices) (bytes : List ℕ)
      → (d.channels == 2) ≡ true
      → AreChannels v
      → decode float (header_of v.left ++ (header_of v.right ++ bytes)) d
        ≡ ok (decode_data float v bytes d)
  unfolding decode decode_stereo header_of
  decode_two v bytes stereo (l, r) =
      rw (stereo, read_header-header_of v.left l, read_header-header_of v.right r) refl

map-All :
    (float : SampleFloat) (samples : List float.F32)
    → ((x : float.F32) → float.to_i16 x < 65536)
    → All (λ s. s < 65536) (map float.to_i16 samples)
map-All float [] range = tt
map-All float (x ∷ rest) range = (range x, map-All float rest range)

module _ (float : SampleFloat) (e : Encoder) (samples : List float.F32) where
  spoken : List ℕ
  spoken = (encode_from e.channels 0 0 (map float.to_i16 samples) e.voices).1

  encode_one :
      (e.channels == 2) ≡ false → (encode float samples e).1 ≡ header_of e.voices.left ++ spoken
  unfolding encode headers header_of spoken
  encode_one mono = rw mono refl

  encode_two :
      (e.channels == 2) ≡ true
      → (encode float samples e).1 ≡ header_of e.voices.left ++ (header_of e.voices.right ++ spoken)
  unfolding encode headers header_of spoken
  encode_two stereo = rw stereo refl

  spoken-Heard :
      ((x : float.F32) → float.to_i16 x < 65536)
      → Heard e.channels 0 e.voices
          (map float.to_i16 samples)
          (decode_from e.channels 0 spoken e.voices).1
  unfolding spoken
  spoken-Heard range =
      decode_from-Heard e.channels 0 (map float.to_i16 samples) e.voices refl
        (map-All float samples range)

-- For an encoder whose channels are in range and a decoder for as many channels, in whatever state
-- earlier or lost packets left it, if conversion gives 16-bit samples: the decoder takes the
-- packet, and what it puts out has one sample for each that went in (and one more if they were
-- odd), close to it (an eighth of the step and 2) wherever it was less than two steps away from the
-- predictor of its channel; and the encoder's channels are in range after it.
pub frame-decode-encode :
    (float : SampleFloat) (e : Encoder) (d : Decoder float) (samples : List float.F32)
    → ((x : float.F32) → float.to_i16 x < 65536)
    → e.channels ≡ d.channels
    → AreChannels e.voices
    → (d' : Decoder float) × (heard : List ℕ) × (decode float (encode float samples e).1 d
        ≡ ok (d', map float.of_i16 heard))
      × Heard e.channels 0 e.voices (map float.to_i16 samples) heard
      × AreChannels (encode float samples e).0.voices
unfolding decode_data encode
frame-decode-encode float e d samples range same (l, r) =
    let bytes = spoken float e samples in
    let heard = λ (n : ℕ) (v : Voices). (decode_from n 0 bytes v).1 in
    let Close = Heard e.channels 0 e.voices (map float.to_i16 samples) in
    let close = spoken-Heard float e samples range in
    let valid = encode_from-AreChannels e.channels 0 0 (map float.to_i16 samples) e.voices (l, r) in
    elim (Bool-cases (e.channels == 2)) [
      | inl stereo ↦
          let stereo' = subst (λ n. (n == 2) ≡ true) same stereo in
          (
            (decode_data float e.voices bytes d).0,
            heard d.channels e.voices,
            rw (encode_two float e samples stereo)
                (decode_two float d e.voices bytes stereo' (l, r)),
            subst (λ n. Close (heard n e.voices)) same close,
            valid,
          )
      | inr mono ↦
          let mono' = subst (λ n. (n == 2) ≡ false) same mono in
          let voices = record d.voices { left = e.voices.left } in
          (
            (decode_data float voices bytes d).0,
            heard d.channels voices,
            rw (encode_one float e samples mono) (decode_one float d e.voices.left bytes mono' l),
            subst Close
                (decode_from_left d.channels 0 bytes e.voices.left e.voices.right d.voices.right
                  mono')
                (subst (λ n. Close (heard n e.voices)) same close),
            valid,
          )
    ]
