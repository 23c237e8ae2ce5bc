-- ===== src/Tests/Samples.antt =====
-- A few samples through the encoder and the decoder.
use ntied.Common.{◌≡◌, ℕ, List, [], ◌∷◌, refl}
use ntied.Adpcm.{Channel}
use ntied.Adpcm.Lockstep.{encode}

-- Predictor 0, step 7.
abbrev silent : Channel
silent = record { predictor = 32768; step_index = 0 }

abbrev samples : List ℕ
samples = 32770 ∷ 32780 ∷ 32760 ∷ 32000 ∷ []

nibbles : (encode silent samples).1 ≡ 1 ∷ 7 ∷ 13 ∷ 15 ∷ []
unfolding encode ntied.Adpcm.encode_sample ntied.Adpcm.quantize ntied.Adpcm.magnitude
    ntied.Adpcm.moved ntied.Adpcm.step_at ntied.Adpcm.has_bit ntied.Adpcm.step_diff
    ntied.Adpcm.next_index
nibbles = refl
