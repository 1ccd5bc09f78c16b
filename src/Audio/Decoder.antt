-- ===== src/Audio/Decoder.antt =====
-- IMClient/opus/opusdecoder.cpp. The opus library is a parameter.
use instance_message.Base.{ℕ, ◌*◌, Option, none, some, [], ◌++◌, Bytes, length, take, drop}
use instance_message.Audio.Encoder.{sample_rate, channels, frame_size}

-- opus_decoder_create, and opus_decode, with the packet and the size of the output in samples: the
-- number of samples that it returns, with the bytes that it wrote at the front of the output, or
-- `none` for a negative result.
pub record OpusPlayer : Type 1 where
  pub Decoder : Type 0
  pub opus_decoder_create : (sample_rate channels : ℕ) → Option Decoder
  pub opus_decode : Decoder → Bytes → (frame_size : ℕ) → Decoder × Option (ℕ × Bytes)

module _ (p : OpusPlayer) where
  -- m_decoder, m_pcmBuffer, and what was written to m_outIo.
  pub record OpusDecoderWrapper : Type 0 where
    pub decoder : p.Decoder
    pub pcm_buffer : Bytes
    pub played : Bytes

  -- The constructor; `none` is qFatal. The buffer holds anything.
  unfoldable pub new_decoder_wrapper : Bytes → Option OpusDecoderWrapper
  new_decoder_wrapper uninitialized = elim (p.opus_decoder_create sample_rate channels) [
    | none ↦ none
    | some d ↦ some (record { decoder = d; pcm_buffer = uninitialized; played = [] })
  ]

  -- playPacket: the samples are decoded into the front of the buffer, and as many bytes of it as the
  -- samples take are written out.
  unfoldable pub play_packet : Bytes → OpusDecoderWrapper → OpusDecoderWrapper
  play_packet packet w =
      let (d, decoded) = p.opus_decode w.decoder packet frame_size in
      elim decoded [
        | none ↦ record w { decoder = d }
        | some (out_samples, pcm) ↦
            (let buffer = pcm ++ drop (length pcm) w.pcm_buffer in
              record w {
                decoder = d;
                pcm_buffer = buffer;
                played = w.played ++ take (out_samples * channels * 2) buffer;
              })
      ]
