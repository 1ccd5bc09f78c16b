-- ===== src/Audio/Examples.antt =====
-- The theorems on the sound of the client, with a library that keeps a frame as it is.
use instance_message.Base.{
  ℕ, ◌+◌, ◌*◌, ◌<◌, leb, if◌then◌else◌, ◌≡◌, refl, Option, none, some, List, [], ◌∷◌, ◌++◌, Bytes,
  length, replicate, arith,
}
use instance_message.Audio.Encoder.{
  Opus, OpusEncoderWrapper, AudioInput, buffer_size, frame_size, handle_ready_read,
}
use instance_message.Audio.Decoder.{OpusPlayer, OpusDecoderWrapper}
use instance_message.Audio.Frames.{AreFrames, concat, encode_all, captured_frames_are_sent}
use instance_message.Audio.Played.{Documented, play_all, decode_all, played_as_decoded}

abbrev plain : Opus
plain = record {
  Encoder = ℕ;
  opus_encoder_create = λ r c. some r;
  opus_encode = λ e pcm n m. (e + 1, some pcm);
}

-- Each byte of a packet is one sample of two bytes, and a packet of more than a frame is refused.
abbrev widened : Bytes → Bytes
widened [] = []
widened (b ∷ bs) = b ∷ 0 ∷ widened bs

abbrev fitting : Bytes → Option (ℕ × Bytes)
fitting packet =
    if leb (length packet) frame_size then some (length packet, widened packet) else none

abbrev plain_player : OpusPlayer
plain_player = record {
  Decoder = ℕ;
  opus_decoder_create = λ r c. some r;
  opus_decode = λ d packet n. (d + 1, fitting packet);
}

length-widened : (packet : Bytes) → length (widened packet) ≡ length packet * 2
length-widened [] = refl
length-widened (b ∷ bs) = omega (arith, length-widened bs)

plain-Documented : Documented plain_player
plain-Documented = record { writes = λ d packet n pcm e. ground (arith, length-widened packet, e) }

abbrev silence : Bytes
silence = replicate buffer_size 0

abbrev microphone : AudioInput
microphone = record { number = 1; ready = silence ++ 7 ∷ 7 ∷ [] }

abbrev at_rest : OpusEncoderWrapper plain
at_rest = record { encoder = 0; audio_in = none; capturing = [] }

abbrev recording : OpusEncoderWrapper plain
recording = record { encoder = 0; audio_in = some microphone; capturing = 1 ∷ [] }

captured_frames_are_sent_example :
    (fs : List Bytes) × (rest : Bytes) × AreFrames fs
    × (length rest < buffer_size)
    × (microphone.ready ≡ concat fs ++ rest)
    × (handle_ready_read plain 2000 [] recording
        ≡ some (
          record recording {
            encoder = (encode_all plain 0 fs).0;
            audio_in = some (record microphone { ready = rest });
          },
          (encode_all plain 0 fs).1,
        ))
captured_frames_are_sent_example =
    captured_frames_are_sent plain recording microphone 2000 refl (omega arith)

abbrev player : OpusDecoderWrapper plain_player
player = record { decoder = 0; pcm_buffer = silence; played = [] }

-- Two packets of one sample and two, with one between them that is too long.
played_as_decoded_example :
    let packets = (1 ∷ []) ∷ silence ∷ (2 ∷ 3 ∷ []) ∷ [] in
    let (d, pcms) = decode_all plain_player 0 packets in
    let v = play_all plain_player packets player in
    (v.decoder ≡ d)
    × (v.played ≡ player.played ++ concat pcms)
    × (length v.pcm_buffer ≡ buffer_size)
played_as_decoded_example =
    played_as_decoded plain_player plain-Documented ((1 ∷ []) ∷ silence ∷ (2 ∷ 3 ∷ []) ∷ []) player
      refl
