-- ===== src/Audio/Encoder.antt =====
-- IMClient/opus/opusencoder.cpp. The opus library is a parameter. Of Qt's audio input, what is
-- captured and not read yet is given, and how many bytes each `read` hands out at most.
use Prim.Native.Nat.{min}
use instance_message.Base.{
  ℕ, zero, suc, ◌*◌, Option, none, some, List, [], ◌∷◌, ◌++◌, Bytes, length, take, drop, leb,
  if◌then◌else◌, ◌==◌,
}

-- opus_encoder_create, where `none` is an error, and opus_encode, with the frame, the size of the
-- frame in samples and the size of the output, where `none` is a negative result.
pub record Opus : Type 1 where
  pub Encoder : Type 0
  pub opus_encoder_create : (sample_rate channels : ℕ) → Option Encoder
  pub opus_encode : Encoder → Bytes → (frame_size max_data_bytes : ℕ) → Encoder × Option Bytes

abbrev pub sample_rate : ℕ
sample_rate = 48000

abbrev pub channels : ℕ
channels = 1

abbrev pub frame_size : ℕ
frame_size = 960

abbrev pub max_data_bytes : ℕ
max_data_bytes = 4000

-- m_buffer.size( ), with shorts of two bytes.
abbrev pub buffer_size : ℕ
buffer_size = frame_size * channels * 2

-- A QAudioInput: its number and what it has captured.
pub record AudioInput : Type 0 where
  pub number : ℕ
  pub ready : Bytes

module _ (o : Opus) where
  -- m_encoder, m_audioIn, and the inputs that capture, which are children of the object: each calls
  -- handleReadyRead when it has something.
  pub record OpusEncoderWrapper : Type 0 where
    pub encoder : o.Encoder
    pub audio_in : Option AudioInput
    pub capturing : List ℕ

  -- The constructor; `none` is qFatal.
  unfoldable pub new_encoder_wrapper : Option OpusEncoderWrapper
  new_encoder_wrapper = elim (o.opus_encoder_create sample_rate channels) [
    | none ↦ none
    | some e ↦ some (record { encoder = e; audio_in = none; capturing = [] })
  ]

  -- start, with the number of the new input.
  unfoldable pub start : ℕ → OpusEncoderWrapper → OpusEncoderWrapper
  start number w = record w {
    audio_in = some (record { number = number; ready = [] });
    capturing = w.capturing ++ number ∷ [];
  }

  abbrev pub without : ℕ → List ℕ → List ℕ
  without n [] = []
  without n (k ∷ ks) = if k == n then without n ks else k ∷ without n ks

  unfoldable pub stop : OpusEncoderWrapper → OpusEncoderWrapper
  stop w = elim w.audio_in [
    | none ↦ w
    | some a ↦ record w { audio_in = none; capturing = without a.number w.capturing }
  ]

  -- What one `read` into m_buffer gets of what is ready; where nothing is listed it gets all that it
  -- asks for.
  abbrev pub read : List ℕ → Bytes → Bytes × Bytes × List ℕ
  read [] ready = (take buffer_size ready, drop buffer_size ready, [])
  read (k ∷ sizes) ready = (take (min k buffer_size) ready, drop (min k buffer_size) ready, sizes)

  -- What the loop of handleReadyRead comes to: the encoder, what stays ready, and the packets of the
  -- signals.
  abbrev pub Captured : Type 0
  Captured = o.Encoder × Bytes × List Bytes

  abbrev pub with_packet : Option Bytes → Captured → Captured
  with_packet none rest = rest
  with_packet (some packet) rest = (rest.0, rest.1, packet ∷ rest.2)

  -- A round of it, after a read, with the rounds that follow.
  abbrev pub round :
      (o.Encoder → Bytes → List ℕ → Captured) → o.Encoder → Bytes × Bytes × List ℕ → Captured
  round more e (pcm, ready, sizes) =
      let (e', encoded) = o.opus_encode e pcm frame_size max_data_bytes in
      if length pcm == buffer_size
      then with_packet encoded (more e' ready sizes)
      else (e, ready, [])

  unfoldable pub capture : (rounds : ℕ) → o.Encoder → Bytes → List ℕ → Captured
  capture zero e ready sizes = (e, ready, [])
  capture (suc rounds) e ready sizes =
      let taken = round (capture rounds) e (read sizes ready) in
      if leb buffer_size (length ready) then taken else (e, ready, [])

  -- handleReadyRead, by an input that has captured; `none` is the use of m_audioIn when it is null.
  unfoldable pub handle_ready_read :
      (rounds : ℕ) → List ℕ → OpusEncoderWrapper → Option (OpusEncoderWrapper × List Bytes)
  unfolding capture
  handle_ready_read rounds sizes w = elim w.audio_in [
    | none ↦ none
    | some a ↦
        (let (e, ready, packets) = capture rounds w.encoder a.ready sizes in
          some (record w { encoder = e; audio_in = some (record a { ready = ready }) }, packets))
  ]
