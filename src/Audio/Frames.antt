-- ===== src/Audio/Frames.antt =====
-- handleReadyRead of opusencoder.cpp takes whole frames, and playPacket of opusdecoder.cpp plays
-- what comes of them.
use instance_message.Base.{
  ℕ, zero, suc, ◌<◌, ◌≤◌, ◌≡◌, ◌≢◌, refl, sym, ap, ◌∙◌, inl, inr, true, Option, none, some, List,
  [], ◌∷◌, ◌++◌, Bytes, length, take, drop, leb, length-take, length-drop, length-append,
  take-append-drop, take-length, drop-length, append_assoc, arith, Bool-cases, leb→le, ◌==◌,
}
use instance_message.Audio.Encoder.{
  Opus, OpusEncoderWrapper, AudioInput, frame_size, max_data_bytes, buffer_size, read, round,
  with_packet, Captured, capture, handle_ready_read, start, stop,
}

abbrev pub concat : List Bytes → Bytes
concat [] = []
concat (f ∷ fs) = f ++ concat fs

abbrev pub AreFrames : List Bytes → Type 0
AreFrames [] = Unit {0}
AreFrames (f ∷ fs) = (length f ≡ buffer_size) × AreFrames fs

module _ (o : Opus) where
  abbrev pub kept : Option Bytes → List Bytes → List Bytes
  kept none ps = ps
  kept (some p) ps = p ∷ ps

  -- Each frame encoded in turn: the encoder afterwards, and the packets of those that it encodes.
  abbrev pub encode_all : o.Encoder → List Bytes → o.Encoder × List Bytes
  encode_all e [] = (e, [])
  encode_all e (f ∷ fs) =
      let (e', encoded) = o.opus_encode e f frame_size max_data_bytes in
      let rest = encode_all e' fs in (rest.0, kept encoded rest.1)

  one_frame :
      (rounds : ℕ) (e : o.Encoder) (f rest : Bytes)
      → length f ≡ buffer_size
      → let (e', encoded) = o.opus_encode e f frame_size max_data_bytes in
        capture o (suc rounds) e (f ++ rest) []
        ≡ with_packet o encoded (capture o rounds e' rest [])
  unfolding capture
  one_frame rounds e f rest size =
      let enough : leb buffer_size (length (f ++ rest)) ≡ true =
        ground (arith, length-append f rest) in
      let whole : (length f == buffer_size) ≡ true = ground arith in
      let got : read o [] (f ++ rest) ≡ (f, rest, []) =
        λ i. (take-length buffer_size f rest size i, drop-length buffer_size f rest size i, []) in
      rw enough (ap (round o (capture o rounds) e) got ∙ rw whole refl)

  kept_packet :
      (encoded : Option Bytes) (r : Captured o)
      → with_packet o encoded r ≡ (r.0, r.1, kept encoded r.2)
  kept_packet none r = refl
  kept_packet (some p) r = refl

  nothing_left :
      (rounds : ℕ) (e : o.Encoder) (rest : Bytes)
      → length rest < buffer_size
      → capture o rounds e rest [] ≡ (e, rest, [])
  unfolding capture
  nothing_left zero e rest h = refl
  nothing_left (suc rounds) e rest h = ground (arith, h)

  pub capture-concat :
      (rounds : ℕ) (e : o.Encoder) (fs : List Bytes) (rest : Bytes)
      → length fs < rounds
      → AreFrames fs
      → length rest < buffer_size
      → capture o rounds e (concat fs ++ rest) [] ≡ ((encode_all e fs).0, rest, (encode_all e fs).1)
  capture-concat zero e fs rest h a small = absurd (omega arith)
  capture-concat (suc rounds) e [] rest h a small = nothing_left (suc rounds) e rest small
  capture-concat (suc rounds) e (f ∷ fs) rest h a small =
      let (e', encoded) = o.opus_encode e f frame_size max_data_bytes in
      ap (λ b. capture o (suc rounds) e b []) (append_assoc f (concat fs) rest)
      ∙ one_frame rounds e f (concat fs ++ rest) a.0
      ∙ ap (with_packet o encoded) (capture-concat rounds e' fs rest (omega arith) a.1 small)
      ∙ kept_packet encoded _

-- Captured bytes as whole frames and what is left.
record Cut (b : Bytes) : Type 0 where
  frames : List Bytes
  rest : Bytes
  whole : AreFrames frames
  short : length rest < buffer_size
  joined : b ≡ concat frames ++ rest
  few : length frames ≤ length b

cut : (n : ℕ) (b : Bytes) → length b ≤ n → Cut b
cut zero b h = record {
  frames = [];
  rest = b;
  whole = tt;
  short = omega arith;
  joined = refl;
  few = omega arith;
}
cut (suc n) b h = elim (Bool-cases (leb buffer_size (length b))) [
  | inr less ↦ record {
    frames = [];
    rest = b;
    whole = tt;
    short = ground arith;
    joined = refl;
    few = omega arith;
  }
  | inl enough ↦
      let long = leb→le buffer_size (length b) enough in
      let c = cut n (drop buffer_size b) (omega (arith, length-drop buffer_size b)) in
      record {
        frames = take buffer_size b ∷ c.frames;
        rest = c.rest;
        whole = (omega (arith, length-take buffer_size b), c.whole);
        short = c.short;
        joined =
            sym (take-append-drop buffer_size b)
            ∙ ap (◌++◌ (take buffer_size b)) c.joined
            ∙ sym (append_assoc (take buffer_size b) (concat c.frames) c.rest);
        few = omega (arith, c.few, length-drop buffer_size b);
      }
]

module _ (o : Opus) where
  -- The loop over what is captured ends by itself, with as many rounds as there are bytes and one
  -- more: what was ready is cut into frames of 20 ms, each is encoded in turn and signalled as one
  -- packet if the library encodes it, and less than a frame stays ready. Each `read` is taken to
  -- get all that it asks for.
  pub captured_frames_are_sent :
      (w : OpusEncoderWrapper o) (a : AudioInput) (rounds : ℕ)
      → w.audio_in ≡ some a
      → length a.ready < rounds
      → (fs : List Bytes) × (rest : Bytes) × AreFrames fs
        × (length rest < buffer_size)
        × (a.ready ≡ concat fs ++ rest)
        × (handle_ready_read o rounds [] w
            ≡ some (
              record w {
                encoder = (encode_all o w.encoder fs).0;
                audio_in = some (record a { ready = rest });
              },
              (encode_all o w.encoder fs).1,
            ))
  unfolding handle_ready_read
  captured_frames_are_sent w a rounds e enough =
      let c = cut (length a.ready) a.ready (omega arith) in
      (
        c.frames,
        c.rest,
        c.whole,
        c.short,
        c.joined,
        ap
              (λ x. elim x as (λ _. Option (OpusEncoderWrapper o × List Bytes)) [
                | none ↦ none
                | some b ↦ some (
                  record w {
                    encoder = (capture o rounds w.encoder b.ready []).0;
                    audio_in =
                        some (record b { ready = (capture o rounds w.encoder b.ready []).1 });
                  },
                  (capture o rounds w.encoder b.ready []).2,
                )
              ])
              e
            ∙ ap
                (λ (r : Captured o).
                  some
                    (record w { encoder = r.0; audio_in = some (record a { ready = r.1 }) }, r.2))
                (ap (λ b. capture o rounds w.encoder b []) c.joined
                  ∙ capture-concat o rounds w.encoder c.frames c.rest (omega (arith, c.few)) c.whole
                      c.short),
      )

  -- A second `start` without a `stop` leaves the first input capturing: after one `stop` its next
  -- signal has handleReadyRead use the null pointer.
  second_start_breaks_stop :
      (w : OpusEncoderWrapper o) (first second rounds : ℕ) (sizes : List ℕ)
      → w.capturing ≡ []
      → first ≢ second
      → let v = stop o (start o second (start o first w)) in
        (v.capturing ≡ first ∷ []) × (handle_ready_read o rounds sizes v ≡ none)
  unfolding stop start handle_ready_read
  second_start_breaks_stop w first second rounds sizes e ne = (ground arith, refl)
