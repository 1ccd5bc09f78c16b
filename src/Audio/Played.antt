-- ===== src/Audio/Played.antt =====
-- Packets played one after the other by playPacket of opusdecoder.cpp.
use instance_message.Base.{
  ℕ, ◌*◌, ◌≤◌, ◌≡◌, subst, refl, ap, ◌∙◌, Option, Option-cases, inl, inr, none, some, List, [], ◌∷◌,
  ◌++◌, Bytes, length, length-append, length-drop, take, drop, sym, append-nil, append_assoc,
  take-length, arith,
}
use instance_message.Audio.Encoder.{channels, frame_size, buffer_size}
use instance_message.Audio.Decoder.{OpusPlayer, OpusDecoderWrapper, play_packet}
use instance_message.Audio.Frames.{concat}

-- What the library promises of the output of `opus_decode`: it writes two bytes for each sample of
-- each channel, and no more samples than it is given room for.
pub record Documented (p : OpusPlayer) : Type 0 where
  pub writes :
      (d : p.Decoder) (packet : Bytes) (n : ℕ) (pcm : Bytes)
      → (p.opus_decode d packet frame_size).1 ≡ some (n, pcm)
      → (length pcm ≡ n * channels * 2) × (n ≤ frame_size)

module _ (p : OpusPlayer) where
  abbrev pub play_all : List Bytes → OpusDecoderWrapper p → OpusDecoderWrapper p
  play_all [] w = w
  play_all (packet ∷ packets) w = play_all packets (play_packet p packet w)

  abbrev pub with_decoded : Option (ℕ × Bytes) → List Bytes → List Bytes
  with_decoded none rest = rest
  with_decoded (some (n, pcm)) rest = pcm ∷ rest

  -- The library on its own over the packets, in their order: the decoder in the end, and what each
  -- packet that decodes decodes into.
  abbrev pub decode_all : p.Decoder → List Bytes → p.Decoder × List Bytes
  decode_all d [] = (d, [])
  decode_all d (packet ∷ packets) =
      let (d', decoded) = p.opus_decode d packet frame_size in
      let (end, rest) = decode_all d' packets in (end, with_decoded decoded rest)

  -- The wrapper after a result of the library.
  abbrev pub heard : p.Decoder → Option (ℕ × Bytes) → OpusDecoderWrapper p → OpusDecoderWrapper p
  heard d none w = record w { decoder = d }
  heard d (some (n, pcm)) w =
      let buffer = pcm ++ drop (length pcm) w.pcm_buffer in
      record w {
        decoder = d;
        pcm_buffer = buffer;
        played = w.played ++ take (n * channels * 2) buffer;
      }

  play_packet_lem :
      (packet : Bytes) (w : OpusDecoderWrapper p)
      → let (d, decoded) = p.opus_decode w.decoder packet frame_size in
        play_packet p packet w ≡ heard d decoded w
  unfolding play_packet
  play_packet_lem packet w = elim (Option-cases (p.opus_decode w.decoder packet frame_size).1) [
    | inl e ↦ rw (play_packet, e) refl
    | inr (x, e) ↦ rw (play_packet, e) refl
  ]

  -- What a wrapper has come to: `pcms` is what was put out, and `d` the decoder.
  record Heard (w v : OpusDecoderWrapper p) (d : p.Decoder) (pcms : List Bytes) : Type 0 where
    decoder : v.decoder ≡ d
    played : v.played ≡ w.played ++ concat pcms
    in_buffer : length v.pcm_buffer ≡ buffer_size

  module _ (doc : Documented p) where
    heard_one :
        (d : p.Decoder) (n : ℕ) (pcm : Bytes) (w : OpusDecoderWrapper p)
        → length pcm ≡ n * channels * 2
        → n ≤ frame_size
        → length w.pcm_buffer ≡ buffer_size
        → let v = heard d (some (n, pcm)) w in
          (v.played ≡ w.played ++ pcm) × (length v.pcm_buffer ≡ buffer_size)
    heard_one d n pcm w size room buffer = (
      ap (◌++◌ w.played) (take-length (n * channels * 2) pcm _ size),
      omega (
        arith,
        length-append pcm (drop (length pcm) w.pcm_buffer),
        length-drop (length pcm) w.pcm_buffer,
      ),
    )

    Heard-all :
        (packets : List Bytes) (w : OpusDecoderWrapper p)
        → length w.pcm_buffer ≡ buffer_size
        → let (d, pcms) = decode_all w.decoder packets in Heard w (play_all packets w) d pcms
    Heard-all [] w buffer = record {
      decoder = refl;
      played = sym (append-nil w.played);
      in_buffer = buffer;
    }
    Heard-all (packet ∷ packets) w buffer =
        let (d, decoded) = p.opus_decode w.decoder packet frame_size in
        let (end, rest) = decode_all d packets in
        let Goal : Option (ℕ × Bytes) → Type 0 =
          λ x. Heard w (play_all packets (heard d x w)) end (with_decoded x rest) in
        subst (λ u. Heard w (play_all packets u) end (with_decoded decoded rest))
          (sym (play_packet_lem packet w))
          (elim (Option-cases decoded) [
            | inl e ↦
                (let h = Heard-all packets (record w { decoder = d }) buffer in
                  subst Goal (sym e)
                    (record { decoder = h.decoder; played = h.played; in_buffer = h.in_buffer }))
            | inr ((n, pcm), e) ↦
                (let (size, room) = doc.writes w.decoder packet n pcm e in
                  let (put_out, filled) = heard_one d n pcm w size room buffer in
                  let h = Heard-all packets (heard d (some (n, pcm)) w) filled in
                  subst Goal (sym e) (record {
                    decoder = h.decoder;
                    played =
                        h.played
                        ∙ ap (λ l. l ++ concat rest) put_out
                        ∙ append_assoc w.played pcm (concat rest);
                    in_buffer = h.in_buffer;
                  }))
          ])

    -- Whatever packets come, in whatever state the decoder is: what is put out, after what was
    -- played before, is what the library decodes them into one after the other from that state,
    -- each whole and in the order of the packets, and nothing for a packet that does not decode; the
    -- decoder ends as the library leaves it, and the buffer stays one frame. The library is taken to
    -- write two bytes for each sample that it returns, and at most a frame of them; the buffer is
    -- one frame at first.
    pub played_as_decoded :
        (packets : List Bytes) (w : OpusDecoderWrapper p)
        → length w.pcm_buffer ≡ buffer_size
        → let (d, pcms) = decode_all w.decoder packets in
          let v = play_all packets w in
          (v.decoder ≡ d)
          × (v.played ≡ w.played ++ concat pcms)
          × (length v.pcm_buffer ≡ buffer_size)
    played_as_decoded packets w buffer =
        let h = Heard-all packets w buffer in (h.decoder, h.played, h.in_buffer)
