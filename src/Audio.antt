-- ===== src/Audio.antt =====
-- The capture and the playing of sound, IMClient/opus/opusencoder.cpp and opusdecoder.cpp, which
-- nothing else of the client uses yet.
pub mod Encoder
pub mod Decoder
pub mod Frames
pub mod Played
mod Examples
