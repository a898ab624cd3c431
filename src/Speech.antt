-- ===== src/Speech.antt =====
-- saap/plugins/voice: the engines of a voice session, the detector of speech, the transcriber and the
-- synthesis, around the models that they call.
pub mod Vad
pub mod Whisper
pub mod Piper
