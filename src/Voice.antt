-- ===== src/Voice.antt =====
-- internal/voice/voice.go: the audio of one spoken answer, its WAV form, and the budget of seconds.
pub mod Buffer
pub mod Wav
pub mod Budget
