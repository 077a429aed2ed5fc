-- ===== src/Voice/Wav.antt =====
-- internal/voice/voice.go: `WAV`, the audio of a take as a WAV file in memory.
use Prim.Native.Nat.{ℕ}
use earful.Prelude.{
  ◌∷◌, length, ◌≡◌, [], ◌^◌, ◌+◌, ◌*◌, ◌%◌, ◌++◌, ◌/◌, List, arith, ◌<◌, drop, refl, take, eqb,
  Option, some, none, ◌==◌, ◌&&◌, if◌then◌else◌, nat_eq, list_eq, list_beq, Bool, true, All,
  eqb_iff, ap,
}
use earful.Voice.Buffer.{Buffer}
use earful.Prelude.Text.{codes}

-- The bytes of `PutUint16` and `PutUint32`, low byte first; `uint32` cuts a number to 32 bits.
abbrev pub little16 : ℕ → List ℕ
little16 v = v % 256 ∷ v / 256 % 256 ∷ []

abbrev pub little32 : ℕ → List ℕ
little32 v = v % 256 ∷ v / 256 % 256 ∷ v / 65536 % 256 ∷ v / 16777216 % 256 ∷ []

unfoldable pub wav : Buffer → List ℕ
wav b =
    let n = length b.pcm in
    codes "RIFF"
    ++ little32 ((36 + n) % 2 ^ 32)
    ++ codes "WAVE"
    ++ codes "fmt "
    ++ little32 16
    ++ little16 1
    ++ little16 1
    ++ little32 16000
    ++ little32 32000
    ++ little16 2
    ++ little16 16
    ++ codes "data"
    ++ little32 (n % 2 ^ 32)
    ++ b.pcm

-- A reader's number of four bytes, low byte first, at an offset.
unfoldable pub read_little32 : List ℕ → ℕ
read_little32 (a ∷ b ∷ c ∷ d ∷ rest) = a + 256 * b + 65536 * c + 16777216 * d
read_little32 _ = 0

read_little32-little32 :
    (v : ℕ) (rest : List ℕ) → v < 4294967296 → read_little32 (little32 v ++ rest) ≡ v
unfolding read_little32
read_little32-little32 v rest h = omega arith

-- A reader's number of two bytes.
unfoldable pub read_little16 : List ℕ → ℕ
read_little16 (a ∷ b ∷ rest) = a + 256 * b
read_little16 _ = 0

-- What a reader of WAV files finds: the fields of the format, and the samples.
pub record Sound : Type 0 where
  pub channels : ℕ
  pub sample_rate : ℕ
  pub bits_per_sample : ℕ
  pub samples : List ℕ

all_of : List Bool → Bool
all_of [] = true
all_of (t ∷ ts) = t && all_of ts

all_of_lem : (ts : List Bool) → All (λ t. t ≡ true) ts → all_of ts ≡ true
unfolding all_of
all_of_lem [] h = refl
all_of_lem (t ∷ ts) (here, later) = rw here (all_of_lem ts later)

-- The WAV format: the file is one RIFF chunk of its own size and of the form WAVE, with a chunk of 16
-- bytes that names uncompressed samples, whose bytes per second and per frame are those of its rate,
-- channels and bits, and with a chunk of samples that runs to the end.
abbrev wav_tests : List ℕ → List Bool
wav_tests file =
    let channels = read_little16 (drop 22 file) in
    let bits = read_little16 (drop 34 file) in
    (take 4 file == codes "RIFF")
    ∷ eqb (read_little32 (drop 4 file) + 8) (length file)
    ∷ (take 8 (drop 8 file) == codes "WAVEfmt ")
    ∷ eqb (read_little32 (drop 16 file)) 16
    ∷ eqb (read_little16 (drop 20 file)) 1
    ∷ eqb (read_little32 (drop 28 file)) (read_little32 (drop 24 file) * channels * (bits / 8))
    ∷ eqb (read_little16 (drop 32 file)) (channels * (bits / 8))
    ∷ (take 4 (drop 36 file) == codes "data")
    ∷ eqb (read_little32 (drop 40 file)) (length (drop 44 file))
    ∷ []

sound_of : List ℕ → Sound
unfolding read_little16 read_little32
sound_of file = record {
  channels = read_little16 (drop 22 file);
  sample_rate = read_little32 (drop 24 file);
  bits_per_sample = read_little16 (drop 34 file);
  samples = drop 44 file;
}

-- A reader of the format.
unfoldable pub read_wav : List ℕ → Option Sound
unfolding all_of sound_of
read_wav file = if all_of (wav_tests file) then some (sound_of file) else none

wav_sizes :
    (b : Buffer)
    → length b.pcm + 36 < 4294967296
    → (read_little32 (drop 4 (wav b)) + 8 ≡ length (wav b))
      × (read_little32 (drop 40 (wav b)) ≡ length (drop 44 (wav b)))
unfolding wav
wav_sizes b h =
    let n = length b.pcm in
    let size : read_little32 (drop 4 (wav b)) ≡ (36 + n) % 4294967296 =
      read_little32-little32 ((36 + n) % 4294967296) _ (omega arith) in
    let audio : read_little32 (drop 40 (wav b)) ≡ n % 4294967296 =
      read_little32-little32 (n % 4294967296) b.pcm (omega arith) in
    (omega (arith, size), omega (arith, audio))

wav_tests_pass :
    (b : Buffer) → length b.pcm + 36 < 4294967296 → All (λ t. t ≡ true) (wav_tests (wav b))
unfolding wav read_little16 read_little32 list_beq
wav_tests_pass b h =
    let sizes = wav_sizes b h in
    (
      refl,
      (
        (eqb_iff _ _).1 sizes.0,
        (refl, (refl, (refl, (refl, (refl, (refl, ((eqb_iff _ _).1 sizes.1, tt))))))),
      ),
    )

sound_of-wav :
    (b : Buffer)
    → sound_of (wav b)
      ≡ record { channels = 1; sample_rate = 16000; bits_per_sample = 16; samples = b.pcm }
unfolding sound_of wav
sound_of-wav b = refl

-- A take of less than 4 GiB, less its header, is written as a file that a reader of WAV files takes:
-- its tags, sizes and format are as the format asks, and it finds one channel of 16000 samples a
-- second, 16 bits each, and the audio as it was buffered.
pub wav_lem :
    (b : Buffer)
    → length b.pcm + 36 < 4294967296
    → read_wav (wav b)
      ≡ some record { channels = 1; sample_rate = 16000; bits_per_sample = 16; samples = b.pcm }
unfolding read_wav
wav_lem b h = rw (all_of_lem (wav_tests (wav b)) (wav_tests_pass b h)) (ap some (sound_of-wav b))
