-- ===== src/Voice/Buffer.antt =====
-- internal/voice/voice.go: `Buffer`, the audio of one take in memory. A byte is a number.
use mathlib.Core.List.{append-nil, append_assoc}
use Prim.Native.Nat.{ℕ}
use earful.Prelude.{
  eqb, List, none, take, true, ◌≤◌, length, if◌then◌else◌, Option, ◌++◌, ◌+◌, ◌||◌, ◌≡◌, Bool,
  false, [], ◌-◌, ◌/◌, ◌∷◌, some, length-take, refl, ltb, arith, take_all, take-append,
  take-append_take, sym, length-append, ap, ◌*◌, ◌<◌,
}
use earful.Prelude.Int.{ℤ, pos_part, ◌-ℤ◌, ltb_ℤ, pos, times64}

abbrev pub bytes_per_second : ℕ
bytes_per_second = 32000

pub record Buffer : Type 0 where
  pub max : ℤ
  pub pcm : List ℕ

pub data VoiceError : Type 0 where
  too_long : VoiceError

-- `maxSeconds * BytesPerSecond`, a product of two ints.
unfoldable pub new_buffer : ℤ → Buffer
unfolding times64
new_buffer max_seconds = record { max = times64 max_seconds bytes_per_second; pcm = [] }

unfoldable pub append : Buffer → List ℕ → Buffer × Option VoiceError
unfolding ◌-ℤ◌
append b chunk =
    let room = b.max -ℤ pos (length b.pcm) in
    if ltb_ℤ b.max (pos (length b.pcm + length chunk))
    then (
      if ltb_ℤ (pos 0) room then record b { pcm = b.pcm ++ take (pos_part room) chunk } else b,
      some too_long,
    )
    else (record b { pcm = b.pcm ++ chunk }, none)

unfoldable pub len : Buffer → ℕ
len b = length b.pcm

unfoldable pub seconds : Buffer → ℕ
seconds b =
    if eqb (length b.pcm) 0 then 0 else (length b.pcm + bytes_per_second - 1) / bytes_per_second

unfoldable pub reset : Buffer → Buffer
reset b = record b { pcm = [] }

abbrev has_error : Option VoiceError → Bool
has_error none = false
has_error (some e) = true

abbrev pub joined : List (List ℕ) → List ℕ
joined [] = []
joined (c ∷ cs) = c ++ joined cs

-- A take as its chunks arrive, with whether any of them was refused.
unfoldable pub feed : Buffer → List (List ℕ) → Buffer × Bool
feed b [] = (b, false)
feed b (c ∷ cs) = let r = append b c in let rest = feed r.0 cs in (rest.0, has_error r.1 || rest.1)

-- One chunk keeps the audio cut at the cap, and is refused when the cap cuts.
append-take :
    (b : Buffer) (m : ℕ) (chunk : List ℕ)
    → b.max ≡ pos m
    → length b.pcm ≤ m
    → ((append b chunk).0 ≡ record b { pcm = take m (b.pcm ++ chunk) })
      × (has_error (append b chunk).1 ≡ ltb m (length b.pcm + length chunk))
unfolding append
append-take b m chunk cap fits =
    let short = take-append m b.pcm chunk fits in
    let whole : length chunk ≤ m - length b.pcm → take (m - length b.pcm) chunk ≡ chunk =
      take_all (m - length b.pcm) chunk in
    let full : m ≤ length b.pcm → take (m - length b.pcm) chunk ≡ [] =
      λ h. (let nothing : m - length b.pcm ≡ 0 = omega arith in ap (λ k. take k chunk) nothing) in
    let same = append-nil b.pcm in rw (cap, short) (ground (arith, whole, full, same))

-- However a take is cut into chunks, the buffer holds the audio up to the cap, and a chunk was
-- refused exactly when the audio is longer than the cap.
pub feed-take :
    (b : Buffer) (m : ℕ) (cs : List (List ℕ))
    → b.max ≡ pos m
    → length b.pcm ≤ m
    → ((feed b cs).0 ≡ record b { pcm = take m (b.pcm ++ joined cs) })
      × ((feed b cs).1 ≡ ltb m (length (b.pcm ++ joined cs)))
unfolding feed
feed-take b m [] cap fits = rw (append-nil, take_all m b.pcm fits) (refl, ground arith)
feed-take b m (c ∷ cs) cap fits =
    let one = append-take b m c cap fits in
    let cut : List ℕ = take m (b.pcm ++ c) in
    let within : length cut ≤ m = omega (arith, length-take m (b.pcm ++ c)) in
    let rest = feed-take (record b { pcm = cut }) m cs cap within in
    let all : b.pcm ++ (c ++ joined cs) ≡ (b.pcm ++ c) ++ joined cs =
      sym (append_assoc b.pcm c (joined cs)) in
    let total = length-append (b.pcm ++ c) (joined cs) in
    let front = length-append b.pcm c in
    let back = length-append cut (joined cs) in
    rw (all, one.0, one.1, rest.0, rest.1)
      (
        ap (λ r. record b { pcm = r }) (take-append_take m (b.pcm ++ c) (joined cs)),
        ground (arith, total, front, back, length-take m (b.pcm ++ c)),
      )

-- The seconds of a take are its bytes over those of a second, rounded up: no second is counted that
-- has not begun, and none is left out.
pub seconds_lem :
    (b : Buffer)
    → (len b ≤ seconds b * bytes_per_second)
      × (seconds b * bytes_per_second < len b + bytes_per_second)
unfolding len seconds
seconds_lem b = ground arith
