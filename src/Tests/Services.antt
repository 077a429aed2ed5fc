-- ===== src/Tests/Services.antt =====
-- The limiter, the single uses and the audio of an answer at concrete inputs.
use earful.Antibot.Limiter.Recovers.{after_events, after_events-allow}
use Prim.Native.Nat.{ℕ, min, max}
use earful.Prelude.{
  ◌∷◌, take, length, true, ltb, ◌≡◌, [], ◌++◌, arith, some, false, List, refl, All, ◌≢◌, ◌-◌,
}
use earful.Voice.Budget.{Budget, spent_so_far, spend, remaining, spend-remaining}
use earful.Voice.Buffer.{joined, feed-take, Buffer, feed}
use earful.Voice.Wav.{read_wav, wav_lem, wav}
use earful.Prelude.Dict.{lookup-empty, empty, lookup}
use earful.Prelude.Text.{Text, codes}
use earful.Prelude.Int.{pos, ◌+ℤ◌, ltb_ℤ, ℤ, ◌≤ℤ◌, time_sub, leb_ℤ, ◌-ℤ◌, pos_part}
use earful.Antibot.Seen.{first_uses, Seen, first_use_once}
use earful.Antibot.Limiter.{expired, Limiter, Bucket, new_limiter, allow}
use earful.Antibot.Limiter.Bursts.{asked, allowed, IsWithin, allowed_lem}

abbrev two_a_minute : Limiter
two_a_minute = record { limit = pos 2; window = pos 60; buckets = empty }

abbrev ada : Text
ada = codes "ada"

abbrev bob : Text
bob = codes "bob"

abbrev burst : List (ℤ × Text)
burst = (pos 110, bob) ∷ (pos 120, ada) ∷ (pos 130, ada) ∷ []

no_bucket :
    (b : Bucket)
    → lookup ada two_a_minute.buckets ≡ some b
    → expired two_a_minute (pos 100) b ≡ true
no_bucket b h = absurd (ground (arith, lookup-empty {V = Bucket} ada))

burst-IsWithin : IsWithin (pos 60) (pos 100) burst
unfolding time_sub
burst-IsWithin = (refl, (refl, (refl, tt)))

allowed_lem_example :
    allowed two_a_minute ada ((pos 100, ada) ∷ burst)
    ≡ min (max 1 2) (asked ada ((pos 100, ada) ∷ burst))
allowed_lem_example = allowed_lem two_a_minute (pos 100) ada burst no_bucket burst-IsWithin

abbrev minute : Seen
minute = record { ttl = pos 60; entries = empty }

unused : (expiry : ℤ) → lookup ada minute.entries ≡ some expiry → ltb_ℤ (pos 100) expiry ≡ false
unused expiry h = absurd (ground (arith, lookup-empty {V = ℤ} ada))

burst_before : All (λ e. ltb_ℤ e.0 (pos 100 +ℤ minute.ttl) ≡ true) burst
unfolding ◌+ℤ◌
burst_before = (refl, (refl, (refl, tt)))

first_use_once_example : first_uses minute ada ((pos 100, ada) ∷ burst) ≡ 1
first_use_once_example = first_use_once minute (pos 100) ada burst unused burst_before

abbrev small : Buffer
small = record { max = pos 3; pcm = 7 ∷ [] }

abbrev chunks : List (List ℕ)
chunks = (8 ∷ []) ∷ (9 ∷ 10 ∷ []) ∷ []

feed-take_example :
    ((feed small chunks).0 ≡ record small { pcm = take 3 (small.pcm ++ joined chunks) })
    × ((feed small chunks).1 ≡ ltb 3 (length (small.pcm ++ joined chunks)))
feed-take_example = feed-take small 3 chunks refl (omega arith)

wav_lem_example :
    read_wav (wav small)
    ≡ some record { channels = 1; sample_rate = 16000; bits_per_sample = 16; samples = small.pcm }
wav_lem_example = wav_lem small (omega arith)

abbrev ten_seconds : Budget
ten_seconds = record { cap_seconds = pos 10; ttl = pos 3600; entries = empty }

nothing_spent : spent_so_far ten_seconds (pos 100) (lookup ada ten_seconds.entries) ≡ pos 0
unfolding spent_so_far
nothing_spent = rw lookup-empty refl

still_fresh : time_sub (pos 200) (pos 100) ≤ℤ ten_seconds.ttl
unfolding time_sub
still_fresh = omega arith

spend-remaining_example :
    remaining (spend ten_seconds (pos 100) ada (pos 4)) (pos 200) ada
    ≡ pos (pos_part (remaining ten_seconds (pos 100) ada) - 4)
spend-remaining_example =
    spend-remaining ten_seconds (pos 100) (pos 200) ada 9 0 4 refl (omega arith) nothing_spent
      (omega arith) still_fresh

ada-ne-bob : ada ≢ bob
ada-ne-bob = ground arith

abbrev hasty_events : List (ℤ × Text)
hasty_events = (pos 0, codes "a") ∷ (pos 5, codes "a") ∷ []

a_window_later : leb_ℤ (pos 60) (time_sub (pos 70) (pos 5)) ≡ true
unfolding time_sub ◌-ℤ◌
a_window_later = refl

after_events-allow_example :
    (allow (after_events (new_limiter (pos 1) (pos 60)) hasty_events) (pos 70) (codes "a")).1 ≡ true
after_events-allow_example =
    after_events-allow (pos 1) (pos 60) hasty_events (pos 5) (pos 70) (codes "a")
      (omega arith, (omega arith, tt)) a_window_later
