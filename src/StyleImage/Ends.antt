-- ===== src/StyleImage/Ends.antt =====
-- internal/styleimage/cost.go: the loop of `jpegFrame` ends, whatever the bytes are.
use earful.Prelude.{
  ◌≡◌, ◌≤◌, ◌∷◌, length, refl, [], ◌-◌, arith, Option, ℕ, zero, suc, length-drop, drop, List, subst,
  some, ◌<◌, sym, ap, ◌∙◌,
}
use earful.StyleImage.Jpeg.{
  read_segment, after_round, two_bytes, Round, read_round, stops, JpegHeader, jpeg_frame,
  jpeg_rounds, goes_on, returned,
}
use earful.Prelude.Dict.{found}

-- The bytes a round goes on with, and one more.
round_size : Round → ℕ
round_size (stops found) = 0
round_size (goes_on bytes) = suc (length bytes)

read_round-shorter : (b : List ℕ) → round_size (read_round b) ≤ length b
unfolding read_round read_segment round_size
read_round-shorter [] = omega arith
read_round-shorter (a ∷ []) = omega arith
read_round-shorter (a ∷ m ∷ []) = omega arith
read_round-shorter (a ∷ m ∷ s1 ∷ []) = omega arith
read_round-shorter (start ∷ m ∷ s1 ∷ s0 ∷ bytes) =
    ground (arith, length-drop (two_bytes s1 s0 - 2) bytes)

after_round-same :
    (f g : List ℕ → Option (Option JpegHeader)) (r : Round)
    → ((bytes : List ℕ) → r ≡ goes_on bytes → f bytes ≡ g bytes)
    → after_round f r ≡ after_round g r
unfolding after_round
after_round-same f g (stops found) same = refl
after_round-same f g (goes_on bytes) same = same bytes refl

after_round-returns :
    (f : List ℕ → Option (Option JpegHeader)) (r : Round)
    → ((bytes : List ℕ) → r ≡ goes_on bytes → (found : Option JpegHeader) × (f bytes ≡ some found))
    → (found : Option JpegHeader) × (after_round f r ≡ some found)
unfolding after_round
after_round-returns f (stops found) later = (found, refl)
after_round-returns f (goes_on bytes) later = later bytes refl

shorter : (b bytes : List ℕ) → read_round b ≡ goes_on bytes → length bytes < length b
unfolding round_size
shorter b bytes goes = subst (λ r. round_size r ≤ length b) goes (read_round-shorter b)

jpeg_rounds-returns :
    (k : ℕ) (b : List ℕ)
    → length b < k
    → (found : Option JpegHeader) × (jpeg_rounds k b ≡ some found)
unfolding jpeg_rounds
jpeg_rounds-returns zero b enough = absurd (omega arith)
jpeg_rounds-returns (suc k) b enough =
    after_round-returns (jpeg_rounds k) (read_round b) (λ bytes goes.
      let smaller = shorter b bytes goes in jpeg_rounds-returns k bytes (omega arith))

jpeg_rounds-enough :
    (j k : ℕ) (b : List ℕ) → length b < j → length b < k → jpeg_rounds j b ≡ jpeg_rounds k b
unfolding jpeg_rounds
jpeg_rounds-enough zero k b enough more = absurd (omega arith)
jpeg_rounds-enough (suc j) zero b enough more = absurd (omega arith)
jpeg_rounds-enough (suc j) (suc k) b enough more =
    after_round-same (jpeg_rounds j) (jpeg_rounds k) (read_round b) (λ bytes goes.
      let smaller = shorter b bytes goes in
      jpeg_rounds-enough j k bytes (omega arith) (omega arith))

-- The loop ends, whatever the bytes are: with more rounds than there are bytes in the file, however
-- many, it does not run out of them, and returns what `jpegFrame` returns.
pub jpeg_rounds-jpeg_frame :
    (k : ℕ) (b : List ℕ) → length b < k → jpeg_rounds k (drop 2 b) ≡ some (jpeg_frame b)
unfolding jpeg_frame returned
jpeg_rounds-jpeg_frame k b enough =
    let fewer = length-drop 2 b in
    let n = suc (length b) in
    let (found, run) = jpeg_rounds-returns n (drop 2 b) (omega arith) in
    jpeg_rounds-enough k n (drop 2 b) (omega arith) (omega arith)
    ∙ run
    ∙ ap (λ o. some (returned o)) (sym run)
