-- ===== src/StyleImage/Jpeg.antt =====
-- internal/styleimage/cost.go: `jpegFrame`, the frame header of a JPEG.
use Prim.Native.Nat.{zero, suc}
use earful.Prelude.{
  ◌*◌, ◌-◌, ◌+◌, not, Bool, ◌/◌, ltb, List, [], ℕ, ◌||◌, ◌%◌, leb, ◌∷◌, suc, eqb, none, take, some,
  length, drop, ◌&&◌, Option, if◌then◌else◌,
}
use earful.Prelude.Dict.{size, found}

-- `jpegComponent`
pub record Component : Type 0 where
  pub across : ℕ
  pub down : ℕ

pub record JpegHeader : Type 0 where
  pub width : ℕ
  pub height : ℕ
  pub progressive : Bool
  pub components : List Component

-- A number of two bytes, the high one first.
abbrev pub two_bytes : ℕ → ℕ → ℕ
two_bytes b1 b0 = b1 * 256 + b0

unfoldable pub with_component : Component → Option (List Component) → Option (List Component)
with_component c none = none
with_component c (some cs) = some (c ∷ cs)

-- The loop over the components, three bytes each.
unfoldable pub read_components : ℕ → List ℕ → Option (List Component)
unfolding with_component
read_components zero bytes = some []
read_components (suc n) (id ∷ sampling ∷ table ∷ bytes) =
    let rest = read_components n bytes in
    if eqb (sampling / 16) 0 || eqb (sampling % 16) 0
    then none
    else with_component (record { across = sampling / 16; down = sampling % 16 }) rest
read_components (suc n) bytes = none

unfoldable pub header_of : ℕ → ℕ → Bool → Option (List Component) → Option JpegHeader
header_of width height progressive none = none
header_of width height progressive (some cs) =
    some (record { width = width; height = height; progressive = progressive; components = cs })

-- The segment of a frame header: precision, height, width, the count of components and those.
unfoldable pub read_frame : ℕ → List ℕ → Option JpegHeader
unfolding header_of
read_frame marker (precision ∷ h1 ∷ h0 ∷ w1 ∷ w0 ∷ n ∷ bytes) =
    if eqb n 0 || ltb (length bytes) (3 * n)
    then none
    else header_of (two_bytes w1 w0) (two_bytes h1 h0) (eqb marker 0xc2) (read_components n bytes)
read_frame marker bytes = none

-- Markers that carry no length, and those of frame headers and of what ends the search.
abbrev pub is_bare : ℕ → Bool
is_bare m = eqb m 0 || eqb m 1 || (leb 0xd0 m && leb m 0xd7)

abbrev pub is_frame : ℕ → Bool
is_frame m = eqb m 0xc0 || eqb m 0xc1 || eqb m 0xc2

abbrev pub is_scan : ℕ → Bool
is_scan m = eqb m 0xda || eqb m 0xd9

-- A round of the loop stops with what it returns, or goes on from later bytes.
pub data Round : Type 0 where
  stops : Option JpegHeader → Round
  goes_on : List ℕ → Round

unfoldable pub read_segment : ℕ → ℕ → List ℕ → Round
unfolding read_frame
read_segment m size bytes =
    if ltb size 2 || ltb (length bytes) (size - 2)
    then stops none
    else if is_frame m
    then stops (read_frame m (take (size - 2) bytes))
    else if is_scan m
    then stops none
    else goes_on (drop (size - 2) bytes)

-- The body of the loop, over the bytes that are left.
unfoldable pub read_round : List ℕ → Round
unfolding read_segment
read_round (start ∷ m ∷ s1 ∷ s0 ∷ bytes) =
    if not (eqb start 0xff)
    then stops none
    else if eqb m 0xff
    then goes_on (m ∷ s1 ∷ s0 ∷ bytes)
    else if is_bare m
    then stops none
    else read_segment m (two_bytes s1 s0) bytes
read_round bytes = stops none

unfoldable pub after_round :
    (List ℕ → Option (Option JpegHeader)) → Round → Option (Option JpegHeader)
after_round f (stops found) = some found
after_round f (goes_on bytes) = f bytes

-- The loop with so many rounds: none where they run out, otherwise what it returns.
unfoldable pub jpeg_rounds : ℕ → List ℕ → Option (Option JpegHeader)
unfolding read_round after_round
jpeg_rounds zero bytes = none
jpeg_rounds (suc k) bytes = after_round (jpeg_rounds k) (read_round bytes)

unfoldable pub returned : Option (Option JpegHeader) → Option JpegHeader
returned none = none
returned (some found) = found

-- `jpegFrame`. Each round leaves fewer bytes, so one round more than there are bytes is enough.
unfoldable pub jpeg_frame : List ℕ → Option JpegHeader
unfolding jpeg_rounds returned
jpeg_frame b = returned (jpeg_rounds (suc (length b)) (drop 2 b))
