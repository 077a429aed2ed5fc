-- ===== src/StyleImage/Written.antt =====
-- internal/styleimage/cost.go: the frame header that `jpegFrame` finds in a JPEG as the format lays it
-- out.
use earful.Prelude.{
  ◌+◌, ◌||◌, [], ◌*◌, ◌<◌, refl, false, ◌∷◌, drop-append_self, ◌++◌, ◌%◌, map, ◌/◌, ◌-◌, List,
  length, length-append, some, ℕ, ltb, All, ◌≡◌, Bool, eqb, arith, suc, zero, true, ◌≤◌,
  take-append_self, leb, ◌&&◌,
}
use earful.StyleImage.Jpeg.{
  is_scan, two_bytes, goes_on, with_component, Component, is_bare, read_round, read_segment,
  is_frame, read_components, header_of, JpegHeader, read_frame, jpeg_frame, after_round,
  jpeg_rounds, stops,
}

pub record Segment : Type 0 where
  pub marker : ℕ
  pub body : List ℕ

-- A marker, two bytes for the length with those two, and the body.
unfoldable pub write_segment : Segment → List ℕ → List ℕ
write_segment s bytes =
    let n = length s.body + 2 in 0xff ∷ s.marker ∷ n / 256 ∷ n % 256 ∷ s.body ++ bytes

unfoldable pub write_segments : List Segment → List ℕ → List ℕ
unfolding write_segment
write_segments [] bytes = bytes
write_segments (s ∷ ss) bytes = write_segment s (write_segments ss bytes)

-- A component with its id and its table.
pub record FrameComponent : Type 0 where
  pub id : ℕ
  pub sampling : Component
  pub table : ℕ

unfoldable pub write_components : List FrameComponent → List ℕ
write_components [] = []
write_components (c ∷ cs) =
    c.id ∷ (c.sampling.across * 16 + c.sampling.down) ∷ c.table ∷ write_components cs

-- The kinds of frames that are coded with Huffman tables.
pub data FrameKind : Type 0 where
  baseline extended progressive : FrameKind

abbrev pub frame_marker : FrameKind → ℕ
frame_marker baseline = 0xc0
frame_marker extended = 0xc1
frame_marker progressive = 0xc2

abbrev pub is_progressive : FrameKind → Bool
is_progressive progressive = true
is_progressive _ = false

pub record Frame : Type 0 where
  pub kind : FrameKind
  pub precision : ℕ
  pub width : ℕ
  pub height : ℕ
  pub components : List FrameComponent

unfoldable pub frame_segment : Frame → Segment
unfolding write_components
frame_segment f = record {
  marker = frame_marker f.kind;
  body =
      f.precision
      ∷ f.height / 256
      ∷ f.height % 256
      ∷ f.width / 256
      ∷ f.width % 256
      ∷ length f.components
      ∷ write_components f.components;
}

-- The start of the file, segments, the frame header and what comes behind it.
unfoldable pub jpeg_file : List Segment → Frame → List ℕ → List ℕ
unfolding write_segments frame_segment
jpeg_file skipped f bytes =
    0xff ∷ 0xd8 ∷ write_segments skipped (write_segment (frame_segment f) bytes)

-- The markers 0x02 to 0xbf, 0xc3 to 0xcf and 0xdb to 0xfe.
abbrev pub is_passed : ℕ → Bool
is_passed m = (leb 0x02 m && leb m 0xbf) || (leb 0xc3 m && leb m 0xcf) || (leb 0xdb m && leb m 0xfe)

abbrev pub IsSkipped : Segment → Type 0
IsSkipped s = is_passed s.marker ≡ true

is_passed_lem :
    (m : ℕ)
    → is_passed m ≡ true
    → (eqb m 0xff ≡ false) × (is_bare m ≡ false) × (is_frame m ≡ false) × (is_scan m ≡ false)
is_passed_lem m h = (ground arith, ground arith, ground arith, ground arith)

abbrev pub IsSampled : FrameComponent → Type 0
IsSampled c =
    (0 < c.sampling.across)
    × (c.sampling.across < 16)
    × (0 < c.sampling.down)
    × (c.sampling.down < 16)

two_bytes_lem : (n : ℕ) → two_bytes (n / 256) (n % 256) ≡ n
two_bytes_lem n = omega arith

read_round-write_segment :
    (s : Segment) (bytes : List ℕ)
    → eqb s.marker 0xff ≡ false
    → is_bare s.marker ≡ false
    → read_round (write_segment s bytes)
      ≡ read_segment s.marker (length s.body + 2) (s.body ++ bytes)
unfolding read_round write_segment
read_round-write_segment s bytes own lengthy = rw (own, lengthy, two_bytes_lem) refl

body_there :
    (body bytes : List ℕ)
    → (ltb (length body + 2) 2 || ltb (length (body ++ bytes)) (length body + 2 - 2)) ≡ false
body_there body bytes = ground (arith, length-append body bytes)

body_size : (n : ℕ) → n + 2 - 2 ≡ n
body_size n = omega arith

read_segment-skipped :
    (s : Segment) (bytes : List ℕ)
    → IsSkipped s
    → read_segment s.marker (length s.body + 2) (s.body ++ bytes) ≡ goes_on bytes
unfolding read_segment
read_segment-skipped s bytes skips =
    let (own, lengthy, framed, scanned) = is_passed_lem s.marker skips in
    rw (body_there, framed, scanned, body_size, drop-append_self) refl

read_components-write_components :
    (cs : List FrameComponent)
    → All IsSampled cs
    → read_components (length cs) (write_components cs) ≡ some (map (λ c. c.sampling) cs)
unfolding read_components write_components with_component
read_components-write_components [] sampled = refl
read_components-write_components (c ∷ cs) (own, sampled) =
    let byte = c.sampling.across * 16 + c.sampling.down in
    let upper : byte / 16 ≡ c.sampling.across = omega (arith, own.3) in
    let lower : byte % 16 ≡ c.sampling.down = omega (arith, own.3) in
    let some_across : eqb c.sampling.across 0 ≡ false = ground (arith, own.0) in
    let some_down : eqb c.sampling.down 0 ≡ false = ground (arith, own.2) in
    rw (upper, lower, some_across, some_down, read_components-write_components cs sampled) refl

length-write_components : (cs : List FrameComponent) → length (write_components cs) ≡ 3 * length cs
unfolding write_components
length-write_components [] = refl
length-write_components (c ∷ cs) = omega (arith, length-write_components cs)

-- What the frame header says.
unfoldable pub frame_header : Frame → JpegHeader
frame_header f = record {
  width = f.width;
  height = f.height;
  progressive = is_progressive f.kind;
  components = map (λ c. c.sampling) f.components;
}

abbrev pub IsFrame : Frame → Type 0
IsFrame f = (0 < length f.components) × (length f.components < 256) × All IsSampled f.components

marker_tells : (k : FrameKind) → eqb (frame_marker k) 0xc2 ≡ is_progressive k
marker_tells baseline = refl
marker_tells extended = refl
marker_tells progressive = refl

read_frame-frame_segment :
    (f : Frame)
    → IsFrame f
    → read_frame (frame_segment f).marker (frame_segment f).body ≡ some (frame_header f)
unfolding read_frame frame_segment frame_header header_of
read_frame-frame_segment f (many, few, sampled) =
    let long : (eqb (length f.components) 0
          || ltb (length (write_components f.components)) (3 * length f.components))
        ≡ false =
      ground (arith, many, length-write_components f.components) in
    let read = read_components-write_components f.components sampled in
    rw (long, read, two_bytes_lem, two_bytes_lem, marker_tells f.kind) refl

frame_marker_lem :
    (k : FrameKind)
    → (eqb (frame_marker k) 0xff ≡ false)
      × (is_bare (frame_marker k) ≡ false)
      × (is_frame (frame_marker k) ≡ true)
frame_marker_lem baseline = (refl, refl, refl)
frame_marker_lem extended = (refl, refl, refl)
frame_marker_lem progressive = (refl, refl, refl)

frame_segment_marker :
    (f : Frame)
    → (eqb (frame_segment f).marker 0xff ≡ false)
      × (is_bare (frame_segment f).marker ≡ false)
      × (is_frame (frame_segment f).marker ≡ true)
unfolding frame_segment
frame_segment_marker f = frame_marker_lem f.kind

read_segment-frame_segment :
    (f : Frame) (bytes : List ℕ)
    → IsFrame f
    → (let s = frame_segment f in
        read_segment s.marker (length s.body + 2) (s.body ++ bytes) ≡ stops (some (frame_header f)))
unfolding read_segment
read_segment-frame_segment f bytes framed =
    let s = frame_segment f in
    rw
      (
        body_there s.body bytes,
        (frame_segment_marker f).2,
        body_size (length s.body),
        take-append_self s.body bytes,
        read_frame-frame_segment f framed,
      )
      refl

length-write_segments :
    (ss : List Segment) (bytes : List ℕ) → length ss ≤ length (write_segments ss bytes)
unfolding write_segments write_segment
length-write_segments [] bytes = omega arith
length-write_segments (s ∷ ss) bytes =
    omega (arith, length-append s.body (write_segments ss bytes), length-write_segments ss bytes)

jpeg_rounds-write_segments :
    (k : ℕ) (skipped : List Segment) (f : Frame) (bytes : List ℕ)
    → length skipped < k
    → All IsSkipped skipped
    → IsFrame f
    → jpeg_rounds k (write_segments skipped (write_segment (frame_segment f) bytes))
      ≡ some (some (frame_header f))
unfolding jpeg_rounds write_segments after_round
jpeg_rounds-write_segments zero skipped f bytes enough skips framed = absurd (omega arith)
jpeg_rounds-write_segments (suc k) [] f bytes enough skips framed =
    let s = frame_segment f in
    let own = frame_segment_marker f in
    rw (read_round-write_segment s bytes own.0 own.1, read_segment-frame_segment f bytes framed)
      refl
jpeg_rounds-write_segments (suc k) (s ∷ ss) f bytes enough (own, skips) framed =
    let later = write_segments ss (write_segment (frame_segment f) bytes) in
    let carried = is_passed_lem s.marker own in
    rw (read_round-write_segment s later carried.0 carried.1, read_segment-skipped s later own)
      (jpeg_rounds-write_segments k ss f bytes (omega arith) skips framed)

enough_rounds :
    (skipped : List Segment) (f : Frame) (bytes : List ℕ)
    → length skipped < length (jpeg_file skipped f bytes)
unfolding jpeg_file
enough_rounds skipped f bytes =
    omega (arith, length-write_segments skipped (write_segment (frame_segment f) bytes))

-- In a JPEG that starts with segments of the markers 0x02 to 0xbf, 0xc3 to 0xcf and 0xdb to 0xfe, and
-- goes on with a frame header of any of the three kinds, baseline, extended or progressive,
-- `jpegFrame` finds that frame header, whatever comes behind it, and reads its width, its height,
-- whether it is progressive and the sampling of its components, when there are 1 to 255 of them, each
-- sampled 1 to 15 times across and down.
pub jpeg_frame-jpeg_file :
    (skipped : List Segment) (f : Frame) (bytes : List ℕ)
    → All IsSkipped skipped
    → IsFrame f
    → jpeg_frame (jpeg_file skipped f bytes) ≡ some (frame_header f)
unfolding jpeg_frame jpeg_file
jpeg_frame-jpeg_file skipped f bytes skips framed =
    let enough = enough_rounds skipped f bytes in
    rw
      (jpeg_rounds-write_segments (suc (length (jpeg_file skipped f bytes))) skipped f bytes
        (omega arith) skips framed)
      refl
