-- ===== src/Prelude/Bytes.antt =====
-- encoding/binary: unsigned numbers as bytes, low byte first.
use mathlib.Core.List.{List, [], ◌∷◌}
use native.Mathlib.Omega.{arith}
use mathlib.Core.Path.{◌≡◌, refl, ap}
use Prim.Native.Nat.{ℕ, zero, suc, ◌+◌, ◌*◌, ◌/◌, ◌%◌, ◌<◌}
use earful.Prelude.Lists.{length}

-- `AppendUint16`, `AppendUint32` and `AppendUint64`: the low `w` bytes of a number.
abbrev pub little : ℕ → ℕ → List ℕ
little zero v = []
little (suc w) v = v % 256 ∷ little w (v / 256)

-- `LittleEndian.Uint16`, `Uint32` and `Uint64` of as many bytes.
abbrev pub read_little : List ℕ → ℕ
read_little [] = 0
read_little (b ∷ bs) = b + 256 * read_little bs

-- The numbers that `w` bytes hold are those below 256 ^ w.
abbrev pub little_bound : ℕ → ℕ
little_bound zero = 1
little_bound (suc w) = 256 * little_bound w

pub length-little : (w v : ℕ) → length (little w v) ≡ w
length-little zero v = refl
length-little (suc w) v = ap suc (length-little w (v / 256))

pub read_little-little : (w v : ℕ) → v < little_bound w → read_little (little w v) ≡ v
read_little-little zero v h = omega arith
read_little-little (suc w) v h = omega (arith, read_little-little w (v / 256) (omega arith))
