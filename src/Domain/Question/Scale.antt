-- ===== src/Domain/Question/Scale.antt =====
-- internal/domain/question.go: `Scale` and `ScalePoints`, the bounds of a question and the values
-- that a respondent can pick on its scale.
use earful.Prelude.{
  ℕ, zero, suc, ◌≡◌, ◌↔◌, true, not, ◌&&◌, List, [], ◌∷◌, arith, if◌then◌else◌, contains, ◌||◌,
  refl, ap, length, nat_eq, list_eq, bool_eq,
}
use earful.Prelude.Int.{
  ℤ, pos, ◌≤ℤ◌, ◌<ℤ◌, ltb_ℤ, leb_ℤ, pos_part, int_eq, ◌+ℤ◌, ◌-ℤ◌, +ℤ_parts, -ℤ_parts, int_eq,
}
use earful.Domain.Question.Types.{Question, needs_scale, is_nps, is_number}

abbrev pub nps_min : ℤ
nps_min = pos 0

abbrev pub nps_max : ℤ
nps_max = pos 10

abbrev pub default_rating_scale_min : ℤ
default_rating_scale_min = pos 1

abbrev pub default_rating_scale_max : ℤ
default_rating_scale_max = pos 5

unfoldable pub scale : Question → ℤ × ℤ
unfolding is_nps is_number
scale q =
    if is_nps q.type
    then (nps_min, nps_max)
    else if is_number q.type
    then (q.scale_min, q.scale_max)
    else if leb_ℤ q.scale_max q.scale_min
    then (default_rating_scale_min, default_rating_scale_max)
    else (q.scale_min, q.scale_max)

-- `for v := min; v <= max; v++`: the values from `v` on, `n` of them.
points_from : ℕ → ℤ → List ℤ
points_from zero v = []
points_from (suc n) v = v ∷ points_from n (v +ℤ pos 1)

-- `max - min + 1`, the number of rounds of the loop when min <= max.
abbrev rounds : ℤ → ℤ → ℕ
rounds min max = suc (pos_part (max -ℤ min))

unfoldable pub scale_points : Question → List ℤ
unfolding scale points_from needs_scale is_nps ◌+ℤ◌ ◌-ℤ◌
scale_points q =
    if not (needs_scale q.type) && not (is_nps q.type)
    then []
    else (let (min, max) = scale q in
        if ltb_ℤ max min then [] else points_from (rounds min max) min)

-- A value is among the points of the loop when it lies between the first and the last.
points_from-contains :
    (n : ℕ) (v x : ℤ) → (contains (points_from n v) x ≡ true) ↔ ((v ≤ℤ x) × (x <ℤ v +ℤ pos n))
unfolding points_from contains
points_from-contains zero v x = ground (arith, +ℤ_parts v (pos 0))
points_from-contains (suc n) v x = ground (
  arith,
  points_from-contains n (v +ℤ pos 1) x,
  +ℤ_parts v (pos 1),
  +ℤ_parts (v +ℤ pos 1) (pos n),
  +ℤ_parts v (pos (suc n)),
)

points_between :
    (min max x : ℤ)
    → (contains (if ltb_ℤ max min then [] else points_from (rounds min max) min) x ≡ true)
      ↔ ((min ≤ℤ x) × (x ≤ℤ max))
unfolding contains
points_between min max x = ground (
  arith,
  points_from-contains (rounds min max) min x,
  -ℤ_parts max min,
  +ℤ_parts min (pos (rounds min max)),
)

-- The values offered on a scale are exactly those between its bounds, and no question of another
-- type offers any.
pub scale_points-contains :
    (q : Question) (x : ℤ)
    → (contains (scale_points q) x ≡ true)
      ↔ (((needs_scale q.type || is_nps q.type) ≡ true) × ((scale q).0 ≤ℤ x) × (x ≤ℤ (scale q).1))
unfolding scale_points contains
scale_points-contains q x = ground (arith, points_between (scale q).0 (scale q).1 x)

length-points_from : (n : ℕ) (v : ℤ) → length (points_from n v) ≡ n
unfolding points_from
length-points_from zero v = refl
length-points_from (suc n) v = ap suc (length-points_from n (v +ℤ pos 1))

-- How many values a scale offers.
pub length-scale_points :
    (q : Question)
    → needs_scale q.type ≡ true
    → (scale q).0 ≤ℤ (scale q).1
    → length (scale_points q) ≡ suc (pos_part ((scale q).1 -ℤ (scale q).0))
unfolding scale_points
length-scale_points q h le =
    ground (arith, length-points_from (rounds (scale q).0 (scale q).1) (scale q).0)
