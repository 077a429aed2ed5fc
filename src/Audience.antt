-- ===== src/Audience.antt =====
-- internal/audience/audience.go: the browser family, the device class, and the suppression of small
-- counts.
use Prim.Native.Nat.{ℕ}
use earful.Prelude.{
  Bool, true, ◌||◌, String, ◌++◌, ◌≡◌, [], is_nil, not, arith, if◌then◌else◌, ◌∷◌, ◌&&◌, ◌≤◌, refl,
}
use earful.Prelude.Text.{codes, Text, has_prefix, contains_text}
use earful.Prelude.Int.{ltb_ℤ, pos, ℤ}

pub data Browser : Type 0 where
  chrome safari firefox edge opera samsung other_browser : Browser

pub data Device : Type 0 where
  phone tablet desktop other_device : Device

unfoldable pub browser_family : Text → Browser
unfolding contains_text
browser_family ua =
    let has : String → Bool = λ p. contains_text ua (codes p) in
    if is_nil ua
    then other_browser
    else if has "Edg/" || has "Edge/" || has "EdgiOS" || has "EdgA"
    then edge
    else if has "OPR/" || has "Opera"
    then opera
    else if has "SamsungBrowser"
    then samsung
    else if has "Firefox/" || has "FxiOS"
    then firefox
    else if has "Chrome/" || has "CriOS" || has "Chromium"
    then chrome
    else if has "Safari/"
    then safari
    else other_browser

unfoldable pub device_class : Text → Device
unfolding contains_text
device_class ua =
    let has : String → Bool = λ p. contains_text ua (codes p) in
    if is_nil ua
    then other_device
    else if has "iPad" || has "Tablet" || has "PlayBook" || has "Silk"
    then tablet
    else if has "Android" && not (has "Mobile")
    then tablet
    else if has "iPhone" || has "iPod" || has "Mobile" || has "Android" || has "Windows Phone"
    then phone
    else if has "Macintosh" || has "Windows" || has "X11" || has "Linux" || has "CrOS"
    then desktop
    else other_device

abbrev pub suppress_below : ℤ
suppress_below = pos 5

unfoldable pub suppressed : ℤ → Bool
suppressed count = ltb_ℤ count suppress_below

has_prefix-append : (s t p : Text) → has_prefix s p ≡ true → has_prefix (s ++ t) p ≡ true
unfolding has_prefix
has_prefix-append s t [] h = refl
has_prefix-append [] t (d ∷ p) h = absurd (ground arith)
has_prefix-append (c ∷ s) t (d ∷ p) h = ground (arith, has_prefix-append s t p)

contains_text-append : (s t p : Text) → contains_text s p ≡ true → contains_text (s ++ t) p ≡ true
unfolding contains_text
contains_text-append [] [] p h = h
contains_text-append [] (c ∷ t) [] h = ground arith
contains_text-append [] (c ∷ t) (d ∷ p) h = absurd (ground arith)
contains_text-append (c ∷ s) t p h =
    ground (arith, contains_text-append s t p, has_prefix-append (c ∷ s) t p)

-- How specific a family is: that of a browser above those of the browsers that it claims to be.
abbrev pub specific : Browser → ℕ
specific edge = 6
specific opera = 5
specific samsung = 4
specific firefox = 3
specific chrome = 2
specific safari = 1
specific other_browser = 0

-- The switch of `BrowserFamily` on its tests.
abbrev ladder : Bool → Bool → Bool → Bool → Bool → Bool → Browser
ladder e o m f c a =
    if e
    then edge
    else if o
    then opera
    else if m
    then samsung
    else if f
    then firefox
    else if c
    then chrome
    else if a
    then safari
    else other_browser

abbrev Below : Bool → Bool → Type 0
Below a b = a ≡ true → b ≡ true

ladder_mono :
    (e o m f c a e2 o2 m2 f2 c2 a2 : Bool)
    → Below e e2
    → Below o o2
    → Below m m2
    → Below f f2
    → Below c c2
    → Below a a2
    → specific (ladder e o m f c a) ≤ specific (ladder e2 o2 m2 f2 c2 a2)
ladder_mono e o m f c a e2 o2 m2 f2 c2 a2 he ho hm hf hc ha = ground arith

or_mono : (a b a2 b2 : Bool) → Below a a2 → Below b b2 → Below (a || b) (a2 || b2)
or_mono a b a2 b2 ha hb h = ground arith

-- What is behind a user agent never makes its family a less specific one.
pub browser_family-append :
    (ua t : Text) → specific (browser_family ua) ≤ specific (browser_family (ua ++ t))
unfolding browser_family
browser_family-append [] t = omega arith
browser_family-append (b ∷ ua) t =
    let has : String → Bool = λ p. contains_text (b ∷ ua) (codes p) in
    let has2 : String → Bool = λ p. contains_text (b ∷ ua ++ t) (codes p) in
    let keeps : (p : String) → Below (has p) (has2 p) =
      λ p. contains_text-append (b ∷ ua) t (codes p) in
    let either : (p q : String) → Below (has p || has q) (has2 p || has2 q) =
      λ p q. or_mono (has p) (has q) (has2 p) (has2 q) (keeps p) (keeps q) in
    ladder_mono _ _ _ _ _ _ _ _ _ _ _ _
      (or_mono (has "Edg/" || has "Edge/" || has "EdgiOS") _
        (has2 "Edg/" || has2 "Edge/" || has2 "EdgiOS") _
        (or_mono (has "Edg/" || has "Edge/") _ (has2 "Edg/" || has2 "Edge/") _
          (either "Edg/" "Edge/") (keeps "EdgiOS"))
        (keeps "EdgA"))
      (either "OPR/" "Opera") (keeps "SamsungBrowser") (either "Firefox/" "FxiOS")
      (or_mono (has "Chrome/" || has "CriOS") _ (has2 "Chrome/" || has2 "CriOS") _
        (either "Chrome/" "CriOS") (keeps "Chromium"))
      (keeps "Safari/")
