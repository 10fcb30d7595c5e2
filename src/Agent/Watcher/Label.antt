-- ===== src/Agent/Watcher/Label.antt =====
-- `dns1123Name` of internal/log-pilot-agent/watcher/watcher.go, on the code points of a string;
-- `strings.ToLower` is a parameter.
use logpilot.Prelude.{
  ℕ, zero, suc, ◌≤◌, ◌≡◌, refl, inl, inr, Bool, true, false, not, ◌&&◌, ◌||◌, List, [], ◌∷◌, arith,
  ltb, leb, ◌==◌, if◌then◌else◌, Bool-cases, length, nonempty, all, last,
}

abbrev pub dash : ℕ
dash = 45

-- `validation.DNS1123LabelMaxLength`
abbrev pub max_label : ℕ
max_label = 63

-- "logpilot-cluster-policy"
abbrev pub default_label : List ℕ
default_label =
    108 ∷ 111 ∷ 103 ∷ 112 ∷ 105 ∷ 108 ∷ 111 ∷ 116 ∷ 45 ∷ 99 ∷ 108 ∷ 117 ∷ 115 ∷ 116 ∷ 101 ∷ 114 ∷ 45
    ∷ 112 ∷ 111 ∷ 108 ∷ 105 ∷ 99 ∷ 121 ∷ []

unfoldable pub is_label_char : ℕ → Bool
is_label_char c = ((leb 97 c && leb c 122) || (leb 48 c && leb c 57)) || (c == dash)

unfoldable pub sanitize : List ℕ → List ℕ
unfolding is_label_char
sanitize [] = []
sanitize (c ∷ cs) = (if is_label_char c then c else dash) ∷ sanitize cs

unfoldable pub trim_left : List ℕ → List ℕ
trim_left [] = []
trim_left (c ∷ cs) = if c == dash then trim_left cs else c ∷ cs

unfoldable pub trim_right : List ℕ → List ℕ
trim_right [] = []
trim_right (c ∷ cs) =
    let rest = trim_right cs in if (c == dash) && not (nonempty rest) then [] else c ∷ rest

-- A slice `out[:n]` that is in bounds.
unfoldable pub take : ℕ → List ℕ → List ℕ
take zero cs = []
take (suc n) [] = []
take (suc n) (c ∷ cs) = c ∷ take n cs

unfoldable pub dns1123_name : (List ℕ → List ℕ) → List ℕ → List ℕ
unfolding sanitize trim_left trim_right take
dns1123_name to_lower value =
    let out = trim_right (trim_left (sanitize (to_lower value))) in
    let short = if ltb max_label (length out) then trim_right (take max_label out) else out in
    if nonempty short then short else default_label

-- The first code point is there and is not a dash.
abbrev pub StartsWell : List ℕ → Type 0
StartsWell [] = Unit
StartsWell (c ∷ cs) = (c == dash) ≡ false

abbrev pub EndsWell : List ℕ → Type 0
EndsWell cs = (last 0 cs == dash) ≡ false

abbrev pub AllLabel : List ℕ → Type 0
AllLabel cs = all is_label_char cs ≡ true

sanitize-AllLabel : (cs : List ℕ) → AllLabel (sanitize cs)
unfolding sanitize is_label_char
sanitize-AllLabel [] = refl
sanitize-AllLabel (c ∷ cs) = elim (Bool-cases (is_label_char c)) [
  | inl e ↦ rw e (rw e (sanitize-AllLabel cs))
  | inr e ↦ rw e (sanitize-AllLabel cs)
]

trim_left-AllLabel : (cs : List ℕ) → AllLabel cs → AllLabel (trim_left cs)
unfolding trim_left
trim_left-AllLabel [] h = h
trim_left-AllLabel (c ∷ cs) h = elim (Bool-cases (c == dash)) [
  | inl e ↦ rw e (trim_left-AllLabel cs (ground arith))
  | inr e ↦ rw e h
]

trim_right-AllLabel : (cs : List ℕ) → AllLabel cs → AllLabel (trim_right cs)
unfolding trim_right
trim_right-AllLabel [] h = h
trim_right-AllLabel (c ∷ cs) h =
    let i = trim_right-AllLabel cs (ground arith) in
    elim (Bool-cases ((c == dash) && not (nonempty (trim_right cs)))) [
      | inl e ↦ rw e refl
      | inr e ↦ rw e (ground arith)
    ]

take-AllLabel : (n : ℕ) (cs : List ℕ) → AllLabel cs → AllLabel (take n cs)
unfolding take
take-AllLabel zero cs h = refl
take-AllLabel (suc n) [] h = refl
take-AllLabel (suc n) (c ∷ cs) h = let i = take-AllLabel n cs (ground arith) in ground arith

trim_left-StartsWell : (cs : List ℕ) → StartsWell (trim_left cs)
unfolding trim_left
trim_left-StartsWell [] = tt
trim_left-StartsWell (c ∷ cs) = elim (Bool-cases (c == dash)) [
  | inl e ↦ rw e (trim_left-StartsWell cs)
  | inr e ↦ rw e e
]

trim_right-StartsWell : (cs : List ℕ) → StartsWell cs → StartsWell (trim_right cs)
unfolding trim_right
trim_right-StartsWell [] h = tt
trim_right-StartsWell (c ∷ cs) h = rw h h

take-StartsWell : (n : ℕ) (cs : List ℕ) → StartsWell cs → StartsWell (take n cs)
unfolding take
take-StartsWell zero cs h = tt
take-StartsWell (suc n) [] h = tt
take-StartsWell (suc n) (c ∷ cs) h = h

EndsWell-cons :
    (c : ℕ) (rest : List ℕ)
    → EndsWell rest
    → EndsWell (if (c == dash) && not (nonempty rest) then [] else c ∷ rest)
EndsWell-cons c [] h = elim (Bool-cases (c == dash)) [ inl e ↦ rw e refl | inr e ↦ rw e e ]
EndsWell-cons c (y ∷ ys) h = elim (Bool-cases (c == dash)) [ inl e ↦ rw e h | inr e ↦ rw e h ]

trim_right-EndsWell : (cs : List ℕ) → EndsWell (trim_right cs)
unfolding trim_right
trim_right-EndsWell [] = refl
trim_right-EndsWell (c ∷ cs) = EndsWell-cons c (trim_right cs) (trim_right-EndsWell cs)

length-trim_right : (cs : List ℕ) → length (trim_right cs) ≤ length cs
unfolding trim_right
length-trim_right [] = omega arith
length-trim_right (c ∷ cs) = ground (arith, length-trim_right cs)

length-take : (n : ℕ) (cs : List ℕ) → length (take n cs) ≤ n
unfolding take
length-take zero cs = omega arith
length-take (suc n) [] = omega arith
length-take (suc n) (c ∷ cs) = let i = length-take n cs in omega arith

-- Lower case letters, digits and dashes; no dash first or last; from 1 to 63 of them.
abbrev pub IsLabel : List ℕ → Type 0
IsLabel cs = AllLabel cs × StartsWell cs × EndsWell cs × (1 ≤ length cs) × (length cs ≤ max_label)

IsLabel-or_default :
    (cs : List ℕ)
    → AllLabel cs
    → StartsWell cs
    → EndsWell cs
    → length cs ≤ max_label
    → IsLabel (if nonempty cs then cs else default_label)
unfolding is_label_char
IsLabel-or_default [] a s e l = (refl, refl, refl, omega arith, omega arith)
IsLabel-or_default (c ∷ cs) a s e l = (a, s, e, omega arith, l)

-- Whatever the policy is called, the name made for its lease is a valid DNS label.
pub dns1123_name-IsLabel :
    (to_lower : List ℕ → List ℕ) (value : List ℕ) → IsLabel (dns1123_name to_lower value)
unfolding dns1123_name
dns1123_name-IsLabel to_lower value =
    let t = trim_left (sanitize (to_lower value)) in
    let out = trim_right t in
    let a =
      trim_right-AllLabel t
        (trim_left-AllLabel (sanitize (to_lower value)) (sanitize-AllLabel (to_lower value))) in
    let s = trim_right-StartsWell t (trim_left-StartsWell (sanitize (to_lower value))) in
    let cut = take max_label out in
    elim (Bool-cases (ltb max_label (length out))) [
      | inl q ↦ rw q (
          IsLabel-or_default (trim_right cut)
            (trim_right-AllLabel cut (take-AllLabel max_label out a))
            (trim_right-StartsWell cut (take-StartsWell max_label out s)) (trim_right-EndsWell cut)
            (let i = length-trim_right cut in let j = length-take max_label out in omega arith))
      | inr q ↦ rw q (IsLabel-or_default out a s (trim_right-EndsWell t) (ground arith))
    ]
