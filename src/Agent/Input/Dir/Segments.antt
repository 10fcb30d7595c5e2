-- ===== src/Agent/Input/Dir/Segments.antt =====
-- The lines of a text, as the directory input cuts them.
use logpilot.Prelude.{
  ℕ, zero, suc, ◌+◌, ◌-◌, ◌≤◌, ◌≡◌, refl, sym, ap, ◌∙◌, inl, inr, List, [], ◌∷◌, ◌++◌, map,
  append_assoc, arith, ◌==◌, if◌then◌else◌, Bool-cases, length, nonempty, keep, length-append,
}
use logpilot.Api.{Bytes}
use logpilot.Agent.Record.{Record, plain}
use logpilot.Agent.Input.Dir.Reading.{Line, newline, drop_bytes, read_string, strip, collected}

-- A text cut behind each newline.
abbrev push : ℕ → List Bytes → List Bytes
push b [] = (b ∷ []) ∷ []
push b (s ∷ ss) = (b ∷ s) ∷ ss

unfoldable pub segments : Bytes → List Bytes
segments [] = []
segments (b ∷ bs) = let rest = segments bs in if b == newline then (b ∷ []) ∷ rest else push b rest

-- The records that a text stands for: its lines, without their ends, less the blank ones.
unfoldable pub records_of : Bytes → List Record
unfolding segments strip plain
records_of bs = map plain (keep nonempty (map strip (segments bs)))

pub records_of-nil : records_of [] ≡ []
unfolding records_of
records_of-nil = refl

pub segments_split :
    (b : ℕ) (bs : Bytes)
    → segments (b ∷ bs)
      ≡ read_string (b ∷ bs) ∷ segments (drop_bytes (length (read_string (b ∷ bs))) (b ∷ bs))
unfolding segments read_string
segments_split b [] = elim (Bool-cases (b == newline)) [ inl e ↦ rw e | inr e ↦ rw e ]
segments_split b (c ∷ cs) = elim (Bool-cases (b == newline)) [
  | inl e ↦ rw e
  | inr e ↦ rw e (ap (push b) (segments_split c cs))
]

pub length-read_string-le : (bs : Bytes) → length (read_string bs) ≤ length bs
unfolding read_string
length-read_string-le [] = omega arith
length-read_string-le (b ∷ bs) = ground (arith, length-read_string-le bs)

pub drop_bytes-drop_bytes :
    (m n : ℕ) (bs : Bytes) → drop_bytes n (drop_bytes m bs) ≡ drop_bytes (m + n) bs
drop_bytes-drop_bytes zero n bs = let e : n ≡ 0 + n = omega arith in ap (λ k. drop_bytes k bs) e
drop_bytes-drop_bytes (suc m) zero [] = let e : suc m + 0 ≡ suc m = omega arith in rw e
drop_bytes-drop_bytes (suc m) (suc n) [] =
    let e : suc m + suc n ≡ suc (m + suc n) = omega arith in rw e
drop_bytes-drop_bytes (suc m) n (b ∷ bs) =
    let e : suc m + n ≡ suc (m + n) = omega arith in rw e (drop_bytes-drop_bytes m n bs)

pub length-drop_bytes : (n : ℕ) (bs : Bytes) → length (drop_bytes n bs) ≡ length bs - n
length-drop_bytes zero bs = omega arith
length-drop_bytes (suc n) [] = omega arith
length-drop_bytes (suc n) (b ∷ bs) = omega (arith, length-drop_bytes n bs)

pub collected_room :
    (records : List Record) (l : Line) → length (collected records l) ≤ length records + 1
collected_room records l = elim (Bool-cases (nonempty l.line)) [
  | inl e ↦ rw e (omega (arith, length-append records (plain l.line ∷ [])))
  | inr e ↦ rw e (omega arith)
]

-- A line that was read and the records of what follows it are the records of both.
pub collected-records_of :
    (records : List Record) (b : ℕ) (bs : Bytes) (l : Line)
    → l.line ≡ strip (read_string (b ∷ bs))
    → collected records l ++ records_of (drop_bytes (length (read_string (b ∷ bs))) (b ∷ bs))
      ≡ records ++ records_of (b ∷ bs)
unfolding records_of
collected-records_of records b bs l e = rw e (
    ap (λ r. collected records (record l { line = line }) ++ r) refl
    ∙ joined (segments (drop_bytes (length (read_string (b ∷ bs))) (b ∷ bs)))
    ∙ ap (λ ss. records ++ of_segments ss) (sym (segments_split b bs)))
  where
    line : Bytes
    line = strip (read_string (b ∷ bs))

    of_segments : List Bytes → List Record
    of_segments ss = map plain (keep nonempty (map strip ss))

    joined :
        (ss : List Bytes)
        → collected records (record l { line = line }) ++ of_segments ss
          ≡ records ++ of_segments (read_string (b ∷ bs) ∷ ss)
    joined ss = elim (Bool-cases (nonempty line)) [
      | inl f ↦ rw f (append_assoc records (plain line ∷ []) (of_segments ss))
      | inr f ↦ rw f
    ]
