-- ===== src/Agent/Input/Filter.antt =====
-- `passesFilter` and `compilePatterns` of internal/log-pilot-agent/input/file.go, which dir.go
-- repeats. A pattern that regexp compiles is the test that it stands for.
use logpilot.Prelude.{
  String, ◌≡◌, ◌↔◌, ◌⊎◌, inl, inr, Bool, true, false, not, ◌&&◌, Option, none, some, List, [], ◌∷◌,
  arith, if◌then◌else◌, Bool-cases, nonempty,
}

abbrev pub Pattern : Type 0
Pattern = String → Bool

-- Patterns that do not compile are left out.
unfoldable pub compile_patterns : (String → Option Pattern) → List String → List Pattern
compile_patterns compile [] = []
compile_patterns compile (p ∷ ps) = elim (compile p) [
  | none ↦ compile_patterns compile ps
  | some re ↦ re ∷ compile_patterns compile ps
]

unfoldable pub any_match : List Pattern → String → Bool
any_match [] name = false
any_match (re ∷ res) name = if re name then true else any_match res name

unfoldable pub passes_filter : List Pattern → List Pattern → String → Bool
unfolding any_match
passes_filter include exclude name =
    if nonempty include && not (any_match include name)
    then false
    else if any_match exclude name
    then false
    else true

abbrev pub Matches : List Pattern → String → Type 0
Matches [] name = ⊥
Matches (re ∷ res) name = (re name ≡ true) ⊎ Matches res name

any_match_iff :
    (res : List Pattern) (name : String) → (any_match res name ≡ true) ↔ Matches res name
unfolding any_match
any_match_iff [] name = ((λ h. cc), (λ h. absurd h))
any_match_iff (re ∷ res) name = (
  (λ h. elim (Bool-cases (re name)) [
    | inl e ↦ inl e
    | inr e ↦ inr ((any_match_iff res name).0 (rw e at h))
  ]),
  (λ h. elim h [
    | inl e ↦ rw e
    | inr m ↦ elim (Bool-cases (re name)) [
      | inl e ↦ rw e
      | inr e ↦ rw e ((any_match_iff res name).1 m)
    ]
  ]),
)

-- A file name passes exactly when some include pattern matches it, or there is none, and no exclude
-- pattern does: exclusion wins.
pub passes_filter_iff :
    (include exclude : List Pattern) (name : String)
    → (passes_filter include exclude name ≡ true)
      ↔ (((nonempty include ≡ false) ⊎ Matches include name) × (¬ Matches exclude name))
unfolding passes_filter
passes_filter_iff include exclude name =
    let (i, i') = any_match_iff include name in
    let (x, x') = any_match_iff exclude name in
    (
      (λ h. (
        elim (Bool-cases (nonempty include)) [ inl e ↦ inr (i (ground arith)) | inr e ↦ inl e ],
        (λ m. let m' = x' m in ground arith),
      )),
      (λ h. elim (Bool-cases (any_match exclude name)) [
        | inl e ↦ absurd (h.1 (x e))
        | inr e ↦ elim h.0 [ inl none_given ↦ ground arith | inr m ↦ let m' = i' m in ground arith ]
      ]),
    )
