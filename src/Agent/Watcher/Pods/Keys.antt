-- ===== src/Agent/Watcher/Pods/Keys.antt =====
-- Lemmas on the maps and key lists of the watcher.
use logpilot.Prelude.{
  String, ◌≡◌, refl, ap, ◌∙◌, inl, inr, Bool, true, false, not, ◌&&◌, none, some, List, [], ◌∷◌,
  arith, str_eq, eq_iff, eq_refl, if◌then◌else◌, Bool-cases, keep, any, lookup, insert, has,
  lookup-insert, lookup-eq-none_iff,
}
use logpilot.Agent.Watcher.Pods.{RunnerEntry, contains, remove_key, is_of}

pub lookup-keep :
    (f : String → Bool) (k : String) (m : List (String × RunnerEntry))
    → lookup k (keep (λ (p : String × RunnerEntry). not (f p.0)) m)
      ≡ (if f k then none else lookup k m)
unfolding lookup
lookup-keep f k [] = ground arith
lookup-keep f k ((j, v) ∷ m) = elim (Bool-cases (str_eq j k)) [
  | inl q ↦ let same : f j ≡ f k = ap f ((eq_iff j k).0 q) in ground (arith, lookup-keep f k m)
  | inr q ↦ ground (arith, lookup-keep f k m)
]

pub contains-remove_key :
    (v u : String) (us : List String)
    → contains v (remove_key u us) ≡ (contains v us && not (str_eq u v))
unfolding contains remove_key
contains-remove_key v u [] = refl
contains-remove_key v u (x ∷ us) =
    ground (arith, eq_iff x u, eq_iff x v, eq_iff u v, contains-remove_key v u us)

pub any-of :
    (p : String → Bool) (u : String) (us : List String)
    → contains u us ≡ true
    → p u ≡ true
    → any p us ≡ true
unfolding contains
any-of p u [] c h = ground arith
any-of p u (x ∷ us) c h = elim (Bool-cases (str_eq x u)) [
  | inl q ↦ let same : p x ≡ p u = ap p ((eq_iff x u).0 q) in ground arith
  | inr q ↦ let i = any-of p u us (ground arith) h in ground arith
]

pub any-none :
    (p : String → Bool) (us : List String)
    → ((u : String) → contains u us ≡ true → p u ≡ false)
    → any p us ≡ false
unfolding contains
any-none p [] h = refl
any-none p (x ∷ us) h =
    let a = h x (ground (arith, eq_refl x)) in
    let b = any-none p us (λ u c. h u (ground arith)) in ground arith

pub Grows-insert :
    (key : String) (v : RunnerEntry) (uid k : String) (m : List (String × RunnerEntry))
    → has key m ≡ false
    → is_of uid key ≡ true
    → ((e : RunnerEntry) → lookup k m ≡ some e → lookup k (insert key v m) ≡ some e)
      × (is_of uid k ≡ false → lookup k (insert key v m) ≡ lookup k m)
Grows-insert key v uid k m h o = elim (Bool-cases (str_eq key k)) [
  | inl q ↦
      let same = (eq_iff key k).0 q in
      (
        (λ e l. cc ((lookup-eq-none_iff key m).1 h, l, same)),
        (λ n. let o' : is_of uid key ≡ is_of uid k = ap (λ j. is_of uid j) same in ground arith),
      )
  | inr q ↦ ((λ e l. lookup-insert k key v m ∙ rw q l), (λ n. lookup-insert k key v m ∙ rw q refl))
]

pub none≢some : {A : Type 0} {a : A} → none ≡ some a → ⊥
none≢some e = cc
