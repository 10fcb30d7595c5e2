-- ===== src/Agent/Clean.antt =====
-- internal/log-pilot-agent/clean/strategies.go. `entries` is what `os.ReadDir` of the log directory
-- gives, `none` where it fails; a removal that the system refuses changes nothing. `cutoff` is
-- `time.Now().AddDate(0, 0, -days)`, of package time.
use logpilot.Prelude.{
  ℕ, ◌≤◌, ◌<◌, String, ◌≡◌, refl, ap, ◌↔◌, inl, inr, Bool, true, false, not, ◌&&◌, Option, none,
  some, List, [], ◌∷◌, arith, str_eq, ltb, if◌then◌else◌, Bool-cases, of_some-eq-some, length,
  nonempty, keep, All,
}
use logpilot.Prelude.Int.{ℤ, is_positive, magnitude}
use logpilot.Api.{CleanSpec}

pub data Clean : Type 0 where
  never : Clean
  after_collected : Clean
  retain : ℕ → Clean

pub record LogFile : Type 0 where
  pub name : String
  pub mod_time : Option ℕ
  pub removable : Bool

unfoldable pub new_from_spec : CleanSpec → Clean
new_from_spec spec =
    if str_eq spec.strategy "never"
    then never
    else if str_eq spec.strategy "retain"
    then retain (if is_positive spec.retain_days then magnitude spec.retain_days else 7)
    else after_collected

-- `err == nil && info.ModTime().Before(cutoff)`
abbrev pub is_old : ℕ → LogFile → Bool
is_old cutoff f = elim f.mod_time [ none ↦ false | some t ↦ ltb t cutoff ]

unfoldable pub any_old : ℕ → List LogFile → Bool
any_old cutoff [] = false
any_old cutoff (f ∷ fs) = if is_old cutoff f then true else any_old cutoff fs

unfoldable pub should_clean : (ℕ → ℕ) → Clean → ℤ → Option (List LogFile) → Bool
unfolding any_old
should_clean cutoff never lag entries = false
should_clean cutoff after_collected lag entries =
    if is_positive lag then false else elim entries [ none ↦ false | some fs ↦ nonempty fs ]
should_clean cutoff (retain days) lag entries = elim entries [
  | none ↦ false
  | some fs ↦ any_old (cutoff days) fs
]

-- The loops of the two `Clean` methods: what is left of the directory.
unfoldable pub remove_all : List LogFile → List LogFile
remove_all [] = []
remove_all (f ∷ fs) = if f.removable then remove_all fs else f ∷ remove_all fs

unfoldable pub remove_old : ℕ → List LogFile → List LogFile
remove_old cutoff [] = []
remove_old cutoff (f ∷ fs) =
    if is_old cutoff f && f.removable then remove_old cutoff fs else f ∷ remove_old cutoff fs

unfoldable pub clean : (ℕ → ℕ) → Clean → Option (List LogFile) → Option (List LogFile)
unfolding remove_all remove_old
clean cutoff never entries = entries
clean cutoff after_collected entries = elim entries [ none ↦ none | some fs ↦ some (remove_all fs) ]
clean cutoff (retain days) entries = elim entries [
  | none ↦ none
  | some fs ↦ some (remove_old (cutoff days) fs)
]

remove_old-keep :
    (t : ℕ) (fs : List LogFile) → remove_old t fs ≡ keep (λ f. not (is_old t f && f.removable)) fs
unfolding remove_old
remove_old-keep t [] = refl
remove_old-keep t (f ∷ fs) = ground (arith, remove_old-keep t fs)

remove_old_none : (t : ℕ) (fs : List LogFile) → any_old t fs ≡ false → remove_old t fs ≡ fs
unfolding remove_old any_old
remove_old_none t [] h = refl
remove_old_none t (f ∷ fs) h = ground (arith, remove_old_none t fs)

length-remove_old-le : (t : ℕ) (fs : List LogFile) → length (remove_old t fs) ≤ length fs
unfolding remove_old
length-remove_old-le t [] = omega arith
length-remove_old-le t (f ∷ fs) = ground (arith, length-remove_old-le t fs)

remove_old_some :
    (t : ℕ) (fs : List LogFile)
    → All (λ f. f.removable ≡ true) fs
    → any_old t fs ≡ true
    → length (remove_old t fs) < length fs
unfolding remove_old any_old
remove_old_some t [] r h = cc
remove_old_some t (f ∷ fs) (r, rs) h = elim (Bool-cases (is_old t f)) [
  | inl e ↦ rw (e, r) (omega (arith, length-remove_old-le t fs))
  | inr e ↦ rw e (omega (arith, remove_old_some t fs rs (rw (e, any_old) at h)))
]

-- Where every file can be removed, `retain` asks to clean exactly when cleaning would change the
-- directory, and cleaning then keeps, in order, exactly the files that are not older than the
-- cutoff; `never` neither asks nor changes anything; `afterCollected` never asks while there is lag.
pub should_clean_iff :
    (cutoff : ℕ → ℕ) (days : ℕ) (lag : ℤ) (fs : List LogFile)
    → All (λ f. f.removable ≡ true) fs
    → ((should_clean cutoff (retain days) lag (some fs) ≡ false)
        ↔ (clean cutoff (retain days) (some fs) ≡ some fs))
      × (clean cutoff (retain days) (some fs)
          ≡ some (keep (λ f. not (is_old (cutoff days) f && f.removable)) fs))
      × (should_clean cutoff never lag (some fs) ≡ false)
      × (clean cutoff never (some fs) ≡ some fs)
      × (is_positive lag ≡ true → should_clean cutoff after_collected lag (some fs) ≡ false)
unfolding should_clean clean
should_clean_iff cutoff days lag fs r = (
  (
    (λ h. ap some (remove_old_none (cutoff days) fs h)),
    (λ h. elim (Bool-cases (any_old (cutoff days) fs)) [
      | inl e ↦
          absurd
            (omega (arith, ap length (of_some-eq-some h), remove_old_some (cutoff days) fs r e))
      | inr e ↦ e
    ]),
  ),
  ap some (remove_old-keep (cutoff days) fs),
  refl,
  refl,
  (λ h. rw h),
)
