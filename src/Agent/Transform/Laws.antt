-- ===== src/Agent/Transform/Laws.antt =====
-- What the transforms of internal/log-pilot-agent/transform do to a batch.
use logpilot.Prelude.{
  String, ◌≡◌, refl, sym, ap, ◌∙◌, inl, inr, Bool, not, none, some, List, [], ◌∷◌, ◌++◌, map,
  append_assoc, append-nil, arith, str_eq, Bool-cases, keep, lookup, or_else, lookup-copy,
}
use logpilot.Json.{Json}
use logpilot.Api.{Bytes}
use logpilot.Agent.Record.{Record, meta_get, meta_map, or_empty, merge_meta}
use logpilot.Agent.Transform.{Transform, json, label, drop, drop_loop, json_record, transform}

-- `ys` is what is left of `xs` when some of its items are left out; the order stays.
pub data Subsequence {ℓ} {A : Type ℓ} : List A → List A → Type ℓ where
  done : Subsequence [] []
  take : {x : A} {ys xs : List A} → Subsequence ys xs → Subsequence (x ∷ ys) (x ∷ xs)
  skip : {x : A} {ys xs : List A} → Subsequence ys xs → Subsequence ys (x ∷ xs)

pub Subsequence_refl {ℓ} : {A : Type ℓ} (xs : List A) → Subsequence xs xs
Subsequence_refl [] = done
Subsequence_refl (x ∷ xs) = take (Subsequence_refl xs)

pub Subsequence_nil {ℓ} : {A : Type ℓ} (xs : List A) → Subsequence [] xs
Subsequence_nil [] = done
Subsequence_nil (x ∷ xs) = skip (Subsequence_nil xs)

pub Subsequence_trans {ℓ} :
    {A : Type ℓ} {xs ys zs : List A} → Subsequence xs ys → Subsequence ys zs → Subsequence xs zs
Subsequence_trans p done = p
Subsequence_trans (take p) (take q) = take (Subsequence_trans p q)
Subsequence_trans (skip p) (take q) = skip (Subsequence_trans p q)
Subsequence_trans p (skip q) = skip (Subsequence_trans p q)

abbrev pub payloads : List Record → List Bytes
payloads = map (λ r. r.payload)

abbrev pub survives : String → String → Record → Bool
survives key value r = not (str_eq (meta_get r key) value)

drop_loop-eq :
    (key value : String) (out rs : List Record)
    → drop_loop key value out rs ≡ out ++ keep (survives key value) rs
unfolding drop_loop
drop_loop-eq key value out [] = sym (append-nil out)
drop_loop-eq key value out (r ∷ rs) = elim (Bool-cases (survives key value r)) [
  | inl e ↦ rw e (drop_loop-eq key value (out ++ r ∷ []) rs ∙ append_assoc out (r ∷ []) _)
  | inr e ↦ rw e (drop_loop-eq key value out rs)
]

keep-Subsequence :
    (p : Record → Bool) (rs : List Record) → Subsequence (payloads (keep p rs)) (payloads rs)
keep-Subsequence p [] = done
keep-Subsequence p (r ∷ rs) = elim (Bool-cases (p r)) [
  | inl e ↦ rw e (take (keep-Subsequence p rs))
  | inr e ↦ rw e (skip (keep-Subsequence p rs))
]

module _ (codec : Json) where
  -- `drop` keeps, in order, exactly the records whose meta value differs from the given one, where
  -- a record without the key counts as having the empty text.
  pub drop-keeps :
      (key value : String) (rs : List Record)
      → transform codec (drop key value) rs
        ≡ keep (λ r. not (str_eq (or_empty (lookup key (meta_map r))) value)) rs
  unfolding transform meta_get
  drop-keeps key value rs = drop_loop-eq key value [] rs

  json_record-payload : (r : Record) → (json_record codec r).payload ≡ r.payload
  unfolding json_record
  json_record-payload r = ground arith

  json-payloads : (rs : List Record) → payloads (map (json_record codec) rs) ≡ payloads rs
  json-payloads [] = refl
  json-payloads (r ∷ rs) = cc (json_record-payload r, json-payloads rs)

  label-payloads :
      (fields : List (String × String)) (rs : List Record)
      → payloads (map (λ r. merge_meta r fields) rs) ≡ payloads rs
  unfolding merge_meta
  label-payloads fields [] = refl
  label-payloads fields (r ∷ rs) = ap (◌∷◌ r.payload) (label-payloads fields rs)

  -- Every transform keeps the order of the records and their data: of the payloads that go in, those
  -- that come out are a subsequence.
  pub transform-Subsequence :
      (t : Transform) (rs : List Record)
      → Subsequence (payloads (transform codec t rs)) (payloads rs)
  unfolding transform
  transform-Subsequence json rs = rw (json-payloads rs) (Subsequence_refl (payloads rs))
  transform-Subsequence (label fields) rs =
      rw (label-payloads fields rs) (Subsequence_refl (payloads rs))
  transform-Subsequence (drop key value) rs =
      rw (drop_loop-eq key value [] rs) (keep-Subsequence (survives key value) rs)

  merge_meta-get :
      (r : Record) (fields : List (String × String)) (key : String)
      → meta_get (merge_meta r fields) key
        ≡ or_empty (or_else (lookup key fields) (lookup key (meta_map r)))
  unfolding merge_meta meta_get
  merge_meta-get r fields key = ap or_empty (lookup-copy key (meta_map r) fields)

  -- After `label`, each record reads the given fields, and every other key as before; after `json`
  -- a record whose data is a JSON map of strings reads that map's keys over its own, and another
  -- record is unchanged.
  pub label_json-get :
      (fields : List (String × String)) (key : String) (r : Record)
      → (map (λ s. meta_get s key) (transform codec (label fields) (r ∷ []))
          ≡ or_empty (or_else (lookup key fields) (lookup key (meta_map r))) ∷ [])
        × ((m : List (String × String))
            → codec.to_string_map r.payload ≡ some m
            → map (λ s. meta_get s key) (transform codec json (r ∷ []))
              ≡ or_empty (or_else (lookup key m) (lookup key (meta_map r))) ∷ [])
        × (codec.to_string_map r.payload ≡ none → transform codec json (r ∷ []) ≡ r ∷ [])
  unfolding transform json_record
  label_json-get fields key r = (
    ap (λ v. v ∷ []) (merge_meta-get r fields key),
    (λ m e. rw (e, json_record) (ap (λ v. v ∷ []) (merge_meta-get r m key))),
    (λ e. rw (e, json_record)),
  )
