-- ===== src/Agent/Output/Laws.antt =====
-- What the outputs of internal/log-pilot-agent/output write.
use logpilot.Prelude.{
  ℕ, zero, suc, ◌<◌, String, ◌≡◌, refl, sym, ap, ◌∙◌, ◌↔◌, inl, inr, Bool, true, false, not, ◌&&◌,
  Option, none, some, List, [], ◌∷◌, ◌++◌, map, append_assoc, append-nil, arith, str_eq,
  if◌then◌else◌, Bool-cases, Option-cases, of_some-eq-some, lookup, or_else, lookup-copy,
}
use logpilot.Api.{Bytes}
use logpilot.Agent.Record.{Record, meta_map}
use logpilot.Agent.Output.{
  Value, bytes, text, Entry, texts, entry_of, HttpConfig, Request, http_write_batch, FileOutput,
  take, encode_all, file_write_batch,
}

abbrev as_text : Option String → Option Value
as_text none = none
as_text (some v) = some (text v)

lookup-texts : (k : String) (m : List (String × String)) → lookup k (texts m) ≡ as_text (lookup k m)
unfolding lookup
lookup-texts k [] = refl
lookup-texts k ((j, v) ∷ m) = ground (arith, lookup-texts k m)

lookup_one :
    (key : String) (r : Record)
    → lookup key (("data", bytes r.payload) ∷ [])
      ≡ (if str_eq "data" key then some (bytes r.payload) else none)
unfolding lookup
lookup_one key r = refl

-- An entry has the record's data under "data" and its meta data under their keys, but meta data
-- under the key "data" takes the place of the record's data.
pub lookup-entry_of :
    (r : Record) (key : String)
    → lookup key (entry_of r) ≡ elim (lookup key (meta_map r)) [
      | some v ↦ some (text v)
      | none ↦ if str_eq "data" key then some (bytes r.payload) else none
    ]
unfolding entry_of
lookup-entry_of r key =
    lookup-copy key (("data", bytes r.payload) ∷ []) (texts (meta_map r))
    ∙ ap (λ o. or_else o (lookup key (("data", bytes r.payload) ∷ [])))
        (lookup-texts key (meta_map r))
    ∙ cases (lookup key (meta_map r))
  where
    one :
        lookup key (("data", bytes r.payload) ∷ [])
        ≡ (if str_eq "data" key then some (bytes r.payload) else none)
    one = lookup_one key r

    cases :
        (o : Option String)
        → or_else (as_text o) (lookup key (("data", bytes r.payload) ∷ [])) ≡ elim o [
          | some v ↦ some (text v)
          | none ↦ if str_eq "data" key then some (bytes r.payload) else none
        ]
    cases none = one
    cases (some v) = refl

abbrev request : HttpConfig → List ℕ → Request
request cfg body = record {
  url = cfg.url;
  headers = ("Content-Type", "application/json") ∷ cfg.headers;
  body = body;
}

-- The HTTP output reports success exactly where the entries encode and the server answers with a
-- status below 400.
pub http_write_batch_iff :
    (marshal : List Entry → Option (List ℕ)) (send : Request → Option ℕ) (cfg : HttpConfig)
    (rs : List Record)
    → (http_write_batch marshal send cfg rs ≡ true) ↔ (
        (body : List ℕ) × (status : ℕ) × (marshal (map entry_of rs) ≡ some body)
        × (send (record {
          url = cfg.url;
          headers = ("Content-Type", "application/json") ∷ cfg.headers;
          body = body;
        })
            ≡ some status)
        × (status < 400))
unfolding http_write_batch
http_write_batch_iff marshal send cfg rs = elim (Option-cases (marshal (map entry_of rs))) [
  | inl n ↦ ((λ h. cc (rw (n, http_write_batch) at h)), (λ x. cc (n, x.2)))
  | inr (body, e) ↦ elim (Option-cases (send (request cfg body))) [
    | inl n ↦ (
      (λ h. cc (rw (e, n, http_write_batch) at h)),
      (λ x. let same : x.0 ≡ body = of_some-eq-some (sym x.2 ∙ e) in cc (n, same, x.3)),
    )
    | inr (status, f) ↦ (
      (λ h. (body, status, e, f, ground arith)),
      (λ x.
          let same : x.0 ≡ body = of_some-eq-some (sym x.2 ∙ e) in
          let s : x.1 ≡ status =
            of_some-eq-some (sym x.3 ∙ ap (λ b. send (request cfg b)) same ∙ f) in
          ground arith),
    )
  ]
]

module _ (encode : Entry → Bytes) where
  -- The entries of the records, one after the other.
  abbrev pub entries : List Record → Bytes
  entries [] = []
  entries (r ∷ rs) = encode (entry_of r) ++ entries rs

  abbrev pub next_entry : List Record → Bytes
  next_entry [] = []
  next_entry (r ∷ rs) = encode (entry_of r)

  -- What a write to the file adds: on success the entries of the whole batch, in order; on an error
  -- those of a first part `a` of it and a part of the entry that comes next, all of which stays.
  abbrev pub Written : List Record → FileOutput → FileOutput × Bool → Type 0
  Written rs o (u, true) = u.content ≡ o.content ++ entries rs
  Written rs o (u, false) =
      (a : List Record) × (b : List Record) × (part : Bytes) × (rest : Bytes) × (rs ≡ a ++ b)
      × (u.content ≡ o.content ++ (entries a ++ part))
      × (next_entry b ≡ part ++ rest)

  Written-cons :
      (r : Record) (rs : List Record) (o : FileOutput) (x : FileOutput × Bool)
      → Written rs (record o { content = o.content ++ encode (entry_of r) }) x
      → Written (r ∷ rs) o x
  Written-cons r rs o (u, true) w = w ∙ append_assoc o.content (encode (entry_of r)) (entries rs)
  Written-cons r rs o (u, false) (a, b, part, rest, e, w, n) = (
    r ∷ a,
    b,
    part,
    rest,
    ap (◌∷◌ r) e,
    w
        ∙ append_assoc o.content (encode (entry_of r)) (entries a ++ part)
        ∙ ap (◌++◌ o.content) (sym (append_assoc (encode (entry_of r)) (entries a) part)),
    n,
  )

  take-split : (n : ℕ) (bs : Bytes) → (rest : Bytes) × (bs ≡ take n bs ++ rest)
  unfolding take
  take-split zero bs = (bs, refl)
  take-split (suc n) [] = ([], refl)
  take-split (suc n) (b ∷ bs) = let (rest, e) = take-split n bs in (rest, ap (◌∷◌ b) e)

  encode_all-Written :
      (write : ℕ → Option ℕ) (i : ℕ) (o : FileOutput) (rs : List Record)
      → let (content, done) = encode_all encode write i o.content rs in
        Written rs o (record o { opened = true; content = content }, done)
  unfolding encode_all
  encode_all-Written write i o [] = sym (append-nil o.content)
  encode_all-Written write i o (r ∷ rs) = elim (Option-cases (write i)) [
    | inl e ↦
        let o' = record o { content = o.content ++ encode (entry_of r) } in
        let (content, done) = encode_all encode write (suc i) o'.content rs in
        rw (e, encode_all)
          (Written-cons r rs o (record o' { opened = true; content = content }, done)
            (encode_all-Written write (suc i) o' rs))
    | inr (n, e) ↦
        let (rest, split) = take-split n (encode (entry_of r)) in
        rw (e, encode_all) ([], r ∷ rs, take n (encode (entry_of r)), rest, refl, refl, split)
  ]

  -- A write to the file adds the entries of the whole batch, in order, where it succeeds. Where it
  -- fails it adds those of some first part of the batch, and perhaps a part of the next entry, cut off
  -- where a write to the file ended early.
  pub file_write_batch-Written :
      (can_open : Bool) (write : ℕ → Option ℕ) (o : FileOutput) (rs : List Record)
      → Written rs o (file_write_batch can_open encode write o rs)
  unfolding file_write_batch
  file_write_batch-Written can_open write o rs = elim (Bool-cases (not o.opened && not can_open)) [
    | inl e ↦ rw e ([], rs, [], next_entry rs, refl, sym (append-nil o.content), refl)
    | inr e ↦ rw e (encode_all-Written write 0 o rs)
  ]
