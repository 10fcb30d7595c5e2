-- ===== src/Agent/Output.antt =====
-- internal/log-pilot-agent/output: the HTTP and the file output, and their factory. The HTTP client,
-- encoding/json and the certificate parser are parameters. An entry's values are `any` in Go: the
-- data's bytes, or a text of the meta data.
pub mod Laws
use logpilot.Prelude.{
  ℕ, zero, suc, ◌+◌, String, Bool, true, false, not, ◌&&◌, ◌||◌, Option, none, some, List, [], ◌∷◌,
  ◌++◌, map, str_eq, leb, if◌then◌else◌, copy,
}
use logpilot.Api.{Bytes, OutputSpec}
use logpilot.Json.{
  Json, Result, ok, err, ◌>>=◌, wrap, unknown_type, bad_certificate, extract_string,
  extract_string_map, extract_bool,
}
use logpilot.Agent.Record.{Record, meta_map}

pub data Value : Type 0 where
  bytes : Bytes → Value
  text : String → Value

abbrev pub Entry : Type 0
Entry = List (String × Value)

abbrev pub texts : List (String × String) → Entry
texts [] = []
texts ((k, v) ∷ m) = (k, text v) ∷ texts m

-- The entry that both outputs build for a record.
unfoldable pub entry_of : Record → Entry
entry_of r = copy (("data", bytes r.payload) ∷ []) (texts (meta_map r))

pub record HttpConfig : Type 0 where
  pub url : String
  pub headers : List (String × String)
  pub tls_skip_verify : Bool
  pub tls_ca_cert : String

pub data Output : Type 0 where
  http : HttpConfig → Output
  file : String → Output

abbrev pub or_default {ℓ} : {A : Type ℓ} → Result A → A → A
or_default (ok a) d = a
or_default (err e) d = d

-- `NewHTTPOutput`: a certificate that is given must parse.
unfoldable pub new_http_output : (String → Bool) → HttpConfig → Result Output
new_http_output parse_pem cfg =
    if str_eq cfg.tls_ca_cert "" || parse_pem cfg.tls_ca_cert
    then ok (http cfg)
    else err bad_certificate

-- `NewFromSpec`: the headers and the TLS settings are optional, and one that does not decode counts
-- as not given.
unfoldable pub new_from_spec : Json → (String → Bool) → OutputSpec → Result Output
unfolding extract_string extract_string_map extract_bool new_http_output
new_from_spec codec parse_pem spec =
    if str_eq spec.type "http"
    then (wrap "http output" (extract_string codec spec.config "url") >>= λ url.
        new_http_output parse_pem (record {
          url = url;
          headers = or_default (extract_string_map codec spec.config "headers") [];
          tls_skip_verify = or_default (extract_bool codec spec.config "tlsSkipVerify") false;
          tls_ca_cert = or_default (extract_string codec spec.config "tlsCACert") "";
        }))
    else if str_eq spec.type "file"
    then (wrap "file output" (extract_string codec spec.config "path") >>= λ path. ok (file path))
    else err (unknown_type spec.type)

-- What `httpOutput.WriteBatch` hands to the client: the headers are the calls of `Header.Set`, in
-- order.
pub record Request : Type 0 where
  pub url : String
  pub headers : List (String × String)
  pub body : Bytes

-- `marshal` is `json.Marshal` of the entries; `send` is the client's `Do`, with the status code of
-- the response. The flag says that no error is returned.
unfoldable pub http_write_batch :
    (List Entry → Option Bytes) → (Request → Option ℕ) → HttpConfig → List Record → Bool
unfolding entry_of
http_write_batch marshal send cfg records = elim (marshal (map entry_of records)) [
  | none ↦ false
  | some body ↦
      elim (send (record {
        url = cfg.url;
        headers = ("Content-Type", "application/json") ∷ cfg.headers;
        body = body;
      })) [ none ↦ false | some status ↦ if leb 400 status then false else true ]
]

-- `content` is that of the file.
pub record FileOutput : Type 0 where
  pub path : String
  pub opened : Bool
  pub content : Bytes

unfoldable pub take : ℕ → Bytes → Bytes
take zero bs = []
take (suc n) [] = []
take (suc n) (b ∷ bs) = b ∷ take n bs

-- The loop of `fileOutput.WriteBatch`. `encode` is the encoder's text of an entry, which is a map of
-- strings and always has one; `write` says how the `i`-th write to the file ends: whole, or with an
-- error after so many bytes.
unfoldable pub encode_all :
    (Entry → Bytes) → (ℕ → Option ℕ) → ℕ → Bytes → List Record → Bytes × Bool
unfolding entry_of take
encode_all encode write i content [] = (content, true)
encode_all encode write i content (r ∷ rs) = elim (write i) [
  | none ↦ encode_all encode write (suc i) (content ++ encode (entry_of r)) rs
  | some n ↦ (content ++ take n (encode (entry_of r)), false)
]

unfoldable pub file_write_batch :
    Bool → (Entry → Bytes) → (ℕ → Option ℕ) → FileOutput → List Record → FileOutput × Bool
unfolding encode_all
file_write_batch can_open encode write o records =
    if not o.opened && not can_open
    then (o, false)
    else let (content, done) = encode_all encode write 0 o.content records in
      (record o { opened = true; content = content }, done)
