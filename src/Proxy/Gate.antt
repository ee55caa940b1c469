-- ===== src/Proxy/Gate.antt =====
-- proxy/blossom/src/index.ts: what is decided from the headers of an upload, before its body is read: HEAD /upload,
-- and the gate of PUT /upload with its count of the bytes that are being received.
pub mod Inflight
use nostr_storage_orchestrat.Common.{
  ℕ, zero, suc, ◌+◌, ◌-◌, ◌*◌, ◌^◌, Bool, true, false, not, ◌&&◌, ◌||◌, Option, none, some, List,
  [], ◌∷◌, String, ltb, leb, nat_eq, ◌==◌, string_eq, if◌then◌else◌,
}
use nostr_storage_orchestrat.Common.Int.{ℤ, pos, negsuc}
use nostr_storage_orchestrat.Lifecycle.{AccessState}
use nostr_storage_orchestrat.Db.{User}
use nostr_storage_orchestrat.Db.Blobs.{exceeds}
use nostr_storage_orchestrat.Proxy.World.{World, Network}
use nostr_storage_orchestrat.Proxy.Handler.{
  Reply, reply, refused, forbidden, Outcome, next, done, Handler, ◌>>=◌, ◌>>◌, pure, respond,
  respond_if, or_throw, run_handler,
}
use nostr_storage_orchestrat.Proxy.Account.{
  Service, authorize, load_for_upload, access_error, over_quota, status_error_code,
}
use nostr_storage_orchestrat.Proxy.Remove.{or_respond}

-- `Number(text)`: an integer, a finite number between the one given and the next, or none of these
pub data Length : Type 0 where
  whole : ℤ → Length
  fraction : ℤ → Length
  not_finite : Length

-- What is received at this moment: the length that the header announces, and whether it was released.
pub record Receiving : Type 0 where
  pub request : ℕ
  pub size : ℕ
  pub released : Bool

-- `inflightUploadBytes`, with the requests that its closures belong to
pub record Traffic : Type 0 where
  pub inflight : ℕ
  pub requests : List Receiving

abbrev pub max_upload_bytes : ℕ
max_upload_bytes = 500 * 1024 * 1024

-- `if (inflightUploadBytes + length > MAX_INFLIGHT_UPLOAD_BYTES) …`, and the closure for its release
unfoldable pub reserve : ℕ → ℕ → ℕ → Traffic → Option Traffic
reserve max_inflight request size t =
    if ltb max_inflight (t.inflight + size)
    then none
    else some record {
      inflight = t.inflight + size;
      requests = record { request = request; size = size; released = false } ∷ t.requests;
    }

-- `release` of a request, on "close" and on "finish"
abbrev pub release_in : ℕ → Receiving → Receiving
release_in request r = if r.request == request then record r { released = true } else r

abbrev pub held : ℕ → List Receiving → ℕ
held request [] = 0
held request (r ∷ rs) =
    let rest = held request rs in
    if r.request == request then (if r.released then 0 else r.size) else rest

abbrev pub release_each : ℕ → List Receiving → List Receiving
release_each request [] = []
release_each request (r ∷ rs) =
    let rest = release_each request rs in
    if r.request == request then record r { released = true } ∷ rs else r ∷ rest

unfoldable pub release : ℕ → Traffic → Traffic
release request t = record {
  inflight = t.inflight - held request t.requests;
  requests = release_each request t.requests;
}

-- An empty header is falsy.
abbrev pub present : Option String → Option String
present none = none
present (some text) = if text == "" then none else some text

-- `size < 0` and `size > MAX_UPLOAD_BYTES`
abbrev is_negative : ℤ → Bool
is_negative (pos n) = false
is_negative (negsuc n) = true

abbrev above_max : ℤ → Bool
above_max (pos n) = ltb max_upload_bytes n
above_max (negsuc n) = false

abbrev reaches_max : ℤ → Bool
reaches_max (pos n) = leb max_upload_bytes n
reaches_max (negsuc n) = false

abbrev head_size : Length → Handler (Unit {0}) Length
head_size (whole n) = do
  respond_if (is_negative n) (refused 400 "Invalid X-Content-Length header")
  respond_if (above_max n) (refused 413 "File exceeds the 500 MB per-file upload limit.")
  pure (whole n)
head_size (fraction n) = do
  respond_if (is_negative n) (refused 400 "Invalid X-Content-Length header")
  respond_if (reaches_max n) (refused 413 "File exceeds the 500 MB per-file upload limit.")
  pure (fraction n)
head_size not_finite = respond (refused 400 "Invalid X-Content-Length header")

-- The quota of HEAD: `BigInt` throws on a fraction, where an allowance makes it run.
abbrev head_quota : User → Length → Handler (Unit {0}) (Unit {0})
head_quota user (whole n) = respond_if (exceeds user n) (refused 403 "quota_exceeded")
head_quota user _ = elim user.storage_bytes [
  | none ↦ pure tt
  | some allowance ↦ respond (refused 500 "")
]

pub record HeadRequest : Type 0 where
  pub authorization : Option String
  pub hash : Option String
  pub content_length : Option String

-- HEAD /upload, as status and `X-Reason`; `number` is the language's `Number`.
unfoldable pub head_upload :
    Service → Network → (String → Length) → ℕ → HeadRequest → World → Reply (Unit {0}) × World
head_upload s net number now req = run_handler (do
  npub ←
      authorize (refused 500 "") s now req.authorization "upload"
        (record { hash = req.hash; require_hash_scope = true })
  text ← or_respond (refused 411 "X-Content-Length header is required") (present req.content_length)
  size ← head_size (number text)
  (user, access) ← load_for_upload (refused 500 "") s net npub now
  respond_if (not access.can_upload) (refused 403 (status_error_code access.status))
  head_quota user size
  pure (reply 200 tt))

-- The length of a body that the gate accepts to hear of.
abbrev body_size : Length → Handler (Unit {0}) ℕ
body_size (whole (pos n)) = do
  respond_if (n == 0) (refused 400 "Request body must contain binary data")
  respond_if (ltb max_upload_bytes n) (refused 413 "File exceeds the 500 MB per-file upload limit.")
  pure n
body_size _ = respond (refused 400 "Request body must contain binary data")

-- The checks of `uploadGate` after the rate limit.
unfoldable pub gate_checks :
    Service → Network → (String → Length) → ℕ → Option String → Option String → Handler (Unit {0}) ℕ
gate_checks s net number now authorization content_length = do
  npub ←
      authorize (refused 500 "Upload failed") s now authorization "upload"
        (record { hash = none; require_hash_scope = true })
  text ← or_respond (refused 411 "Content-Length header is required") (present content_length)
  size ← body_size (number text)
  (user, access) ← load_for_upload (refused 500 "Upload failed") s net npub now
  respond_if (not access.can_upload) (forbidden (access_error user access))
  respond_if (exceeds user (pos size)) (forbidden (access_error user (over_quota access)))
  pure size

-- `uploadGate`: `none` goes on to the handler.
abbrev pub Gated : Type 0
Gated = Option (Reply (Unit {0})) × World × Traffic

enter : ℕ → ℕ → Traffic → Outcome (Unit {0}) ℕ × World → Gated
enter max_inflight request t (done r, w) = (some r, w, t)
enter max_inflight request t (next size, w) = elim (reserve max_inflight request size t) [
  | none ↦ (some (refused 503 "server_busy"), w, t)
  | some t' ↦ (none, w, t')
]

unfoldable pub upload_gate :
    Service
    → Network
    → (String → Length)
    → ℕ
    → ℕ
    → ℕ
    → Bool
    → Option String
    → Option String
    → World
    → Traffic
    → Gated
unfolding gate_checks enter
upload_gate s net number max_inflight request now in_limit authorization content_length w t =
    if in_limit
    then enter max_inflight request t (gate_checks s net number now authorization content_length w)
    else (some (refused 429 "rate_limited"), w, t)
