-- ===== src/Stripe/Client.antt =====
-- ledgerproof/stripe_io/client.py: a request with its retries. What Stripe answers to each attempt and
-- the jitter that is drawn are parameters; times are microseconds.
pub mod Retries
use ledger_proof.Base.{
  ℕ, zero, suc, ◌+◌, ◌*◌, ◌^◌, min, String, Bool, true, false, ◌||◌, ◌&&◌, not, Option, none, some,
  List, [], ◌∷◌, map, leb, ltb, if◌then◌else◌, Result, ok, err,
}
use ledger_proof.Base.Json.{Value, obj, str, Fields, end, get, truthy}
use ledger_proof.Base.Text.{codes, strip}
use ledger_proof.Stripe.Signature.{text_eq}

-- An answer; `json` is the body as `response.json()` reads it, `none` where that raises ValueError.
pub record Response : Type 0 where
  pub status_code : ℕ
  pub idempotent_replayed : Option String
  pub stripe_should_retry : Option String
  pub request_id : Option String
  pub json : Option Value

-- What `httpx` gives: a TransportError, an exception of another class (a body that cannot be decoded,
-- say), or a response.
pub data Reply : Type 0 where
  transport_error : Reply
  other_error : Reply
  response : Response → Reply

-- StripeError, an exception of `httpx` that is not caught, and the AssertionError after the loop.
pub data Failed : Type 0 where
  network_error : ℕ → Failed
  malformed_success : ℕ → Option String → Failed
  stripe_error : Option Value → ℕ → Option Value → Option String → Failed
  uncaught : Failed
  unreachable : Failed

pub record HttpRequest : Type 0 where
  pub method : String
  pub path : String
  pub headers : List (String × String)
  pub content : List (String × String)

abbrev lower_code : ℕ → ℕ
lower_code c = if leb 65 c && leb c 90 then c + 32 else c

-- `header.strip().lower() == word`
unfoldable pub says : String → String → Bool
says word header = text_eq (map lower_code (strip (codes header))) (codes word)

abbrev says_true : Option String → Bool
says_true none = false
says_true (some h) = says "true" h

abbrev is_success : Response → Bool
is_success r = leb 200 r.status_code && leb r.status_code 299

abbrev by_status : Response → Bool
by_status r = leb 500 r.status_code

unfoldable pub retryable : Response → Bool
retryable r = elim r.stripe_should_retry [
  | none ↦ by_status r
  | some h ↦ if says "true" h then true else if says "false" h then false else by_status r
]

abbrev error_fields : Option Value → Fields
error_fields (some (obj payload)) = elim (get payload "error") [ some (obj e) ↦ e | _ ↦ end ]
error_fields _ = end

-- The message, where it is truthy; else the status stands for it.
unfoldable pub error_from_response : Response → Failed
error_from_response r =
    let e = error_fields r.json in
    stripe_error
      (elim (get e "message") [ none ↦ none | some m ↦ if truthy m then some m else none ])
      r.status_code (get e "code") r.request_id

-- `min(0.5 * 2 ** retry_index, 8.0) * rng.random()`, with the draw in thousandths.
unfoldable pub backoff_delay : ℕ → ℕ → ℕ
backoff_delay retry_index draw = min (500 * 2 ^ retry_index) 8000 * draw

-- How a call ended, what it sent, how many replays it counted, and the delays that it slept.
pub record Call : Type 0 where
  pub outcome : Result Failed Value
  pub sent : List HttpRequest
  pub replayed : ℕ
  pub slept : List ℕ

abbrev one_if : Bool → ℕ
one_if b = if b then 1 else 0

module _ (reply : ℕ → Reply) (draw : ℕ → ℕ) (max_attempts : ℕ) (request : HttpRequest) where
  abbrev ends : ℕ → Result Failed Value → Call
  ends seen o = record { outcome = o; sent = request ∷ []; replayed = seen; slept = [] }

  abbrev again : ℕ → ℕ → Call → Call
  again seen attempt rest = record {
    outcome = rest.outcome;
    sent = request ∷ rest.sent;
    replayed = seen + rest.replayed;
    slept = backoff_delay attempt (draw attempt) ∷ rest.slept;
  }

  -- A response with status 2xx.
  abbrev succeeded : Response → Result Failed Value
  succeeded r = elim r.json [
    | some v ↦ ok v
    | none ↦ err (malformed_success r.status_code r.request_id)
  ]

  -- What follows the reply to an attempt; `rest` is the rest of the loop.
  unfoldable pub after_reply : Reply → Bool → ℕ → Call → Call
  after_reply transport_error last attempt rest =
      if last then ends 0 (err (network_error max_attempts)) else again 0 attempt rest
  after_reply other_error last attempt rest = ends 0 (err uncaught)
  after_reply (response r) last attempt rest =
      let seen = one_if (says_true r.idempotent_replayed) in
      if is_success r
      then ends seen (succeeded r)
      else if not (retryable r) || last
      then ends seen (err (error_from_response r))
      else again seen attempt rest

  -- `for attempt in range(max_attempts)`, with the attempts that are left.
  unfoldable pub request_loop : ℕ → ℕ → Call
  request_loop zero attempt = record {
    outcome = err unreachable;
    sent = [];
    replayed = 0;
    slept = [];
  }
  request_loop (suc left) attempt =
      after_reply (reply attempt) (leb left 0) attempt (request_loop left (attempt + 1))

-- `_request`
unfoldable pub send : (ℕ → Reply) → (ℕ → ℕ) → ℕ → HttpRequest → Call
send reply draw max_retries request =
    request_loop reply draw (max_retries + 1) request (max_retries + 1) 0
