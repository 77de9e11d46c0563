-- ===== src/Pve/Client.antt =====
-- internal/pve/client.go: one API call, what it returns and what it counts.
-- `http` stands for resty and the server, a reply for what resty gives after its retries; the
-- codec stands for `encoding/json` on the rows of Pve/Api.antt. `out` is never nil in the callers.
pub mod Returns
pub mod Counting
pub mod Independent
pub mod Settings
use pve_exporter.Base.{
  ℕ, ◌+◌, ◌%◌, ◌^◌, String, ◌<>◌, Bool, true, false, not, ◌&&◌, ◌||◌, List, leb, eqb, ◌==◌,
  if◌then◌else◌,
}
use pve_exporter.Base.Text.{decimal}
use pve_exporter.Pve.Api.{
  ClusterResource, ClusterStatusEntry, VersionInfo, QdeviceConfig, NotBackedUpGuest,
  SubscriptionInfo, GuestRef, GuestConfig, ReplicationJob, ReplicationStatus, HaStatusEntry,
}

-- `requestErrors` is an atomic.Int64: its two's complement pattern.
pub record Client : Type 0 where
  pub name : String
  pub request_errors : ℕ

pub data Reply : Type 0 where
  transport_error : String → Reply
  response : ℕ → String → Reply

pub data Decoded (A : Type 0) : Type 0 where
  decoded : A → Decoded A
  malformed : String → Decoded A

-- Every error names the path.
pub data FetchError : Type 0 where
  transport : String → String → FetchError
  status : String → ℕ → FetchError
  bad_envelope : String → String → FetchError
  bad_data : String → String → FetchError

pub data Result (A : Type 0) : Type 0 where
  ok : A → Result A
  err : FetchError → Result A

-- err.Error()
unfoldable pub message : FetchError → String
message (transport path e) = "GET " <> (path <> (": " <> e))
message (status path code) = "GET " <> (path <> (": unexpected status " <> decimal code))
message (bad_envelope path e) = "GET " <> (path <> (": decode envelope: " <> e))
message (bad_data path e) = "GET " <> (path <> (": decode data: " <> e))

-- The condition given to resty's AddRetryCondition.
unfoldable pub retry_condition : Reply → Bool
retry_condition (transport_error e) = true
retry_condition (response code body) = eqb code 429 || leb 500 code

unfoldable pub is_expected_absence : ℕ → Bool
is_expected_absence code = eqb code 403 || eqb code 404

-- requestErrors.Add(1)
unfoldable pub count_error : Client → Client
count_error c = record c { request_errors = (c.request_errors + 1) % 2 ^ 64 }

-- json.Unmarshal(env.Data, out), where no data leaves `out` at its zero value
unmarshal : {A : Type 0} → (String → Decoded A) → A → String → String → Result A
unmarshal decode zero_value path raw =
    if raw == ""
    then ok zero_value
    else elim (decode raw) [ decoded a ↦ ok a | malformed e ↦ err (bad_data path e) ]

-- The body of a response with status 200; the envelope's `data` is empty where it is missing.
open_envelope :
    {A : Type 0} → (String → Decoded String) → (String → Decoded A) → A → String → String → Result A
unfolding unmarshal
open_envelope envelope decode zero_value path body = elim (envelope body) [
  | malformed e ↦ err (bad_envelope path e)
  | decoded raw ↦ unmarshal decode zero_value path raw
]

-- `get` on the reply: the result and the client after.
unfoldable pub handle_reply :
    {A : Type 0}
    → (String → Decoded String)
    → (String → Decoded A)
    → A
    → String
    → Bool
    → Reply
    → Client
    → Result A × Client
unfolding open_envelope is_expected_absence count_error
handle_reply envelope decode zero_value path optional (transport_error e) c =
    (err (transport path e), count_error c)
handle_reply envelope decode zero_value path optional (response code body) c =
    if eqb code 200
    then (open_envelope envelope decode zero_value path body, c)
    else (err (status path code), if optional && is_expected_absence code then c else count_error c)

-- The rows that `encoding/json` makes of each endpoint's data, and their zero values.
pub record Codec : Type 0 where
  pub envelope : String → Decoded String
  pub resources : String → Decoded (List ClusterResource)
  pub statuses : String → Decoded (List ClusterStatusEntry)
  pub version : String → Decoded VersionInfo
  pub qdevice : String → Decoded QdeviceConfig
  pub not_backed_up : String → Decoded (List NotBackedUpGuest)
  pub ha_status : String → Decoded (List HaStatusEntry)
  pub replication_jobs : String → Decoded (List ReplicationJob)
  pub replication_status : String → Decoded ReplicationStatus
  pub subscription : String → Decoded SubscriptionInfo
  pub guests : String → Decoded (List GuestRef)
  pub guest_config : String → Decoded GuestConfig

pub record Remote : Type 0 where
  pub http : String → Reply
  pub codec : Codec

-- A computation that calls the API of one target.
abbrev pub Fetch : Type 0 → Type 0
Fetch A = Client → A × Client

module _ {A : Type 0} where
  unfoldable pub pure : A → Fetch A
  pure a c = (a, c)

  -- `get`
  unfoldable pub fetch : Remote → (String → Decoded A) → A → Bool → String → Fetch (Result A)
  unfolding handle_reply
  fetch remote decode zero_value optional path =
      handle_reply remote.codec.envelope decode zero_value path optional (remote.http path)

  -- `Get`
  unfoldable pub get : Remote → (String → Decoded A) → A → String → Fetch (Result A)
  unfolding fetch
  get remote decode zero_value = fetch remote decode zero_value false

  -- `GetOptional`
  unfoldable pub get_optional : Remote → (String → Decoded A) → A → String → Fetch (Result A)
  unfolding fetch
  get_optional remote decode zero_value = fetch remote decode zero_value true

module _ {A B : Type 0} where
  infixl 5 ◌>>=◌
  unfoldable pub ◌>>=◌ : Fetch A → (A → Fetch B) → Fetch B
  ◌>>=◌ m f c = let (a, c') = m c in f a c'
