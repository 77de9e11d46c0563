-- ===== src/Pve/Client/Counting.antt =====
-- What one call counts toward `RequestErrors`, and what it returns.
use pve_exporter.Base.{
  ◌+◌, ◌%◌, ◌^◌, String, ◌≡◌, refl, Bool, true, false, not, ◌&&◌, ◌||◌, arith, eqb, if◌then◌else◌,
}
use pve_exporter.Pve.Client.{
  Client, Reply, transport_error, response, Decoded, Remote, handle_reply, fetch, get, get_optional,
}

-- A call fails in a way that counts: the transport failed, or the status is neither 200 nor, on an
-- optional endpoint, 403 or 404.
abbrev pub is_counted : Bool → Reply → Bool
is_counted optional (transport_error e) = true
is_counted optional (response code body) =
    not (eqb code 200) && not (optional && (eqb code 403 || eqb code 404))

abbrev pub is_absence : Reply → Bool
is_absence (transport_error e) = false
is_absence (response code body) = eqb code 403 || eqb code 404

-- One call counts at most one error, exactly for the failures of `is_counted`; it changes nothing
-- else of the client. A body that does not decode is not counted.
pub fetch_counts :
    {A : Type 0} (remote : Remote) (decode : String → Decoded A) (zero_value : A) (optional : Bool)
    (path : String) (c : Client)
    → (fetch remote decode zero_value optional path c).1 ≡ (
        if is_counted optional (remote.http path)
        then record c { request_errors = (c.request_errors + 1) % 2 ^ 64 }
        else c)
unfolding fetch
fetch_counts remote decode zero_value optional path c = go (remote.http path)
  where
    go :
        (r : Reply)
        → (handle_reply remote.codec.envelope decode zero_value path optional r c).1 ≡ (
            if is_counted optional r
            then record c { request_errors = (c.request_errors + 1) % 2 ^ 64 }
            else c)
    go (transport_error e) = refl
    go (response code body) = ground arith

-- The optional form of a call returns what the plain form returns, and also counts what that
-- counts, except for the statuses 403 and 404, which it does not count.
pub get_optional-get :
    {A : Type 0} (remote : Remote) (decode : String → Decoded A) (zero_value : A) (path : String)
    (c : Client)
    → ((get_optional remote decode zero_value path c).0 ≡ (get remote decode zero_value path c).0)
      × ((get_optional remote decode zero_value path c).1
          ≡ (if is_absence (remote.http path) then c else (get remote decode zero_value path c).1))
unfolding get get_optional
get_optional-get remote decode zero_value path c = go (remote.http path)
  where
    go :
        (r : Reply)
        → ((handle_reply remote.codec.envelope decode zero_value path true r c).0
            ≡ (handle_reply remote.codec.envelope decode zero_value path false r c).0)
          × ((handle_reply remote.codec.envelope decode zero_value path true r c).1 ≡ (
              if is_absence r
              then c
              else (handle_reply remote.codec.envelope decode zero_value path false r c).1))
    go (transport_error e) = (refl, refl)
    go (response code body) = ground arith
