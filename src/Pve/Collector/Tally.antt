-- ===== src/Pve/Collector/Tally.antt =====
-- internal/pve/collector.go: the errors that a poll counts.
use pve_exporter.Base.{
  eqb, ℕ, ◌+◌, String, ◌≡◌, refl, sym, ap, ◌∙◌, Bool, true, false, List, [], ◌∷◌, arith,
  if◌then◌else◌,
}
use pve_exporter.Models.Config.{CollectorToggles}
use pve_exporter.Base.Float.{Float64}
use pve_exporter.Pve.Metrics.{SampleSet, new_sample_set}
use pve_exporter.Pve.Resources.{collect_resources}
use pve_exporter.Pve.Api.{ClusterResource}
use pve_exporter.Pve.Client.{
  Client, Reply, transport_error, response, Decoded, Remote, FetchError, transport, status, Fetch,
  Result, ok, err, count_error, handle_reply, fetch, get, pure, ◌>>=◌,
}
use pve_exporter.Pve.Client.Counting.{is_counted, fetch_counts}
use pve_exporter.Pve.Client.Independent.{
  IsQuiet, count_errors, count_errors_add, Independent, Independent-pure, Independent-bind,
  Independent-if, independent_rules, nobody, handle_reply-errors,
}
use pve_exporter.Pve.Ha.{collect_ha_status}
use pve_exporter.Pve.Collector.{
  Clock, after_status, after_version, no_version, node_names, merge_nodes, collect_nodes,
  poll_optional, poll_up, poll_rows, collect_target, request_errors,
}
use pve_exporter.Pve.Collector.Nodes.{collect_node-Independent}

-- No reply counts: not on the endpoints that every poll needs, and not on an optional one.
pub record IsCalm (remote : Remote) : Type 0 where
  pub optional : IsQuiet remote
  pub resources : is_counted false (remote.http "/cluster/resources") ≡ false
  pub statuses : is_counted false (remote.http "/cluster/status") ≡ false
  pub version : is_counted false (remote.http "/version") ≡ false

-- A call whose result and count do not depend on the client.
record Steady {A : Type 0} (remote : Remote) (m : Fetch A) : Type 0 where
  value : A
  errors : ℕ
  calm : IsCalm remote → errors ≡ 0
  at : (c : Client) → m c ≡ (value, count_errors errors c)

-- A call that counts the same errors for any client, and none if no reply counts.
pub record Counts {A : Type 0} (remote : Remote) (m : Fetch A) (errors : ℕ) : Type 0 where
  pub calm : IsCalm remote → errors ≡ 0
  pub at : (c : Client) → (m c).1 ≡ count_errors errors c

Steady-Independent :
    {A : Type 0} {remote : Remote} {m : Fetch A} → Independent remote m → Steady remote m
Steady-Independent h = record {
  value = h.value;
  errors = h.errors;
  calm = λ q. h.quiet q.optional;
  at = h.at;
}

-- A call that reads the counter.
Counts-request_errors :
    {A : Type 0} {remote : Remote} (f : Float64 → A)
    → Counts remote (request_errors >>= λ errors. pure (f errors)) 0
unfolding ◌>>=◌ pure
Counts-request_errors f = record { calm = λ q. refl; at = λ c. refl }

Counts-bind :
    {A B : Type 0} {remote : Remote} (m : Fetch A) (f : A → Fetch B) (h : Steady remote m) {n : ℕ}
    → Counts remote (f h.value) n
    → Counts remote (m >>= f) (h.errors + n)
unfolding ◌>>=◌
Counts-bind m f h {n} k = record {
  calm = λ q. let a = h.calm q in let b = k.calm q in omega arith;
  at = λ c.
      ap (λ x. (f x.0 x.1).1) (h.at c)
      ∙ k.at (count_errors h.errors c)
      ∙ sym (count_errors_add h.errors n c);
}

-- One call on an endpoint that the poll needs.
Steady-get :
    {A : Type 0} (remote : Remote) (decode : String → Decoded A) (zero_value : A) (path : String)
    → (IsCalm remote → is_counted false (remote.http path) ≡ false)
    → Steady remote (get remote decode zero_value path)
unfolding get fetch
Steady-get remote decode zero_value path calm = record {
  value =
      (handle_reply remote.codec.envelope decode zero_value path false (remote.http path) nobody).0;
  errors = if is_counted false (remote.http path) then 1 else 0;
  calm = λ q. rw (calm q) refl;
  at = handle_reply-errors remote decode zero_value path false (remote.http path);
}

-- A reply that counts gives an error.
handle_reply-err :
    {A : Type 0} (remote : Remote) (decode : String → Decoded A) (zero_value : A) (path : String)
    (r : Reply) (c : Client)
    → is_counted false r ≡ true
    → (e : FetchError) × ((handle_reply remote.codec.envelope decode zero_value path false r c).0
        ≡ err e)
unfolding handle_reply
handle_reply-err remote decode zero_value path (transport_error e) c h = (transport path e, refl)
handle_reply-err remote decode zero_value path (response code body) c h =
    let other : eqb code 200 ≡ false = ground (arith, h) in (status path code, rw other refl)

module _ (remote : Remote) (toggles : CollectorToggles) (name : String) where
  merge_nodes-Independent :
      (nodes : List String) (s : SampleSet)
      → Independent remote (merge_nodes remote toggles name nodes s)
  unfolding merge_nodes
  merge_nodes-Independent [] s = Independent-pure s
  merge_nodes-Independent (node ∷ nodes) s =
      Independent-bind _ _ (collect_node-Independent remote toggles name node)
        (λ local. merge_nodes-Independent nodes _)

  collect_nodes-Independent :
      (order : List String → List String) (nodes : List String) (s : SampleSet)
      → Independent remote (collect_nodes remote toggles name order nodes s)
  unfolding collect_nodes
  collect_nodes-Independent order [] s = Independent-pure s
  collect_nodes-Independent order (node ∷ nodes) s =
      Independent-if _ _ _ (Independent-pure s) (merge_nodes-Independent _ s)

  poll_optional-Independent :
      (order : List String → List String) (nodes : List String) (id : String) (s : SampleSet)
      → Independent remote (poll_optional remote toggles name order nodes id s)
  unfolding poll_optional collect_ha_status
  poll_optional-Independent order nodes id s =
      search (independent_rules, collect_nodes-Independent) depth 12

  module _ (clock : Clock) (order : List String → List String) where
    poll_up-Counts :
        (rows : List ClusterResource)
        → (n : ℕ) × Counts remote (poll_up remote toggles name clock order rows) n
    unfolding poll_up
    poll_up-Counts rows =
        let status =
          Steady-get remote remote.codec.statuses [] "/cluster/status" (λ q. q.statuses) in
        let ver = Steady-get remote remote.codec.version no_version "/version" (λ q. q.version) in
        let p = after_status name (collect_resources (new_sample_set name) rows) status.value in
        let rest = Steady-Independent (
          poll_optional-Independent order (node_names rows) p.cluster_id
            (after_version p.set ver.value)) in
        (
          status.errors + (ver.errors + (rest.errors + 0)),
          Counts-bind _ _ status
              (Counts-bind _ _ ver (Counts-bind _ _ rest (Counts-request_errors _))),
        )

    poll_rows-Counts :
        (r : Result (List ClusterResource))
        → (n : ℕ) × Counts remote (poll_rows remote toggles name clock order r) n
    unfolding poll_rows
    poll_rows-Counts (err e) = (0, Counts-request_errors _)
    poll_rows-Counts (ok rows) = poll_up-Counts rows

    -- Whatever the client, a poll counts the same errors into it.
    pub collect_target-Counts :
        (n : ℕ) × Counts remote (collect_target remote toggles name clock order) n
    unfolding collect_target
    collect_target-Counts =
        let rows =
          Steady-get remote remote.codec.resources [] "/cluster/resources" (λ q. q.resources) in
        let (n, k) = poll_rows-Counts rows.value in (rows.errors + n, Counts-bind _ _ rows k)

    -- The poll ends at its first call.
    poll_stops :
        (c : Client)
        → is_counted false (remote.http "/cluster/resources") ≡ true
        → (collect_target remote toggles name clock order c).1 ≡ count_error c
    unfolding collect_target ◌>>=◌ pure get fetch count_error
    poll_stops c h =
        let first = fetch remote remote.codec.resources [] false "/cluster/resources" c in
        let (e, failed) =
          handle_reply-err remote remote.codec.resources [] "/cluster/resources"
            (remote.http "/cluster/resources") c h in
        ap
          (λ (r : Result (List ClusterResource)).
            (poll_rows remote toggles name clock order r first.1).1)
          failed
        ∙ fetch_counts remote remote.codec.resources [] false "/cluster/resources" c
        ∙ ap (λ (b : Bool). if b then count_error c else c) h

    -- A poll counts some errors into its client, each by adding one, and changes nothing else of
    -- it; how many does not depend on the client. It counts none if no reply counts, and exactly
    -- one if its first call fails in a way that counts.
    pub collect_target-Tally :
        ((n : ℕ) × Counts remote (collect_target remote toggles name clock order) n)
        × (is_counted false (remote.http "/cluster/resources") ≡ true
            → (c : Client) → (collect_target remote toggles name clock order c).1 ≡ count_error c)
    collect_target-Tally = (collect_target-Counts, λ h c. poll_stops c h)
