-- ===== src/Pve/Client/Independent.antt =====
-- internal/pve/client.go: computations whose result and count do not depend on the client.
use pve_exporter.Base.{
  ℕ, zero, suc, ◌+◌, String, ◌≡◌, refl, sym, ap, ◌∙◌, Bool, true, false, if◌then◌else◌, arith,
}
use pve_exporter.Pve.Client.{
  Client, Reply, transport_error, response, Decoded, Remote, Fetch, count_error, handle_reply,
  get_optional, pure, ◌>>=◌,
}
use pve_exporter.Pve.Client.Counting.{is_counted}

-- `n` errors counted, one after the other
abbrev pub count_errors : ℕ → Client → Client
count_errors zero c = c
count_errors (suc n) c = count_errors n (count_error c)

pub count_errors_add :
    (m n : ℕ) (c : Client) → count_errors (m + n) c ≡ count_errors n (count_errors m c)
count_errors_add zero n c = let e : 0 + n ≡ n = omega arith in rw e refl
count_errors_add (suc m) n c =
    let e : suc m + n ≡ suc (m + n) = omega arith in rw e (count_errors_add m n (count_error c))

-- No reply counts on an optional endpoint.
abbrev pub IsQuiet : Remote → Type 0
IsQuiet remote = (path : String) → is_counted true (remote.http path) ≡ false

pub record Independent {A : Type 0} (remote : Remote) (m : Fetch A) : Type 0 where
  pub value : A
  pub errors : ℕ
  pub quiet : IsQuiet remote → errors ≡ 0
  pub at : (c : Client) → m c ≡ (value, count_errors errors c)

pub Independent-pure : {A : Type 0} {remote : Remote} (a : A) → Independent remote (pure a)
unfolding pure
Independent-pure a = record { value = a; errors = 0; quiet = λ q. refl; at = λ c. refl }

module _ {A B : Type 0} {remote : Remote} where
  pub Independent-bind :
      (m : Fetch A) (f : A → Fetch B)
      → Independent remote m
      → ((a : A) → Independent remote (f a))
      → Independent remote (m >>= f)
  unfolding ◌>>=◌
  Independent-bind m f hm hf =
      let k = hf hm.value in
      record {
        value = k.value;
        errors = hm.errors + k.errors;
        quiet = λ q. let e = hm.quiet q in let e' = k.quiet q in omega arith;
        at = λ c.
            ap (λ x. f x.0 x.1) (hm.at c)
            ∙ k.at (count_errors hm.errors c)
            ∙ ap (λ d. (k.value, d)) (sym (count_errors_add hm.errors k.errors c));
      }

abbrev pub nobody : Client
nobody = record { name = ""; request_errors = 0 }

module _ {A : Type 0} (remote : Remote) (decode : String → Decoded A) (zero_value : A) where
  -- What a reply gives, and how many errors it counts, for any client.
  pub handle_reply-errors :
      (path : String) (optional : Bool) (r : Reply) (c : Client)
      → handle_reply remote.codec.envelope decode zero_value path optional r c ≡ (
        (handle_reply remote.codec.envelope decode zero_value path optional r nobody).0,
        count_errors (if is_counted optional r then 1 else 0) c,
      )
  unfolding handle_reply count_error
  handle_reply-errors path optional (transport_error e) c = refl
  handle_reply-errors path optional (response code body) c = ground arith

  pub Independent-get_optional :
      (path : String) → Independent remote (get_optional remote decode zero_value path)
  unfolding get_optional
  Independent-get_optional path = record {
    value =
        (handle_reply remote.codec.envelope decode zero_value path true (remote.http path)
          nobody).0;
    errors = if is_counted true (remote.http path) then 1 else 0;
    quiet = λ q. rw (q path) refl;
    at = handle_reply-errors path true (remote.http path);
  }

pub Independent-if :
    {A : Type 0} {remote : Remote} (b : Bool) (m n : Fetch A)
    → Independent remote m
    → Independent remote n
    → Independent remote (if b then m else n)
Independent-if true m n h k = h
Independent-if false m n h k = k

pub ruleset independent_rules =
    (Independent-pure, Independent-bind, Independent-get_optional, Independent-if)
