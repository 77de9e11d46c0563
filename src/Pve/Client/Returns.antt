-- ===== src/Pve/Client/Returns.antt =====
-- Rules for what a computation returns, whatever the client and the replies are.
use pve_exporter.Pve.Client.{Client, Fetch, pure, ◌>>=◌}

pub record Returns {A : Type 0} (P : A → Type 0) (m : Fetch A) : Type 0 where
  pub at : (c : Client) → P (m c).0

pub Returns-pure : {A : Type 0} {P : A → Type 0} (a : A) → P a → Returns P (pure a)
unfolding pure
Returns-pure a h = record { at = λ c. h }

module _ {A B : Type 0} {P : B → Type 0} where
  pub Returns-bind :
      (m : Fetch A) (f : A → Fetch B) → ((a : A) → Returns P (f a)) → Returns P (m >>= f)
  unfolding ◌>>=◌
  Returns-bind m f h = record { at = λ c. (h (m c).0).at (m c).1 }

  -- The rest of the block may use what the first part returns.
  pub Returns-then :
      (Q : A → Type 0) (m : Fetch A) (f : A → Fetch B)
      → Returns Q m
      → ((a : A) → Q a → Returns P (f a))
      → Returns P (m >>= f)
  unfolding ◌>>=◌
  Returns-then Q m f hm h = record { at = λ c. (h (m c).0 (hm.at c)).at (m c).1 }

pub Returns-weaken :
    {A : Type 0} {P Q : A → Type 0} (m : Fetch A)
    → ((a : A) → Q a → P a)
    → Returns Q m
    → Returns P m
Returns-weaken m f h = record { at = λ c. f (m c).0 (h.at c) }
