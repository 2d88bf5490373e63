-- ===== src/Hub/Limits.antt =====
-- internal/hub/limiter.go: connections counted by address and in all.
use dockward.Prelude.{
  ℕ, suc, ◌+◌, ◌-◌, Bool, true, false, [], if◌then◌else◌, length, leb, ltb, or_zero, nat_eq, ◌==◌,
}
use dockward.Prelude.Int.{ℤ, pos}
use dockward.Prelude.Text.{Text, text_eq}
use dockward.Prelude.Map.{Map, lookup, insert, delete}

abbrev pub default_max_per_ip : ℕ
default_max_per_ip = 10

abbrev pub default_max_total : ℕ
default_max_total = 1000

-- The counts are never negative; `Invariant` shows that `total` is not decremented at 0.
pub record Limiter : Type 0 where
  pub per_ip : Map Text ℕ
  pub total : ℕ
  pub max_per_ip : ℕ
  pub max_total : ℕ

-- A limit that is not positive stands for the default.
abbrev limit_or : ℕ → ℤ → ℕ
limit_or default (pos (suc n)) = suc n
limit_or default _ = default

unfoldable pub new_limiter : ℤ → ℤ → Limiter
new_limiter max_per_ip max_total = record {
  per_ip = [];
  total = 0;
  max_per_ip = limit_or default_max_per_ip max_per_ip;
  max_total = limit_or default_max_total max_total;
}

abbrev pub connections_of : Text → Limiter → ℕ
connections_of ip l = or_zero 0 (lookup ip l.per_ip)

unfoldable pub can_connect : Text → Limiter → Bool
can_connect ip l =
    if leb l.max_total l.total
    then false
    else if leb l.max_per_ip (connections_of ip l)
    then false
    else true

unfoldable pub add_connection : Text → Limiter → Bool × Limiter
add_connection ip l =
    if leb l.max_total l.total
    then (false, l)
    else if leb l.max_per_ip (connections_of ip l)
    then (false, l)
    else (
      true,
      record l { per_ip = insert ip (connections_of ip l + 1) l.per_ip; total = l.total + 1 },
    )

unfoldable pub remove_connection : Text → Limiter → Limiter
remove_connection ip l =
    let count = connections_of ip l in
    if ltb 0 count
    then record l {
      per_ip = if count == 1 then delete ip l.per_ip else insert ip (count - 1) l.per_ip;
      total = l.total - 1;
    }
    else l

unfoldable pub stats : Limiter → ℕ × ℕ
stats l = (l.total, length l.per_ip)
