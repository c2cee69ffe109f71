-- ===== src/Server/Stats/Totals.antt =====
-- The totals.
use gatelet.Prelude.{ℕ, ◌+◌, ◌%◌, ◌≡◌, refl, ◌∙◌, Bool, List, [], ◌∷◌, arith, length}
use gatelet.Server.Registry.{u64_mod, add64, Registry}
use gatelet.Server.Stats.{TunnelStats, all_tunnel_stats, StatusTotals, add_totals, status_totals}

abbrev pub sum : (TunnelStats → ℕ) → List TunnelStats → ℕ
sum f [] = 0
sum f (t ∷ ts) = f t + sum f ts

mod_step : (a b c : ℕ) → ((a + b) % u64_mod + c) % u64_mod ≡ (a + (b + c)) % u64_mod
mod_step a b c = omega arith

add_totals-sum :
    (acc : StatusTotals) (ts : List TunnelStats)
    → ((add_totals acc ts).requests % u64_mod ≡ (acc.requests + sum (λ t. t.requests) ts) % u64_mod)
      × ((add_totals acc ts).bytes_in % u64_mod
          ≡ (acc.bytes_in + sum (λ t. t.bytes_in) ts) % u64_mod)
      × ((add_totals acc ts).bytes_out % u64_mod
          ≡ (acc.bytes_out + sum (λ t. t.bytes_out) ts) % u64_mod)
unfolding add_totals
add_totals-sum acc [] = (omega arith, omega arith, omega arith)
add_totals-sum acc (t ∷ ts) =
    let (r, i, o) =
      add_totals-sum
        (record {
          requests = add64 acc.requests t.requests;
          bytes_in = add64 acc.bytes_in t.bytes_in;
          bytes_out = add64 acc.bytes_out t.bytes_out;
        })
        ts in
    (r ∙ mod_step _ _ _, i ∙ mod_step _ _ _, o ∙ mod_step _ _ _)

-- The status and the metrics count the listed tunnels, and each total is the sum over them, up to the
-- machine's word size.
pub status_totals-sum :
    (closed : ℕ → Bool) (r : Registry)
    → let ts = all_tunnel_stats closed r in
      let (n, totals) = status_totals closed r in
      (n ≡ length ts)
      × (totals.requests % u64_mod ≡ sum (λ t. t.requests) ts % u64_mod)
      × (totals.bytes_in % u64_mod ≡ sum (λ t. t.bytes_in) ts % u64_mod)
      × (totals.bytes_out % u64_mod ≡ sum (λ t. t.bytes_out) ts % u64_mod)
unfolding status_totals
status_totals-sum closed r =
    let (q, i, o) =
      add_totals-sum (record { requests = 0; bytes_in = 0; bytes_out = 0 })
        (all_tunnel_stats closed r) in
    (refl, q ∙ omega arith, i ∙ omega arith, o ∙ omega arith)
