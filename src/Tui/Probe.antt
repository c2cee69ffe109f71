-- ===== src/Tui/Probe.antt =====
-- internal/tui/target_health.go: the probe of the local target. `parse_url` is `url.Parse`: scheme, host,
-- path, and the rest of it that `String` prints back with a path by `show_url`. `status_of` is the
-- request with HEAD: the status of its response, or `none` where it fails.
use gatelet.Prelude.{
  ℕ, not, ◌&&◌, Option, none, some, ◌++◌, leb, if◌then◌else◌, ◌==◌, nat_eq, Bytes, codes, bytes_eq,
  is_empty, trim_space, has_substring,
}
use gatelet.Tui.Model.{TargetHealth, health_ok, health_down, health_degraded}

pub record ParsedUrl : Type 0 where
  pub scheme : Bytes
  pub host : Bytes
  pub path : Bytes
  pub rest : Bytes

abbrev pub with_scheme : Bytes → Bytes
with_scheme target =
    if has_substring (codes "://") target then target else codes "http://" ++ target

module _ (parse_url : Bytes → Option ParsedUrl) (show_url : ParsedUrl → Bytes) where
  abbrev probe_url : ParsedUrl → Option Bytes
  probe_url u =
      if is_empty u.host
      then none
      else if not (u.scheme == codes "http") && not (u.scheme == codes "https")
      then none
      else some (show_url (if is_empty u.path then record u { path = codes "/" } else u))

  unfoldable pub normalize_target_probe_url : Bytes → Option Bytes
  unfolding trim_space has_substring
  normalize_target_probe_url given =
      if is_empty (trim_space given)
      then none
      else elim (parse_url (with_scheme (trim_space given))) [ none ↦ none | some u ↦ probe_url u ]

  unfoldable pub check_target_health : (Bytes → Option ℕ) → Bytes → TargetHealth
  unfolding normalize_target_probe_url
  check_target_health status_of target = elim (normalize_target_probe_url target) [
    | none ↦ health_down
    | some url ↦ elim (status_of url) [
      | none ↦ health_down
      | some status ↦ if leb 500 status then health_degraded else health_ok
    ]
  ]
