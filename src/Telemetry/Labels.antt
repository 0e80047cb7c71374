-- ===== src/Telemetry/Labels.antt =====
-- obshttp.go's `RoutePattern`: the route label.
use go_handbook_for_software.Base.{
  ℕ, ◌<◌, ◌≤◌, ◌≡◌, ◌≢◌, ◌∙◌, true, false, List, str_dec, String, ◌⊎◌, if_pos, if_neg, arith,
}
use go_handbook_for_software.Telemetry.{View, slashes, has_digit, route_pattern}

-- The label is the pattern where the request has one, whatever its path. Without one it is the path
-- exactly where the path has at most two slashes and no digit, and "unmatched" for every other path.
pub route_pattern_lem :
    (bytes : String → List ℕ) (r : View)
    → (r.pattern ≢ "" → route_pattern bytes r ≡ r.pattern)
      × (r.pattern ≡ ""
          → slashes (bytes r.path) ≤ 2
          → has_digit (bytes r.path) ≡ false
          → route_pattern bytes r ≡ r.path)
      × (r.pattern ≡ ""
          → (2 < slashes (bytes r.path)) ⊎ (has_digit (bytes r.path) ≡ true)
          → route_pattern bytes r ≡ "unmatched")
unfolding route_pattern
route_pattern_lem bytes r = (
  λ n. if_neg (str_dec r.pattern "") n _ _,
  λ e l d. if_pos (str_dec r.pattern "") e _ _ ∙ ground (arith, l, d),
  λ e c. if_pos (str_dec r.pattern "") e _ _ ∙ ground (arith, c),
)
