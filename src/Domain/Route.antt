-- ===== src/Domain/Route.antt =====
-- internal/domain/route.go: the ordered provider channel candidates of one message.
pub mod Laws
pub mod Selection
use mux_mail.Prelude.{
  ℕ, suc, String, ◌-◌, Bool, true, false, ◌||◌, Option, none, some, List, [], ◌∷◌, length, ◌==◌,
  nat_eq, string_eq, runes_eq, if◌then◌else◌,
}
use mux_mail.Prelude.Assoc.{lookup}
use mux_mail.Prelude.Int.{ℤ, pos, negsuc, pos_part}
use mux_mail.Domain.Types.{Runes, Scene, RoutePolicy}
use mux_mail.Domain.Email.{addr_spec_email_domain, codes}

pub record RouteSelection : Type 0 where
  pub recipient_domain : Runes
  pub channels : List String

-- RouteSelectionError, by its message; its code is always ErrorCodeRouteNotFound.
pub data RouteSelectionError : Type 0 where
  recipient_domain_is_invalid route_not_found : RouteSelectionError

pub data Selected : Type 0 where
  selection : RouteSelection → Selected
  refused : RouteSelectionError → Selected

-- `_, exists := seen[channel]`
unfoldable pub has_seen : String → List String → Bool
has_seen channel [] = false
has_seen channel (c ∷ cs) = c == channel || has_seen channel cs

-- The loop over the channels. `room` is maxAttemptsPerMessage - len(result), which is not 0 when the
-- loop's body starts; the loop breaks when it gets to 0.
unfoldable pub unique_loop : ℕ → List String → List String → List String
unfolding has_seen
unique_loop room seen [] = []
unique_loop room seen (channel ∷ rest) =
    let skip = unique_loop room seen rest in
    let more = unique_loop (room - 1) (channel ∷ seen) rest in
    if channel == "" || has_seen channel seen
    then skip
    else channel ∷ (if room - 1 == 0 then [] else more)

unfoldable pub unique_and_truncate_channels : List String → ℤ → List String
unfolding unique_loop
unique_and_truncate_channels channels (negsuc n) = []
unique_and_truncate_channels channels (pos n) = if n == 0 then [] else unique_loop n [] channels

-- RoutePolicyWildcard
abbrev pub route_policy_wildcard : Runes
route_policy_wildcard = codes "*"

-- `channels, ok := policy[domain]; if !ok { channels, ok = policy["*"] }`
unfoldable pub policy_channels : RoutePolicy → Runes → Option (List String)
unfolding lookup runes_eq
policy_channels policy domain = elim (lookup domain policy) [
  | none ↦ lookup route_policy_wildcard policy
  | some channels ↦ some channels
]

unfoldable pub select_from : Runes → List String → Selected
select_from domain [] = refused route_not_found
select_from domain (c ∷ cs) = selection (record { recipient_domain = domain; channels = c ∷ cs })

unfoldable pub select_route : (Runes → Option Runes) → Scene → Runes → ℤ → Selected
unfolding select_from
select_route parse_address scene normalized_to_email max_attempts_per_message =
    elim (addr_spec_email_domain parse_address normalized_to_email) [
      | none ↦ refused recipient_domain_is_invalid
      | some domain ↦ elim (policy_channels scene.route_policy domain) [
        | none ↦ refused route_not_found
        | some channels ↦
            select_from domain (unique_and_truncate_channels channels max_attempts_per_message)
      ]
    ]
