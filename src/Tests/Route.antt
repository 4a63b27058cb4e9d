-- ===== src/Tests/Route.antt =====
-- A route: repeated and empty channels are dropped, and the limit cuts the rest.
use mux_mail.Prelude.{◌≡◌, refl, String, some, List, [], ◌∷◌, string_eq, arith, take, runes_eq}
use mux_mail.Prelude.Int.{pos}
use mux_mail.Domain.Email.{codes, addr_spec_email_domain}
use mux_mail.Domain.Route.{
  RouteSelection, selection, has_seen, unique_and_truncate_channels, policy_channels, select_route,
}
use mux_mail.Domain.Route.Laws.{first_occurrences, IsCandidates, unique_and_truncate_channels-take}
use mux_mail.Domain.Route.Selection.{select_route-IsCandidates, select_route_total}
use mux_mail.Tests.Data.{recipient, scene}

abbrev listed : List String
listed = "a" ∷ "" ∷ "a" ∷ "b" ∷ "c" ∷ []

unique_and_truncate_channels-take_example :
    unique_and_truncate_channels listed (pos 2) ≡ take 2 (first_occurrences [] listed)
unique_and_truncate_channels-take_example = unique_and_truncate_channels-take listed (pos 2)

recipient_domain : addr_spec_email_domain some recipient ≡ some (codes "example.com")
unfolding addr_spec_email_domain
recipient_domain = refl

listed_channels : policy_channels scene.route_policy (codes "example.com") ≡ some listed
unfolding policy_channels
listed_channels = refl

abbrev chosen : RouteSelection
chosen = record { recipient_domain = codes "example.com"; channels = "a" ∷ "b" ∷ [] }

route_chosen : select_route some scene recipient (pos 2) ≡ selection chosen
unfolding select_route addr_spec_email_domain policy_channels unique_and_truncate_channels
route_chosen = refl

select_route-IsCandidates_example :
    (addr_spec_email_domain some recipient ≡ some chosen.recipient_domain)
    × ((policy : List String) × (policy_channels scene.route_policy chosen.recipient_domain
          ≡ some policy)
        × IsCandidates policy (pos 2) chosen.channels)
select_route-IsCandidates_example =
    select_route-IsCandidates some scene recipient (pos 2) chosen route_chosen

select_route_total_example :
    (channels : List String) × (select_route some scene recipient (pos 2)
      ≡ selection (record { recipient_domain = codes "example.com"; channels = channels }))
select_route_total_example =
    select_route_total some scene recipient (pos 2) (codes "example.com") listed "b"
      recipient_domain listed_channels (unfold has_seen in refl) refl (omega arith)
