-- ===== src/Domain/Route/Selection.antt =====
-- SelectRoute as a whole: what a selection is, and when there is one.
use mux_mail.Prelude.{
  ◌<◌, String, ◌≡◌, refl, true, false, Option, some, List, [], ◌∷◌, arith, Option-cases, inl, inr,
  ap, sym, ◌∙◌, subst, ◌≢◌, ◌==◌, string_eq,
}
use mux_mail.Prelude.Int.{ℤ, pos_part}
use mux_mail.Domain.Types.{Runes, Scene}
use mux_mail.Domain.Email.{addr_spec_email_domain}
use mux_mail.Domain.Route.{
  RouteSelection, selection, has_seen, unique_and_truncate_channels, policy_channels, select_from,
  select_route,
}
use mux_mail.Domain.Route.Laws.{IsCandidates, candidates, candidates-ne}

select_from-selection :
    (domain : Runes) (channels : List String) (s : RouteSelection)
    → select_from domain channels ≡ selection s
    → (s.recipient_domain ≡ domain) × (s.channels ≡ channels) × (channels ≢ [])
unfolding select_from
select_from-selection domain [] s h = cc
select_from-selection domain (c ∷ cs) s h = (ground arith, ground arith, λ e. cc)

select_from-some :
    (domain : Runes) (channels : List String)
    → channels ≢ []
    → select_from domain channels
      ≡ selection (record { recipient_domain = domain; channels = channels })
unfolding select_from
select_from-some domain [] h = absurd (h refl)
select_from-some domain (c ∷ cs) h = refl

module _ (parse_address : Runes → Option Runes) (scene : Scene) (email : Runes) (max : ℤ) where
  selected :
      (s : RouteSelection) (policy : List String) (domain : Runes)
      → addr_spec_email_domain parse_address email ≡ some domain
      → policy_channels scene.route_policy domain ≡ some policy
      → select_from domain (unique_and_truncate_channels policy max) ≡ selection s
      → (addr_spec_email_domain parse_address email ≡ some s.recipient_domain)
        × ((policy : List String) × (policy_channels scene.route_policy s.recipient_domain
              ≡ some policy)
            × IsCandidates policy max s.channels)
  selected s policy domain e p h =
      let q = select_from-selection domain (unique_and_truncate_channels policy max) s h in
      (
        e ∙ ap some (sym q.0),
        (
          policy,
          ap (policy_channels scene.route_policy) q.0 ∙ p,
          subst (IsCandidates policy max) (sym q.1) (candidates policy max q.2),
        ),
      )

  -- A route that is selected is for the domain of the recipient, by channels that the policy lists for
  -- this domain, or for the wildcard if it does not list the domain; they are at least one and at most
  -- the limit, none is empty and none comes twice.
  pub select_route-IsCandidates :
      (s : RouteSelection)
      → select_route parse_address scene email max ≡ selection s
      → (addr_spec_email_domain parse_address email ≡ some s.recipient_domain)
        × ((policy : List String) × (policy_channels scene.route_policy s.recipient_domain
              ≡ some policy)
            × IsCandidates policy max s.channels)
  unfolding select_route
  select_route-IsCandidates s h = elim (Option-cases (addr_spec_email_domain parse_address email)) [
    | inl e ↦ absurd (ground (arith, e))
    | inr (domain, e) ↦ elim (Option-cases (policy_channels scene.route_policy domain)) [
      | inl p ↦ absurd (ground (arith, e, p))
      | inr (policy, p) ↦
          selected s policy domain e p (rw (p, select_route) at (rw (e, select_route) at h))
    ]
  ]

  -- With a limit above 0, a recipient whose domain is valid gets a route for that domain as soon as
  -- the policy lists, for the domain or else for the wildcard, one channel that is not empty.
  pub select_route_total :
      (domain : Runes) (policy : List String) (channel : String)
      → addr_spec_email_domain parse_address email ≡ some domain
      → policy_channels scene.route_policy domain ≡ some policy
      → has_seen channel policy ≡ true
      → (channel == "") ≡ false
      → 0 < pos_part max
      → (channels : List String) × (select_route parse_address scene email max
          ≡ selection (record { recipient_domain = domain; channels = channels }))
  unfolding select_route
  select_route_total domain policy channel d p h e m = (
    unique_and_truncate_channels policy max,
    rw (d, select_route)
        (rw (p, select_route)
          (select_from-some domain (unique_and_truncate_channels policy max)
            (candidates-ne policy max channel h e m))),
  )
