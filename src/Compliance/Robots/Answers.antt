-- ===== src/Compliance/Robots/Answers.antt =====
-- What the checker answers, and when it asks the network.
use mathlib.Core.Path.{subst}
use ligp_v.Prelude.{sym, ◌≡◌, true, none, some, ◌∷◌, arith, String, string_eq, length}
use ligp_v.Dict.{get, get-put_self}
use ligp_v.Compliance.Robots.{Web, Checker, domain_of, named, refresh, answer, is_allowed}

module _ {P D : Type 0} (w : Web P D) where
  from_cache :
      (url user_agent : String) (r : Checker P D) (rp : P)
      → get (domain_of w url) r.cache ≡ some rp
      → is_allowed w url user_agent r ≡ (r, w.can_fetch rp user_agent url)
  unfolding is_allowed
  from_cache url user_agent r rp cached = ground (arith, cached)

  stored :
      (url user_agent : String) (r : Checker P D) (rp : P)
      → w.has_scheme (domain_of w url) ≡ true
      → get (domain_of w url) r.cache ≡ none
      → w.read (length r.fetched) (domain_of w url) ≡ some rp
      → get (domain_of w url) (is_allowed w url user_agent r).0.cache ≡ some rp
  unfolding is_allowed refresh named
  stored url user_agent r rp scheme missing comes =
      ground (arith, scheme, missing, comes, get-put_self (domain_of w url) rp r.cache)

  -- A question about a domain that is not in the cache asks the network once: if that fails, all is
  -- allowed and the cache stays as it is, else the parser answers and every later question about the
  -- domain is answered from the cache.
  is_allowed_lem :
      (url user_agent : String) (r : Checker P D)
      → w.has_scheme (domain_of w url) ≡ true
      → get (domain_of w url) r.cache ≡ none
      → (w.read (length r.fetched) (domain_of w url) ≡ none
          → is_allowed w url user_agent r
            ≡ (record r { fetched = domain_of w url ∷ r.fetched }, true))
        × ((rp : P)
            → w.read (length r.fetched) (domain_of w url) ≡ some rp
            → ((is_allowed w url user_agent r).1 ≡ w.can_fetch rp user_agent url)
              × ((later agent : String)
                  → domain_of w later ≡ domain_of w url
                  → is_allowed w later agent (is_allowed w url user_agent r).0
                    ≡ ((is_allowed w url user_agent r).0, w.can_fetch rp agent later)))
  unfolding is_allowed refresh named answer
  is_allowed_lem url user_agent r scheme missing = (
    λ fails. ground (arith, scheme, missing, fails),
    λ rp comes. (
      ground (arith, scheme, missing, comes, get-put_self (domain_of w url) rp r.cache),
      λ later agent same. from_cache later agent (is_allowed w url user_agent r).0 rp (
          subst (λ d. get d (is_allowed w url user_agent r).0.cache ≡ some rp) (sym same)
            (stored url user_agent r rp scheme missing comes)),
    ),
  )
