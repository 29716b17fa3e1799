-- ===== src/Compliance/Robots.antt =====
-- `RobotsChecker` of compliance/robots_checker.py. The URL parser, the parser of robots.txt and the
-- network are parameters; `read n` is what the fetch after `n` others gives, and `none` an exception.
-- The log is left out.
pub mod Answers
use ligp_v.Prelude.{
  ℕ, suc, Bool, true, false, not, Option, none, some, List, [], ◌∷◌, arith, if◌then◌else◌, String,
  concat, nonempty, string_eq, length, or_default,
}
use ligp_v.Dict.{Dict, get, put}

-- `P` is the type of the parsers and `D` that of delays.
pub record Web (P D : Type 0) : Type 0 where
  pub scheme : String → String
  pub netloc : String → String
  pub has_scheme : String → Bool
  pub parse : String → P
  pub read : ℕ → String → Option P
  pub can_fetch : P → String → String → Bool
  pub crawl_delay : P → String → Option D

-- `fetched` are the domains that were asked for, the last one first.
pub record Checker (P D : Type 0) : Type 0 where
  pub cache : Dict String P
  pub default_crawl_delay : D
  pub fetched : List String

module _ {P D : Type 0} (w : Web P D) where
  -- `_domain`
  unfoldable pub domain_of : String → String
  domain_of url =
      concat (if nonempty (w.scheme url) then w.scheme url else "https")
        (concat "://" (w.netloc url))

  -- `self._domain(domain) if "://" not in domain else domain`
  unfoldable pub named : String → String
  named domain = if w.has_scheme domain then domain else domain_of domain

  unfoldable pub refresh : String → Option String → Checker P D → Checker P D
  refresh domain (some robots_text) r = record r {
    cache = put (named domain) (w.parse robots_text) r.cache;
  }
  refresh domain none r =
      let asked : Checker P D = record r { fetched = named domain ∷ r.fetched } in
      elim (w.read (length r.fetched) (named domain)) [
        | none ↦ asked
        | some rp ↦ record asked { cache = put (named domain) rp r.cache }
      ]

  -- The answer from the cache, where no parser allows everything.
  unfoldable pub answer : String → String → Option P → Bool
  answer url user_agent none = true
  answer url user_agent (some rp) = w.can_fetch rp user_agent url

  unfoldable pub is_allowed : String → String → Checker P D → Checker P D × Bool
  is_allowed url user_agent r = elim (get (domain_of url) r.cache) [
    | some rp ↦ (r, w.can_fetch rp user_agent url)
    | none ↦
        let after = refresh (domain_of url) none r in
        (after, answer url user_agent (get (domain_of url) after.cache))
  ]

  unfoldable pub get_crawl_delay : String → Checker P D → D
  get_crawl_delay domain r = elim (get (named domain) r.cache) [
    | none ↦ r.default_crawl_delay
    | some rp ↦ or_default (w.crawl_delay rp "iigp-bot") r.default_crawl_delay
  ]
