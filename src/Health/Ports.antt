-- ===== src/Health/Ports.antt =====
-- The ports that are probed are those of the services.
use mathlib.Core.Option.{some-injective}
use locate.Prelude.{
  ap, ◌≢◌, ◌↔◌, false, ◌||◌, if◌then◌else◌, ◌==◌, All, String, ◌≡◌, refl, ◌∙◌, sym, Bool, true,
  ◌&&◌, Option, none, some, List, [], ◌∷◌, arith, eq_iff, ==_refl,
}
use locate.Prelude.Maps.{Map, insert, keys, contains}
use locate.Url.{Url, UrlPackage}
use locate.Health.{get_port, add_ports, get_ports_from, get_ports, check_ports}

module _ (open_ : String → Bool) where
  check_ports-contains :
      (ks : List String) (k : String)
      → check_ports open_ ks ≡ true
      → contains ks k ≡ true
      → open_ k ≡ true
  unfolding check_ports contains
  check_ports-contains [] k h c = cc
  check_ports-contains (j ∷ ks) k h c = ground (arith, h, c, eq_iff j k, check_ports-contains ks k)

  check_ports-all :
      (ks : List String)
      → ((k : String) → contains ks k ≡ true → open_ k ≡ true)
      → check_ports open_ ks ≡ true
  unfolding check_ports contains
  check_ports-all [] all = refl
  check_ports-all (j ∷ ks) all =
      let here = all j (rw (==_refl j) refl) in
      let rest = check_ports-all ks (λ k c. all k (ground (arith, c))) in ground (arith, here, rest)

  -- The order in which the ports are probed does not matter.
  check_ports-order :
      (ks ls : List String)
      → ((k : String) → contains ks k ≡ contains ls k)
      → check_ports open_ ks ≡ check_ports open_ ls
  check_ports-order ks ls same =
      let forth : check_ports open_ ks ≡ true → check_ports open_ ls ≡ true =
        λ h. check_ports-all ls (λ k c. check_ports-contains ks k h (same k ∙ c)) in
      let back : check_ports open_ ls ≡ true → check_ports open_ ks ≡ true =
        λ h. check_ports-all ks (λ k c. check_ports-contains ls k h (sym (same k) ∙ c)) in
      ground (arith, forth, back)

  check_ports-insert :
      (p : String) (ports : Map Bool)
      → check_ports open_ (keys (insert p true ports)) ≡ (open_ p && check_ports open_ (keys ports))
  unfolding check_ports keys insert
  check_ports-insert p [] = ground arith
  check_ports-insert p ((q, b) ∷ ports) = ground (arith, eq_iff q p, check_ports-insert p ports)

  module _ (U : UrlPackage) where
    abbrev url_open : Option Url → Bool
    url_open none = true
    url_open (some url) = open_ (get_port U url)

    unfoldable urls_open : List String → Bool
    urls_open [] = true
    urls_open (u ∷ us) = url_open (U.parse u) && urls_open us

    -- Every URL of every service that parses has an open port.
    unfoldable services_open : Map (List String) → Bool
    unfolding urls_open
    services_open [] = true
    services_open ((name, s) ∷ services) = urls_open s && services_open services

    check_ports-add_ports :
        (us : List String) (ports : Map Bool)
        → check_ports open_ (keys (add_ports U us ports))
          ≡ (urls_open us && check_ports open_ (keys ports))
    unfolding add_ports urls_open
    check_ports-add_ports [] ports = refl
    check_ports-add_ports (u ∷ us) ports = go (U.parse u) (check_ports-add_ports us)
      where
        go :
            (o : Option Url)
            → ((ps : Map Bool)
                → check_ports open_ (keys (add_ports U us ps))
                  ≡ (urls_open us && check_ports open_ (keys ps)))
            → check_ports open_ (
                keys (elim o as (λ _. Map Bool) [
                  | none ↦ add_ports U us ports
                  | some url ↦ add_ports U us (insert (get_port U url) true ports)
                ]))
              ≡ ((url_open o && urls_open us) && check_ports open_ (keys ports))
        go none ih = ih ports
        go (some url) ih = ground (
          arith,
          ih (insert (get_port U url) true ports),
          check_ports-insert (get_port U url) ports,
        )

    check_ports-get_ports_from :
        (services : Map (List String)) (ports : Map Bool)
        → check_ports open_ (keys (get_ports_from U services ports))
          ≡ (services_open services && check_ports open_ (keys ports))
    unfolding get_ports_from services_open
    check_ports-get_ports_from [] ports = refl
    check_ports-get_ports_from ((name, s) ∷ services) ports = ground (
      arith,
      check_ports-get_ports_from services (add_ports U s ports),
      check_ports-add_ports s ports,
    )

    -- The port of a URL: its own, or else 443 for a secure scheme and 80 for any other.
    pub data IsPortOf (url : Url) : String → Type 0 where
      given : U.port url ≢ "" → IsPortOf url (U.port url)
      https : U.port url ≡ "" → url.scheme ≡ "https" → IsPortOf url "443"
      wss : U.port url ≡ "" → url.scheme ≡ "wss" → IsPortOf url "443"
      plain : U.port url ≡ "" → url.scheme ≢ "https" → url.scheme ≢ "wss" → IsPortOf url "80"

    -- The template is no URL, or the port of its URL is open.
    abbrev pub IsOpen : String → Type 0
    IsOpen u = (url : Url) → U.parse u ≡ some url → (p : String) → IsPortOf url p → open_ p ≡ true

    get_port_unique : (url : Url) (p : String) → IsPortOf url p → get_port U url ≡ p
    unfolding get_port
    get_port_unique url p (given h) = ground (arith, eq_iff (U.port url) "", h)
    get_port_unique url p (https h s) =
        ground (arith, eq_iff (U.port url) "", eq_iff url.scheme "https", h, s)
    get_port_unique url p (wss h s) =
        ground (arith, eq_iff (U.port url) "", eq_iff url.scheme "wss", h, s)
    get_port_unique url p (plain h s s') = ground (
      arith,
      eq_iff (U.port url) "",
      eq_iff url.scheme "https",
      eq_iff url.scheme "wss",
      h,
      s,
      s',
    )

    get_port-IsPortOf : (url : Url) → IsPortOf url (get_port U url)
    unfolding get_port
    get_port-IsPortOf url =
        go (U.port url == "") (url.scheme == "https") (url.scheme == "wss") (eq_iff (U.port url) "")
          (eq_iff url.scheme "https") (eq_iff url.scheme "wss")
      where
        go :
            (b c d : Bool)
            → (b ≡ true) ↔ (U.port url ≡ "")
            → (c ≡ true) ↔ (url.scheme ≡ "https")
            → (d ≡ true) ↔ (url.scheme ≡ "wss")
            → IsPortOf url (if b then (if c || d then "443" else "80") else U.port url)
        go false c d h k l = given (λ e. let x = h.1 e in cc)
        go true true d h k l = https (h.0 refl) (k.0 refl)
        go true false true h k l = wss (h.0 refl) (l.0 refl)
        go true false false h k l =
            plain (h.0 refl) (λ e. let x = k.1 e in cc) (λ e. let x = l.1 e in cc)

    url_open-IsOpen : (u : String) → (url_open (U.parse u) ≡ true) ↔ IsOpen u
    url_open-IsOpen u = go (U.parse u)
      where
        go :
            (o : Option Url)
            → (url_open o ≡ true)
              ↔ ((url : Url) → o ≡ some url → (p : String) → IsPortOf url p → open_ p ≡ true)
        go none = ((λ h url e p own. cc), λ h. refl)
        go (some x) = (
          λ h url e p own.
              let same : x ≡ url = some-injective _ _ e in
              let port = get_port_unique url p own in
              ap open_ (sym port ∙ ap (get_port U) (sym same)) ∙ h,
          λ h. h x refl (get_port U x) (get_port-IsPortOf x),
        )

    urls_open-All : (us : List String) → (urls_open us ≡ true) ↔ All IsOpen us
    unfolding urls_open
    urls_open-All [] = ((λ h. tt), λ h. refl)
    urls_open-All (u ∷ us) =
        let (one, one') = url_open-IsOpen u in
        let (rest, rest') = urls_open-All us in
        (
          λ h. (one (ground (arith, h)), rest (ground (arith, h))),
          λ (h, hs). let x = one' h in let y = rest' hs in ground (arith, x, y),
        )

    -- Each template of each service is open.
    abbrev pub AllOpen : Map (List String) → Type 0
    AllOpen services = All (λ (s : String × List String). All IsOpen s.1) services

    services_open-All :
        (services : Map (List String)) → (services_open services ≡ true) ↔ AllOpen services
    unfolding services_open
    services_open-All [] = ((λ h. tt), λ h. refl)
    services_open-All ((name, s) ∷ services) =
        let (one, one') = urls_open-All s in
        let (rest, rest') = services_open-All services in
        (
          λ h. (one (ground (arith, h)), rest (ground (arith, h))),
          λ (h, hs). let x = one' h in let y = rest' hs in ground (arith, x, y),
        )

    -- The probe succeeds exactly when every URL template of every service that parses has an open port,
    -- in whatever order the ports are probed. The port is the one that the URL names, or else 443 for https and wss, and 80 for any other scheme.
    pub check_ports-AllOpen :
        (services : Map (List String)) (order : List String → List String)
        → ((ks : List String) (k : String) → contains (order ks) k ≡ contains ks k)
        → (check_ports open_ (order (keys (get_ports U services))) ≡ true) ↔ AllOpen services
    unfolding get_ports
    check_ports-AllOpen services order same =
        let probed : check_ports open_ (order (keys (get_ports_from U services [])))
            ≡ services_open services =
          check_ports-order (order (keys (get_ports_from U services [])))
            (keys (get_ports_from U services [])) (same (keys (get_ports_from U services [])))
          ∙ check_ports-get_ports_from services []
          ∙ unfold check_ports keys in ground arith in
        let (forth, back) = services_open-All services in
        ((λ h. forth (sym probed ∙ h)), λ h. probed ∙ back h)
