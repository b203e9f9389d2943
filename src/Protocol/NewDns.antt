-- ===== src/Protocol/NewDns.antt =====
-- internal/protocol/newdns.go: the servers of the service, from its own DNS over HTTP. What the requests
-- answer is an argument, as is net.ParseIP.
pub mod Order
pub mod Cache
pub mod Tests
use yyb_go.Prelude.{
  ℕ, zero, suc, ◌+◌, Bool, true, false, not, ◌&&◌, ◌||◌, List, [], ◌∷◌, ◌++◌, Option, none, some,
  codes, ltb, leb, length, take, if◌then◌else◌, ◌==◌,
}
use yyb_go.Prelude.Map.{lookup, insert}
use yyb_go.Prelude.Text.{Text, text_eq, text_eq_instance, ℤ, pos, negsuc}
use yyb_go.Protocol.Values.{
  Any, null, boolean, number, text, array, object, Items, nil, cons, Fields, empty, field, at_key,
  string_any, int64_from_any, as_object, as_array, as_text, is_zero, or_empty,
}
use yyb_go.Protocol.Pool.{Target}

pub record DnsDomain : Type 0 where
  pub ips : List Text
  pub protocols : List (Text × List ℤ)
  pub timeout : ℤ

pub data Error : Type 0 where
  dns_missing domainlist_missing request_failed : Error
  bad_status : ℤ → Error
  retcode : ℤ → Error
  of_request : Text → Error

pub data Result {ℓ} (A : Type ℓ) : Type ℓ where
  ok : A → Result A
  err : Error → Result A

abbrev pub no_items : Option Items → Items
no_items none = nil
no_items (some xs) = xs

module _ (is_ip : Text → Bool) where
  abbrev pub add_ip : Option Text → List Text → List Text
  add_ip none ips = ips
  add_ip (some ip) ips = if is_ip ip then ip ∷ ips else ips

  unfoldable pub ips_of : Items → List Text
  ips_of nil = []
  ips_of (cons x xs) = add_ip (as_text (at_key (or_empty (as_object x)) (codes "ip"))) (ips_of xs)

  -- The ports that are numbers, behind those that the protocol has.
  unfoldable pub ports_of : Items → List ℤ
  ports_of nil = []
  ports_of (cons (number n) xs) = n ∷ ports_of xs
  ports_of (cons null xs) = ports_of xs
  ports_of (cons (boolean b) xs) = ports_of xs
  ports_of (cons (text s) xs) = ports_of xs
  ports_of (cons (array ys) xs) = ports_of xs
  ports_of (cons (object m) xs) = ports_of xs

  abbrev pub ports_at : Text → List (Text × List ℤ) → List ℤ
  ports_at name protocols = elim (lookup name protocols) [ none ↦ [] | some ports ↦ ports ]

  -- `append` makes an entry only where there is a port.
  abbrev pub add_ports : Text → List ℤ → List (Text × List ℤ) → List (Text × List ℤ)
  add_ports name [] protocols = protocols
  add_ports name (p ∷ ports) protocols =
      insert name (ports_at name protocols ++ p ∷ ports) protocols

  abbrev pub add_protocol : Option Fields → List (Text × List ℤ) → List (Text × List ℤ)
  add_protocol none protocols = protocols
  add_protocol (some p) protocols =
      let name = string_any (at_key p (codes "name")) in
      if text_eq name []
      then protocols
      else add_ports name (ports_of (no_items (as_array (at_key p (codes "portlist"))))) protocols

  unfoldable pub protocols_of : Items → List (Text × List ℤ) → List (Text × List ℤ)
  protocols_of nil protocols = protocols
  protocols_of (cons x xs) protocols = protocols_of xs (add_protocol (as_object x) protocols)

  abbrev pub domain_of : Fields → DnsDomain
  domain_of d = record {
    ips = ips_of (no_items (as_array (at_key d (codes "iplist"))));
    protocols = protocols_of (no_items (as_array (at_key d (codes "protocollist")))) [];
    timeout = int64_from_any (at_key d (codes "timeout"));
  }

  abbrev pub add_domain : Option Fields → List (Text × DnsDomain) → List (Text × DnsDomain)
  add_domain none out = out
  add_domain (some d) out =
      let name = string_any (at_key d (codes "name")) in
      if text_eq name [] then out else insert name (domain_of d) out

  unfoldable pub domains_of : Items → List (Text × DnsDomain) → List (Text × DnsDomain)
  domains_of nil out = out
  domains_of (cons x xs) out = domains_of xs (add_domain (as_object x) out)

  abbrev pub with_list : Option Items → Result (List (Text × DnsDomain))
  with_list none = err domainlist_missing
  with_list (some xs) = ok (domains_of xs [])

  abbrev pub with_dns : Option Fields → Result (List (Text × DnsDomain))
  with_dns none = err dns_missing
  with_dns (some dns) =
      let rc = int64_from_any (at_key dns (codes "retcode")) in
      if not (is_zero rc)
      then err (retcode rc)
      else with_list (as_array (at_key dns (codes "domainlist")))

  unfoldable pub parse_domain_list : Fields → Result (List (Text × DnsDomain))
  parse_domain_list obj = with_dns (as_object (at_key obj (codes "dns")))

abbrev pub at_ports : Text → List ℤ → List Target → List Target
at_ports ip [] rest = rest
at_ports ip (p ∷ ports) rest = record { ip = ip; port = p } ∷ at_ports ip ports rest

abbrev pub at_ips : List Text → List ℤ → List Target
at_ips [] ports = []
at_ips (ip ∷ ips) ports = at_ports ip ports (at_ips ips ports)

abbrev pub servers_of : Text → Option DnsDomain → List Target
servers_of proto none = []
servers_of proto (some info) =
    at_ips info.ips (elim (lookup proto info.protocols) [ none ↦ [] | some ports ↦ ports ])

unfoldable pub servers_for : List (Text × DnsDomain) → Text → Text → List Target
servers_for parsed domain proto = servers_of proto (lookup domain parsed)

abbrev pub is_seen : Text → List Text → Bool
is_seen ip [] = false
is_seen ip (s ∷ seen) = text_eq s ip || is_seen ip seen

-- `t.Port == p`
abbrev pub is_port : ℕ → ℤ → Bool
is_port p (pos n) = n == p
is_port p (negsuc n) = false

-- The targets of one port whose addresses have not been seen, and the addresses behind them.
unfoldable pub pick : ℕ → List Target → List Text → List Target × List Text
pick p [] seen = ([], seen)
pick p (t ∷ ts) seen =
    let with_it = pick p ts (t.ip ∷ seen) in
    let without = pick p ts seen in
    if is_port p t.port && not (is_seen t.ip seen) then (t ∷ with_it.0, with_it.1) else without

unfoldable pub pick_all : List ℕ → List Target → List Text → List Target
pick_all [] targets seen = []
pick_all (p ∷ pref) targets seen =
    let picked = pick p targets seen in picked.0 ++ pick_all pref targets picked.1

-- `<` on texts, by code points, as it is on their bytes.
unfoldable pub text_lt : Text → Text → Bool
text_lt s [] = false
text_lt [] (d ∷ t) = true
text_lt (c ∷ s) (d ∷ t) = ltb c d || c == d && text_lt s t

-- sort.SliceStable by the address.
unfoldable pub insert_by_ip : Target → List Target → List Target
insert_by_ip t [] = t ∷ []
insert_by_ip t (u ∷ us) = if text_lt u.ip t.ip then u ∷ insert_by_ip t us else t ∷ u ∷ us

unfoldable pub sort_by_ip : List Target → List Target
sort_by_ip [] = []
sort_by_ip (t ∷ ts) = insert_by_ip t (sort_by_ip ts)

abbrev pub or_all : List Target → List Target → List Target
or_all targets [] = targets
or_all targets (t ∷ out) = t ∷ out

abbrev pub at_most : ℕ → List Target → List Target
at_most zero out = out
at_most (suc n) out = take (suc n) out

abbrev pub pref : List ℕ
pref = 8080 ∷ 80 ∷ 443 ∷ 5000 ∷ []

unfoldable pub order_longlink_targets : List Target → ℕ → List Target
order_longlink_targets targets max =
    at_most max (sort_by_ip (or_all targets (pick_all pref targets [])))

abbrev pub fallback_longlink : List Target
fallback_longlink = record { ip = codes "longcloud.weixin.com"; port = pos 443 } ∷ []

abbrev pub or_fallback : List Target → List Target → List Target
or_fallback fallback [] = fallback
or_fallback fallback (t ∷ ts) = t ∷ ts

unfoldable pub get_longlink_targets : Result (List (Text × DnsDomain)) → List Target
get_longlink_targets (err e) = fallback_longlink
get_longlink_targets (ok parsed) =
    or_fallback fallback_longlink
      (servers_for parsed (codes "longcloud.weixin.com") (codes "mmtlsovertcp"))

abbrev pub fallback_shortlink : List Target
fallback_shortlink = record { ip = codes "120.241.131.173"; port = pos 80 } ∷ []

unfoldable pub get_shortlink_targets : Result (List (Text × DnsDomain)) → List Target
get_shortlink_targets (err e) = fallback_shortlink
get_shortlink_targets (ok parsed) =
    or_fallback fallback_shortlink
      (pick 80 (servers_for parsed (codes "shortcloud.weixin.com") (codes "http")) []).0
