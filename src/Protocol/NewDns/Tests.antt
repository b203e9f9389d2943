-- ===== src/Protocol/NewDns/Tests.antt =====
-- internal/protocol/newdns.go: one answer of the DNS, and the targets in it.
use yyb_go.Prelude.{
  ℕ, ◌≤◌, ◌<◌, ◌≡◌, refl, arith, true, false, List, [], ◌∷◌, none, some, codes, length, All, ltb,
  if◌then◌else◌,
}
use yyb_go.Prelude.Map.{lookup, insert}
use yyb_go.Prelude.Outcome.{Outcome, ok as answered, err as failed}
use yyb_go.Prelude.Text.{Text, text_eq, text_eq_instance, pos}
use yyb_go.Protocol.Values.{number, text, array, object, nil, cons, Fields, empty, field, at_key}
use yyb_go.Protocol.Pool.{Target}
use yyb_go.Protocol.NewDns.{
  DnsDomain, ok, parse_domain_list, domains_of, ips_of, ports_of, protocols_of, servers_for, pick,
  pick_all, text_lt, insert_by_ip, sort_by_ip, order_longlink_targets, get_shortlink_targets,
}
use yyb_go.Protocol.NewDns.Cache.{
  Reply, CacheEntry, ask_all, get_dns_parsed, get_dns_parsed-Caches, Holds,
}
use yyb_go.Protocol.NewDns.Order.{order_longlink_targets-Ordered, IsSorted}

abbrev targets : List Target
targets =
    record { ip = codes "2.2.2.2"; port = pos 80 }
    ∷ record { ip = codes "1.1.1.1"; port = pos 443 }
    ∷ record { ip = codes "1.1.1.1"; port = pos 8080 }
    ∷ []

-- An address is taken with the first of the ports that it has.
ordered :
    order_longlink_targets targets 6
    ≡ record { ip = codes "1.1.1.1"; port = pos 8080 }
      ∷ record { ip = codes "2.2.2.2"; port = pos 80 }
      ∷ []
unfolding order_longlink_targets pick_all pick sort_by_ip insert_by_ip text_lt text_eq
ordered = refl

order_longlink_targets-Ordered_example :
    (length (order_longlink_targets targets 1) ≤ 1)
    × (0 < length (order_longlink_targets targets 1))
    × All (λ (t : Target). 0 < length t.ip) (order_longlink_targets targets 1)
    × IsSorted (order_longlink_targets targets 1)
order_longlink_targets-Ordered_example =
    order_longlink_targets-Ordered (λ t. 0 < length t.ip) targets 1 (omega arith) (omega arith)
      (omega arith, (omega arith, (omega arith, tt)))

abbrev one_ip : Fields
one_ip =
    field (codes "dns")
      (object (
        field (codes "retcode") (number (pos 0)) (
          field (codes "domainlist")
            (array (
              cons
                (object (
                  field (codes "name") (text (codes "shortcloud.weixin.com")) (
                    field (codes "iplist")
                      (array
                        (cons (object (field (codes "ip") (text (codes "3.3.3.3")) empty)) nil))
                      (field (codes "protocollist")
                        (array (
                          cons
                            (object (
                              field (codes "name") (text (codes "http")) (
                                field (codes "portlist") (array (cons (number (pos 80)) nil))
                                  empty)))
                            nil))
                        empty))))
                nil))
            empty)))
      empty

shortlink :
    get_shortlink_targets (parse_domain_list (λ s. true) one_ip)
    ≡ record { ip = codes "3.3.3.3"; port = pos 80 } ∷ []
unfolding get_shortlink_targets parse_domain_list at_key text_eq domains_of ips_of ports_of
    protocols_of lookup insert servers_for pick
shortlink = refl

abbrev no_answer : Text → Outcome Text Reply
no_answer server = failed (codes "offline")

abbrev from_backup : Text → Outcome Text Reply
from_backup [] = failed (codes "offline")
from_backup (c ∷ s) = answered (record { status = pos 200; obj = some one_ip })

abbrev domains : List (Text × DnsDomain)
domains =
    (
      codes "shortcloud.weixin.com",
      record {
        ips = codes "3.3.3.3" ∷ [];
        protocols = (codes "http", pos 80 ∷ []) ∷ [];
        timeout = pos 0;
      },
    )
    ∷ []

abbrev entry : CacheEntry
entry = record { expires_at = 1100; parsed = domains }

from_backup_answer :
    get_dns_parsed (λ s. true) 1000 100 false from_backup none ≡ (ok domains, some entry)
unfolding get_dns_parsed ask_all parse_domain_list at_key text_eq domains_of ips_of ports_of
    protocols_of lookup insert
from_backup_answer = refl

get_dns_parsed-Caches_example :
    (kept : CacheEntry) × Holds (λ s. true) 1000 100 false none domains (some entry) kept
    × ((later : ℕ) (other : Text → Outcome Text Reply)
        → get_dns_parsed (λ s. true) later 100 false other (some entry) ≡ (
            if ltb later kept.expires_at
            then (ok domains, some entry)
            else get_dns_parsed (λ s. true) later 100 true other (some entry)))
get_dns_parsed-Caches_example =
    get_dns_parsed-Caches (λ s. true) 1000 100 false from_backup none domains (some entry)
      (omega arith) from_backup_answer
