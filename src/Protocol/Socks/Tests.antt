-- ===== src/Protocol/Socks/Tests.antt =====
-- internal/protocol/transport.go: socks5Connect with concrete answers.
use yyb_go.Prelude.{◌≡◌, refl, [], ◌∷◌, ◌++◌, true, false, some, arith, Bytes, codes, replicate}
use yyb_go.Prelude.Outcome.{ok, err}
use yyb_go.Prelude.Text.{text_eq}
use yyb_go.Protocol.Socks.{
  write_failed, short_read, negotiation_failed, host_too_long, connect_failed, unsupported_address,
  done, greeting, read_full, discard_address, socks5_connect,
}
use yyb_go.Protocol.Socks.Connect.{ipv4, domain, answers, after, requested, socks5_connect-Connects}

connect_ipv4 :
    socks5_connect
      (codes "a.b")
      443
      (after (answers (ipv4 (127 ∷ 0 ∷ 0 ∷ 1 ∷ [])) 1080 ++ 9 ∷ 9 ∷ []) [])
    ≡ (ok done, after (9 ∷ 9 ∷ []) (greeting ++ 5 ∷ 1 ∷ 0 ∷ 3 ∷ 3 ∷ 97 ∷ 46 ∷ 98 ∷ 1 ∷ 187 ∷ []))
unfolding socks5_connect discard_address read_full text_eq
connect_ipv4 = refl

connect_refused :
    (socks5_connect (codes "a.b") 443 (after (5 ∷ 0 ∷ 5 ∷ 1 ∷ 0 ∷ 1 ∷ []) [])).0
    ≡ err connect_failed
unfolding socks5_connect discard_address read_full text_eq
connect_refused = refl

connect_needs_login :
    (socks5_connect (codes "a.b") 443 (after (5 ∷ 255 ∷ []) [])).0 ≡ err negotiation_failed
unfolding socks5_connect discard_address read_full text_eq
connect_needs_login = refl

connect_cut_off : (socks5_connect (codes "a.b") 443 (after (5 ∷ 0 ∷ 5 ∷ []) [])).0 ≡ err short_read
unfolding socks5_connect discard_address read_full text_eq
connect_cut_off = refl

connect_long_host :
    (socks5_connect (replicate 256 97) 443 (after (5 ∷ 0 ∷ []) [])).0 ≡ err host_too_long
unfolding socks5_connect discard_address read_full text_eq
connect_long_host = refl

connect_unknown_address :
    (socks5_connect (codes "a.b") 443 (after (5 ∷ 0 ∷ 5 ∷ 0 ∷ 0 ∷ 2 ∷ []) [])).0
    ≡ err unsupported_address
unfolding socks5_connect discard_address read_full text_eq
connect_unknown_address = refl

connect_write_fails :
    (socks5_connect
      (codes "a.b")
      443
      (record { incoming = 5 ∷ 0 ∷ []; written = []; faults = false ∷ true ∷ [] })).0
    ≡ err write_failed
unfolding socks5_connect discard_address read_full text_eq
connect_write_fails = refl

socks5_connect-Connects_example :
    (sent : Bytes) × (socks5_connect
        (codes "a.b")
        443
        (after (answers (domain (codes "c")) 1080 ++ 9 ∷ []) [])
      ≡ (ok done, after (9 ∷ []) (([] ++ greeting) ++ sent)))
    × (requested sent ≡ some (codes "a.b", 443))
socks5_connect-Connects_example =
    socks5_connect-Connects (codes "a.b") 443 (domain (codes "c")) 1080 (9 ∷ []) [] (omega arith)
      (omega arith) (omega arith)
